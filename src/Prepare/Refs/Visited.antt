-- ===== src/Prepare/Refs/Visited.antt =====
-- What `prepareRefsRecursive` has done when it returns results: every path that it visits has one
-- result, and the missing references of every result are visited.
use aeroflare.Base.{
  ◌≡◌, refl, ap, ◌⊎◌, inl, inr, List, [], ◌∷◌, map, Option-cases, All, In, Distinct, In-map, Text,
  Dict, lookup, text_eq,
}
use aeroflare.Prepare.Refs.Parts.{lookup-result_map, result_map-In}
use aeroflare.Prepare.Refs.{result_map, attach, attach_all}
use aeroflare.Prepare.Tree.{
  Result, info, path_of, Under, UnderAny, EachAll, AgreeAll, forest, Each-forest, Info, result,
}

-- A node is new, and what it is missing is visited.
abbrev pub IsCovered : List Text → List Text → Result → Type 0
IsCovered visited visited' r =
    In (path_of r) visited'
    × (¬ In (path_of r) visited)
    × All (λ m. In m visited') (info r).missing_refs

pub record Prepared (refs visited : List Text) (results : List Result) (visited' : List Text)
    : Type 0 where
  pub distinct : Distinct (map path_of results)
  pub asked : (r : Result) → In r results → In (path_of r) refs
  pub done : (p : Text) → In p refs → In p visited'
  pub grown : (p : Text) → In p visited → In p visited'
  pub reached : (p : Text) → In p visited' → In p visited ⊎ UnderAny p (forest results)
  pub covered : EachAll (IsCovered visited visited') (forest results)
  pub at : Text → Result
  pub agree : AgreeAll at (forest results)

-- The trees under one path are trees of the results below it.
pub attach-EachAll :
    (P : Result → Type 0) (sub : List Result) (refs : List Text)
    → EachAll P (forest sub)
    → EachAll P (attach (result_map sub) refs)
unfolding attach
attach-EachAll P sub [] h = tt
attach-EachAll P sub (ref ∷ refs) h = elim (Option-cases (lookup ref (result_map sub))) [
  | inl miss ↦ rw miss (attach-EachAll P sub refs h)
  | inr (r, hit) ↦
      let (_, m) = result_map-In ref r sub hit in
      rw hit (Each-forest P r sub h m, attach-EachAll P sub refs h)
]

pub attach-UnderAny :
    (t : Result) (p : Text) (sub : List Result) (refs : List Text)
    → Distinct (map path_of sub)
    → In t sub
    → In (path_of t) refs
    → Under p t
    → UnderAny p (attach (result_map sub) refs)
unfolding attach
attach-UnderAny t p sub [] d m h u = absurd h
attach-UnderAny t p sub (ref ∷ refs) d m (inl e) u = rw (← e, lookup-result_map t sub d m) (inl u)
attach-UnderAny t p sub (ref ∷ refs) d m (inr h) u =
    let later = attach-UnderAny t p sub refs d m h u in
    elim (Option-cases (lookup ref (result_map sub))) [
      | inl miss ↦ rw miss later
      | inr (r, hit) ↦ rw hit (inr later)
    ]

-- The paths of a level's results are the level's.
pub attach_all-paths :
    (found : Dict Text Result) (level : List Info)
    → map path_of (attach_all found level) ≡ map (λ i. i.store_path) level
attach_all-paths found [] = refl
attach_all-paths found (i ∷ level) = ap (λ ps. i.store_path ∷ ps) (attach_all-paths found level)

pub In-attach_all :
    (r : Result) (found : Dict Text Result) (level : List Info)
    → In r (attach_all found level)
    → (i : Info) × In i level × (r ≡ result i (attach found i.missing_refs))
In-attach_all r found [] h = absurd h
In-attach_all r found (i ∷ level) (inl e) = (i, inl refl, e)
In-attach_all r found (i ∷ level) (inr h) =
    let (j, m, e) = In-attach_all r found level h in (j, inr m, e)

pub attach_all-In :
    (i : Info) (found : Dict Text Result) (level : List Info)
    → In i level
    → In (result i (attach found i.missing_refs)) (attach_all found level)
attach_all-In i found level m = In-map (λ j. result j (attach found j.missing_refs)) i level m

-- A property of all nodes of a level and below it.
pub attach_all-EachAll :
    (P : Result → Type 0) (sub : List Result) (level : List Info)
    → ((i : Info) → In i level → P (result i (attach (result_map sub) i.missing_refs)))
    → EachAll P (forest sub)
    → EachAll P (forest (attach_all (result_map sub) level))
attach_all-EachAll P sub [] here below = tt
attach_all-EachAll P sub (i ∷ level) here below = (
  (here i (inl refl), attach-EachAll P sub i.missing_refs below),
  attach_all-EachAll P sub level (λ j m. here j (inr m)) below,
)

pub In-paths :
    (p : Text) (level : List Info)
    → In p (map (λ i. i.store_path) level)
    → (i : Info) × In i level × (p ≡ i.store_path)
In-paths p [] h = absurd h
In-paths p (i ∷ level) (inl e) = (i, inl refl, e)
In-paths p (i ∷ level) (inr h) = let (j, m, e) = In-paths p level h in (j, inr m, e)
