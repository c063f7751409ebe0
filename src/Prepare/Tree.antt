-- ===== src/Prepare/Tree.antt =====
-- `Result` of pkg/prepare/prepare/prepare.go: one prepared store path and, under it, the prepared
-- results of the references that no upstream cache holds. The pointers of the source form no
-- cycle, since a result is built before the one that refers to it, so a value is a finite tree.
use aeroflare.Base.{
  ℕ, suc, ◌+◌, ◌≡◌, refl, sym, subst, ◌⊎◌, inl, inr, Bool, List, [], ◌∷◌, In, Text,
}

-- The fields of `Result` but `MissingRefResults`.
pub record Info : Type 0 where
  pub store_path : Text
  pub hash : Text
  pub nar_path : Text
  pub narinfo_path : Text
  pub references : List Text
  pub missing_refs : List Text
  pub signed : Bool

mutual
  pub data Result : Type 0 where
    result : Info → Results → Result

  pub data Results : Type 0 where
    nil : Results
    cons : Result → Results → Results

abbrev pub info : Result → Info
info (result i refs) = i

abbrev pub missing_ref_results : Result → Results
missing_ref_results (result i refs) = refs

abbrev pub path_of : Result → Text
path_of r = (info r).store_path

-- The number of nodes.
unfoldable mutual
  pub size : Result → ℕ
  size (result i refs) = suc (size_all refs)

  pub size_all : Results → ℕ
  size_all nil = 0
  size_all (cons r rs) = size r + size_all rs

-- `p` is the store path of a node.
abbrev mutual
  pub Under : Text → Result → Type 0
  Under p (result i refs) = (p ≡ i.store_path) ⊎ UnderAny p refs

  pub UnderAny : Text → Results → Type 0
  UnderAny p nil = ⊥
  UnderAny p (cons r rs) = Under p r ⊎ UnderAny p rs

-- Every node has the property.
abbrev mutual
  pub Each : (Result → Type 0) → Result → Type 0
  Each P (result i refs) = P (result i refs) × EachAll P refs

  pub EachAll : (Result → Type 0) → Results → Type 0
  EachAll P nil = Unit
  EachAll P (cons r rs) = Each P r × EachAll P rs

-- Results of one store path are one result, as the pointers of the source are: `at` finds it.
abbrev pub AgreeAll : (Text → Result) → Results → Type 0
AgreeAll at = EachAll (λ r. at (path_of r) ≡ r)

abbrev pub Agrees : (Text → Result) → Result → Type 0
Agrees at = Each (λ r. at (path_of r) ≡ r)

-- What holds of every path under a forest holds of the path of every node.
mutual
  pub Each-Under :
      (P : Text → Type 0) (r : Result)
      → ((p : Text) → Under p r → P p)
      → Each (λ n. P (path_of n)) r
  Each-Under P (result i refs) h =
      (h i.store_path (inl refl), EachAll-UnderAny P refs (λ p u. h p (inr u)))

  pub EachAll-UnderAny :
      (P : Text → Type 0) (rs : Results)
      → ((p : Text) → UnderAny p rs → P p)
      → EachAll (λ n. P (path_of n)) rs
  EachAll-UnderAny P nil h = tt
  EachAll-UnderAny P (cons r rs) h =
      (Each-Under P r (λ p u. h p (inl u)), EachAll-UnderAny P rs (λ p u. h p (inr u)))

-- What holds of every path of a forest holds of every path under a node of it.
mutual
  pub Each-subtree :
      (P : Text → Type 0) (r : Result)
      → ((p : Text) → Under p r → P p)
      → Each (λ n. (p : Text) → Under p n → P p) r
  Each-subtree P (result i refs) h = (h, EachAll-subtree P refs (λ p u. h p (inr u)))

  pub EachAll-subtree :
      (P : Text → Type 0) (rs : Results)
      → ((p : Text) → UnderAny p rs → P p)
      → EachAll (λ n. (p : Text) → Under p n → P p) rs
  EachAll-subtree P nil h = tt
  EachAll-subtree P (cons r rs) h =
      (Each-subtree P r (λ p u. h p (inl u)), EachAll-subtree P rs (λ p u. h p (inr u)))

pub Under-self : (r : Result) → Under (path_of r) r
Under-self (result i refs) = inl refl

-- A slice of results as a forest.
abbrev pub forest : List Result → Results
forest [] = nil
forest (r ∷ rs) = cons r (forest rs)

-- Two properties of every node that give a third.
mutual
  pub Each-both :
      (P Q R : Result → Type 0)
      → ((n : Result) → P n → Q n → R n)
      → (r : Result) → Each P r
      → Each Q r
      → Each R r
  Each-both P Q R f (result i refs) (p, ps) (q, qs) =
      (f (result i refs) p q, EachAll-both P Q R f refs ps qs)

  pub EachAll-both :
      (P Q R : Result → Type 0)
      → ((n : Result) → P n → Q n → R n)
      → (rs : Results) → EachAll P rs
      → EachAll Q rs
      → EachAll R rs
  EachAll-both P Q R f nil p q = tt
  EachAll-both P Q R f (cons r rs) (p, ps) (q, qs) =
      (Each-both P Q R f r p q, EachAll-both P Q R f rs ps qs)

mutual
  pub Under-Each :
      (P : Text → Type 0) (p : Text) (r : Result) → Each (λ n. P (path_of n)) r → Under p r → P p
  Under-Each P p (result i refs) (h, hs) (inl e) = rw e h
  Under-Each P p (result i refs) (h, hs) (inr u) = UnderAny-EachAll P p refs hs u

  pub UnderAny-EachAll :
      (P : Text → Type 0) (p : Text) (rs : Results)
      → EachAll (λ n. P (path_of n)) rs
      → UnderAny p rs
      → P p
  UnderAny-EachAll P p nil h u = absurd u
  UnderAny-EachAll P p (cons r rs) (h, hs) (inl u) = Under-Each P p r h u
  UnderAny-EachAll P p (cons r rs) (h, hs) (inr u) = UnderAny-EachAll P p rs hs u

-- The nodes of a forest are those of its trees.
pub UnderAny-forest :
    (p : Text) (rs : List Result) → UnderAny p (forest rs) → (t : Result) × In t rs × Under p t
UnderAny-forest p [] u = absurd u
UnderAny-forest p (r ∷ rs) (inl u) = (r, inl refl, u)
UnderAny-forest p (r ∷ rs) (inr u) = let (t, m, v) = UnderAny-forest p rs u in (t, inr m, v)

pub forest-UnderAny :
    (p : Text) (t : Result) (rs : List Result) → In t rs → Under p t → UnderAny p (forest rs)
forest-UnderAny p t [] m u = absurd m
forest-UnderAny p t (r ∷ rs) (inl e) u = inl (subst (λ x. Under p x) e u)
forest-UnderAny p t (r ∷ rs) (inr m) u = inr (forest-UnderAny p t rs m u)

pub Each-forest :
    (P : Result → Type 0) (t : Result) (rs : List Result)
    → EachAll P (forest rs)
    → In t rs
    → Each P t
Each-forest P t [] h m = absurd m
Each-forest P t (r ∷ rs) (h, hs) (inl e) = subst (λ x. Each P x) (sym e) h
Each-forest P t (r ∷ rs) (h, hs) (inr m) = Each-forest P t rs hs m
