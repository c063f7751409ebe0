-- ===== src/Ci/Changed/Selected.antt =====
-- The outputs that are selected by the diff.
use mathlib.Core.Option.{some-injective, Option-elim}
use aeroflare.Base.{
  ◌≡◌, refl, sym, ap, ◌∙◌, subst, ◌≢◌, ◌↔◌, ◌⊎◌, inl, inr, true, not, ◌||◌, Option, none, some,
  List, [], ◌∷◌, arith, ◌==◌, Bool-cases, text_eq_of_beq, text_beq_iff, if_true, if_false, All, In,
  All-of_In, Text, trim_space, Dict, lookup, insert, lookup-insert_self, sort_of_perm, sort-In,
  In-sort, ◌>>=◌, >>=-eq-success, success-injective, Outcome, success, text_eq,
}
use aeroflare.Ci.Outputs.Expand.{expand_builds_lem}
use aeroflare.Ci.Outputs.{has_sentinel, FlakeOutputs, discover_sentinel, entries_of, expand_builds}
use aeroflare.Narinfo.{empty}
use aeroflare.Ci.Changed.{
  drv_of, changed_name, changed_class, changed_sentinel, resolve_changed, expand_sentinel,
  resolve_builds, MissingBasePolicy, ChangedResult, BuildsError, lift_eval, found_outputs,
  expand_changed,
}
use mathlib.Core.List.{filter_map, Perm}
use mathlib.Core.List.Perm

-- An output that `changedClass` builds: it was not evaluated, or its derivation is not the base's.
abbrev pub IsChanged : Dict Text Text → Dict Text Text → Text → Type 0
IsChanged known head n = (drv : Text) × In (n, drv) head × ((drv ≡ []) ⊎ (drv_of known n ≢ drv))

changed_name-some :
    (known : Dict Text Text) (n drv : Text)
    → (drv ≡ []) ⊎ (drv_of known n ≢ drv)
    → changed_name known (n, drv) ≡ some n
unfolding changed_name
changed_name-some known n drv h =
    ground (arith, text_beq_iff drv [], text_beq_iff (drv_of known n) drv, h)

some-changed_name :
    (known : Dict Text Text) (n drv m : Text)
    → changed_name known (n, drv) ≡ some m
    → (m ≡ n) × ((drv ≡ []) ⊎ (drv_of known n ≢ drv))
unfolding changed_name
some-changed_name known n drv m h = elim (Bool-cases (drv == [] || not (drv_of known n == drv))) [
  | inl changed ↦ (
    some-injective m n (sym h ∙ if_true (drv == [] || not (drv_of known n == drv)) _ _ changed),
    elim (Bool-cases (drv == [])) [
      | inl empty ↦ inl (text_eq_of_beq drv [] empty)
      | inr full ↦ inr (λ e. cc (changed, full, (text_beq_iff (drv_of known n) drv).1 e))
    ],
  )
  | inr same ↦ absurd (cc (sym h ∙ if_false (drv == [] || not (drv_of known n == drv)) _ _ same))
]

kept-cases :
    (o : Option Text) (rest : List Text) (n : Text)
    → In n (Option-elim o rest (λ b. b ∷ rest))
    → (o ≡ some n) ⊎ In n rest
unfolding Option-elim
kept-cases none rest n m = inr m
kept-cases (some b) rest n (inl e) = inl (ap some (sym e))
kept-cases (some b) rest n (inr m) = inr m

kept-In :
    (o : Option Text) (rest : List Text) (n : Text)
    → (o ≡ some n) ⊎ In n rest
    → In n (Option-elim o rest (λ b. b ∷ rest))
unfolding Option-elim
kept-In none rest n (inl e) = absurd (cc e)
kept-In none rest n (inr m) = m
kept-In (some b) rest n (inl e) = inl (sym (some-injective b n e))
kept-In (some b) rest n (inr m) = inr m

In-filter_map :
    (f : Text × Text → Option Text) (es : Dict Text Text) (n : Text)
    → In n (filter_map f es)
    → (e : Text × Text) × In e es × (f e ≡ some n)
unfolding filter_map
In-filter_map f [] n m = absurd m
In-filter_map f (e ∷ es) n m = elim (kept-cases (f e) (filter_map f es) n m) [
  | inl h ↦ (e, inl refl, h)
  | inr m' ↦ let (d, md, h) = In-filter_map f es n m' in (d, inr md, h)
]

filter_map-In :
    (f : Text × Text → Option Text) (es : Dict Text Text) (e : Text × Text) (n : Text)
    → In e es
    → f e ≡ some n
    → In n (filter_map f es)
unfolding filter_map
filter_map-In f [] e n m h = absurd m
filter_map-In f (d ∷ es) e n (inl same) h =
    kept-In (f d) (filter_map f es) n (inl (ap f (sym same) ∙ h))
filter_map-In f (d ∷ es) e n (inr m) h =
    kept-In (f d) (filter_map f es) n (inr (filter_map-In f es e n m h))

-- `changedClass` selects exactly the outputs of the head that were not evaluated or whose
-- derivation is not that of the base, where an output that the base lacks has none.
pub changed_class_iff :
    (known head : Dict Text Text) (n : Text)
    → In n (changed_class known head) ↔ IsChanged known head n
unfolding changed_class
changed_class_iff known head n = (
  λ m.
      let ((k, drv), md, h) =
        In-filter_map (changed_name known) head n
          (In-sort n (filter_map (changed_name known) head) m) in
      let (e, changed) = some-changed_name known k drv n h in rw e (drv, md, changed),
  λ (drv, m, changed). sort-In n (filter_map (changed_name known) head) (
      filter_map-In (changed_name known) head (n, drv) n m (changed_name-some known n drv changed)),
)

-- `changedClass` does not depend on the order in which the map of the head is walked.
pub changed_class_order :
    (known head head' : Dict Text Text)
    → Perm head head'
    → changed_class known head ≡ changed_class known head'
unfolding changed_class
changed_class_order known head head' p = sort_of_perm (Perm.filter_map (changed_name known) p)

expand_sentinel-lookup :
    (found : Outcome BuildsError (List Text)) (sentinel : Text)
    (expansions expansions' : Dict Text (List Text))
    → expand_sentinel true sentinel found expansions ≡ success expansions'
    → (is : List Text) × (found ≡ success is) × (expansions' ≡ insert sentinel is expansions)
expand_sentinel-lookup found sentinel expansions expansions' h =
    let (is, made, e) = >>=-eq-success found (λ is. success (insert sentinel is expansions)) h in
    (is, made, sym (success-injective e))

has_sentinel-In :
    (builds : List Text) (sentinel : Text)
    → has_sentinel builds sentinel ≡ true
    → (b : Text) × In b builds × (trim_space b ≡ sentinel)
unfolding has_sentinel
has_sentinel-In [] sentinel h = absurd (cc h)
has_sentinel-In (b ∷ bs) sentinel h = elim (Bool-cases (trim_space b == sentinel)) [
  | inl here ↦ (b, inl refl, text_eq_of_beq (trim_space b) sentinel here)
  | inr other ↦
      let (c, m, e) = has_sentinel-In bs sentinel (ground (arith, other, h)) in (c, inr m, e)
]

-- When the build list asks for `changed` and `resolveBuilds` succeeds, `resolveChanged` has
-- succeeded, and each installable that it gives is in the resolved build list.
pub resolve_builds-changed :
    (builds : List Text) (policy : MissingBasePolicy) (discovered : Outcome Text FlakeOutputs)
    (diffed : Outcome Text ChangedResult) (resolved : List Text)
    → has_sentinel builds changed_sentinel ≡ true
    → resolve_builds builds policy discovered diffed ≡ success resolved
    → (is : List Text) × (resolve_changed policy diffed ≡ success is) × All (λ e. In e resolved) is
unfolding resolve_builds expand_changed
resolve_builds-changed builds policy discovered diffed resolved asked h =
    let (first, _, h1) =
      >>=-eq-success
        (expand_sentinel (has_sentinel builds discover_sentinel) discover_sentinel
          (lift_eval discovered >>= found_outputs) [])
        (expand_changed builds policy diffed) h in
    let (second, expanded, h2) =
      >>=-eq-success
        (expand_sentinel (has_sentinel builds changed_sentinel) changed_sentinel
          (resolve_changed policy diffed) first)
        (λ all_expansions. success (expand_builds builds all_expansions)) h1 in
    let (is, made, e) =
      expand_sentinel-lookup (resolve_changed policy diffed) changed_sentinel first second (
        subst
          (λ b.
            expand_sentinel b changed_sentinel (resolve_changed policy diffed) first
            ≡ success second)
          asked expanded) in
    let (b, mb, named) = has_sentinel-In builds changed_sentinel asked in
    let found : lookup (trim_space b) second ≡ some is =
      ap (λ n. lookup n second) named
      ∙ ap (lookup changed_sentinel) e
      ∙ lookup-insert_self changed_sentinel is first in
    let entries : entries_of second b ≡ is =
      ap (λ o. elim o [ none ↦ b ∷ [] | some found ↦ found ]) found in
    (
      is,
      made,
      All-of_In (λ e. In e resolved) is
          (λ e m.
            subst (λ out. In e out) (success-injective h2)
              (((expand_builds_lem second builds).1 e).1
                (b, mb, subst (λ es. In e es) (sym entries) m))),
    )
