-- ===== src/Ci/Builds/Roots.antt =====
-- The roots of a run are different store paths.
use mathlib.Core.Option.{some-injective}
use aeroflare.Base.{
  ℕ, ◌≡◌, refl, sym, ap, ◌∙◌, subst, ◌⊎◌, inl, inr, Bool, true, Option, none, some, List, [], ◌∷◌,
  Bool-cases, if_true, if_false, In, Distinct, contains, In-of_contains, not-In_of_contains, Text,
  Dict, text_eq,
}
use aeroflare.Ci.Builds.{
  dedup_from, dedup_paths, Checker, root_hashes, is_held, kept_roots, kept_by, filter_roots,
}

dedup_from-fresh : (seen ps : List Text) (p : Text) → In p (dedup_from seen ps) → ¬ In p seen
unfolding dedup_from
dedup_from-fresh seen [] p m = absurd m
dedup_from-fresh seen (q ∷ qs) p m = elim (Bool-cases (contains seen q)) [
  | inl old ↦ dedup_from-fresh seen qs p (subst (In p) (if_true (contains seen q) _ _ old) m)
  | inr new ↦ elim (subst (In p) (if_false (contains seen q) _ _ new) m) [
    | inl e ↦ λ n. not-In_of_contains seen q new (subst (λ r. In r seen) e n)
    | inr m' ↦ λ n. dedup_from-fresh (q ∷ seen) qs p m' (inr n)
  ]
]

dedup_from-Distinct : (seen ps : List Text) → Distinct (dedup_from seen ps)
unfolding dedup_from
dedup_from-Distinct seen [] = tt
dedup_from-Distinct seen (q ∷ qs) = elim (Bool-cases (contains seen q)) [
  | inl old ↦ rw old (dedup_from-Distinct seen qs)
  | inr new ↦
      rw new
        ((λ m. dedup_from-fresh (q ∷ seen) qs q m (inl refl)), dedup_from-Distinct (q ∷ seen) qs)
]

dedup_from-In : (seen ps : List Text) (p : Text) → In p ps → In p seen ⊎ In p (dedup_from seen ps)
unfolding dedup_from
dedup_from-In seen [] p m = absurd m
dedup_from-In seen (q ∷ qs) p (inl e) = elim (Bool-cases (contains seen q)) [
  | inl old ↦ inl (subst (λ r. In r seen) (sym e) (In-of_contains seen q old))
  | inr new ↦ inr (rw new (inl e))
]
dedup_from-In seen (q ∷ qs) p (inr m) = elim (Bool-cases (contains seen q)) [
  | inl old ↦ rw old (dedup_from-In seen qs p m)
  | inr new ↦ elim (dedup_from-In (q ∷ seen) qs p m) [
    | inl (inl e) ↦ inr (rw new (inl e))
    | inl (inr n) ↦ inl n
    | inr n ↦ inr (rw new (inr n))
  ]
]

-- Each path is listed once, and none is lost.
pub dedup_paths_lem :
    (paths : List Text)
    → Distinct (dedup_paths paths) × ((p : Text) → In p paths → In p (dedup_paths paths))
unfolding dedup_paths
dedup_paths_lem paths = (
  dedup_from-Distinct [] paths,
  λ p m. elim (dedup_from-In [] paths p m) [ inl none_seen ↦ absurd none_seen | inr n ↦ n ],
)

-- A root is kept or an upstream cache holds it.
pub kept_roots-In :
    (exists : Dict Text Bool) (ps : List Text) (p : Text)
    → In p ps
    → In p (kept_roots exists ps) ⊎ (is_held exists p ≡ true)
unfolding kept_roots
kept_roots-In exists [] p m = absurd m
kept_roots-In exists (q ∷ qs) p (inl e) = elim (Bool-cases (is_held exists q)) [
  | inl held ↦ inr (ap (is_held exists) e ∙ held)
  | inr new ↦ inl (rw new (inl e))
]
kept_roots-In exists (q ∷ qs) p (inr m) = elim (Bool-cases (is_held exists q)) [
  | inl held ↦ rw held (kept_roots-In exists qs p m)
  | inr new ↦ elim (kept_roots-In exists qs p m) [
    | inl n ↦ inl (rw new (inr n))
    | inr held ↦ inr held
  ]
]

In-kept_roots :
    (exists : Dict Text Bool) (ps : List Text) (p : Text) → In p (kept_roots exists ps) → In p ps
unfolding kept_roots
In-kept_roots exists [] p m = m
In-kept_roots exists (q ∷ qs) p m = elim (Bool-cases (is_held exists q)) [
  | inl held ↦
      inr (In-kept_roots exists qs p (subst (In p) (if_true (is_held exists q) _ _ held) m))
  | inr new ↦ elim (subst (In p) (if_false (is_held exists q) _ _ new) m) [
    | inl e ↦ inl e
    | inr m' ↦ inr (In-kept_roots exists qs p m')
  ]
]

pub kept_roots-Distinct :
    (exists : Dict Text Bool) (ps : List Text) → Distinct ps → Distinct (kept_roots exists ps)
unfolding kept_roots
kept_roots-Distinct exists [] d = tt
kept_roots-Distinct exists (q ∷ qs) (fresh, d) = elim (Bool-cases (is_held exists q)) [
  | inl held ↦ rw held (kept_roots-Distinct exists qs d)
  | inr new ↦ rw new ((λ m. fresh (In-kept_roots exists qs q m)), kept_roots-Distinct exists qs d)
]

kept_by-Distinct :
    (roots : List Text) (found : Option (Dict Text Bool)) (kept : List Text) (skipped : ℕ)
    → Distinct roots
    → kept_by roots found ≡ some (kept, skipped)
    → Distinct kept
kept_by-Distinct roots none kept skipped d h = absurd (cc h)
kept_by-Distinct roots (some exists) kept skipped d h =
    subst (λ (p : List Text × ℕ). Distinct p.0) (some-injective _ _ h)
      (kept_roots-Distinct exists roots d)

-- The roots that `filterRoots` keeps of different paths are different.
pub filter_roots-Distinct :
    (checker : Checker) (roots kept : List Text) (skipped : ℕ)
    → Distinct roots
    → filter_roots checker roots ≡ some (kept, skipped)
    → Distinct kept
unfolding filter_roots
filter_roots-Distinct none roots kept skipped d h =
    subst (λ (p : List Text × ℕ). Distinct p.0) (some-injective _ _ h) d
filter_roots-Distinct (some batch) [] kept skipped d h =
    subst (λ (p : List Text × ℕ). Distinct p.0) (some-injective _ _ h) tt
filter_roots-Distinct (some batch) (p ∷ ps) kept skipped d h =
    kept_by-Distinct (p ∷ ps) (batch (root_hashes (p ∷ ps))) kept skipped d h
