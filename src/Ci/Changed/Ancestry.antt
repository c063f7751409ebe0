-- ===== src/Ci/Changed/Ancestry.antt =====
-- The base commit that is diffed against.
use aeroflare.Base.{
  ℕ, ◌≡◌, refl, sym, ap, ◌∙◌, subst, inl, inr, List, [], ◌∷◌, ◌++◌, length, All, In, Text,
  success-injective, Outcome, success, failure, text_eq,
}
use aeroflare.Ci.Changed.{evaluate_first, FlakeDrvs, or_next, or_not_evaluated, first_evaluatable}

-- A commit whose flake does not evaluate.
abbrev IsBroken : (Text → Outcome Text FlakeDrvs) → Text → Type 0
IsBroken eval sha = (e : Text) × (eval sha ≡ failure e)

-- The first commit of the ancestry that evaluates, with those in front of it.
pub record IsFirst (eval : Text → Outcome Text FlakeDrvs) (ancestry : List Text) (drvs : FlakeDrvs)
    (sha : Text) : Type 0 where
  pub skipped : List Text
  pub older : List Text
  pub split_at : ancestry ≡ skipped ++ sha ∷ older
  pub broken : All (IsBroken eval) skipped
  pub evaluated : eval sha ≡ success drvs

module _ (eval : Text → Outcome Text FlakeDrvs) where
  IsFirst-here :
      (c : Text) (cs : List Text) (found drvs : FlakeDrvs) (sha : Text)
      → eval c ≡ success found
      → ◌≡◌ {A = Outcome Text (FlakeDrvs × Text)} (success (found, c)) (success (drvs, sha))
      → IsFirst eval (c ∷ cs) drvs sha
  IsFirst-here c cs found drvs sha h e =
      let same = success-injective e in
      record {
        skipped = [];
        older = cs;
        split_at = ap (λ d. d ∷ cs) (ap (λ (p : FlakeDrvs × Text). p.1) same);
        broken = tt;
        evaluated =
            subst (λ d. eval d ≡ success drvs) (ap (λ (p : FlakeDrvs × Text). p.1) same)
              (h ∙ ap success (ap (λ (p : FlakeDrvs × Text). p.0) same));
      }

  IsFirst-later :
      (c : Text) (cs : List Text) (e : Text) (drvs : FlakeDrvs) (sha : Text)
      → eval c ≡ failure e
      → IsFirst eval cs drvs sha
      → IsFirst eval (c ∷ cs) drvs sha
  IsFirst-later c cs e drvs sha h f = record {
    skipped = c ∷ f.skipped;
    older = f.older;
    split_at = ap (λ ds. c ∷ ds) f.split_at;
    broken = ((e, h), f.broken);
    evaluated = f.evaluated;
  }

  or_next-IsFirst :
      (c : Text) (cs : List Text) (o : Outcome Text FlakeDrvs) (drvs : FlakeDrvs) (sha : Text)
      → eval c ≡ o
      → ((err : Text) → evaluate_first eval cs err ≡ success (drvs, sha) → IsFirst eval cs drvs sha)
      → or_next o c (evaluate_first eval cs) ≡ success (drvs, sha)
      → IsFirst eval (c ∷ cs) drvs sha
  or_next-IsFirst c cs (success found) drvs sha e rest h = IsFirst-here c cs found drvs sha e h
  or_next-IsFirst c cs (failure err) drvs sha e rest h =
      IsFirst-later c cs err drvs sha e (rest err h)

  evaluate_first-IsFirst :
      (ancestry : List Text) (err : Text) (drvs : FlakeDrvs) (sha : Text)
      → evaluate_first eval ancestry err ≡ success (drvs, sha)
      → IsFirst eval ancestry drvs sha
  unfolding evaluate_first
  evaluate_first-IsFirst [] err drvs sha h = absurd (cc h)
  evaluate_first-IsFirst (c ∷ cs) err drvs sha h =
      or_next-IsFirst c cs (eval c) drvs sha refl
        (λ err' h'. evaluate_first-IsFirst cs err' drvs sha h') h

  or_not_evaluated-success :
      (c : Text) (n : ℕ) (o : Outcome Text (FlakeDrvs × Text)) (found : FlakeDrvs × Text)
      → or_not_evaluated c n o ≡ success found
      → o ≡ success found
  or_not_evaluated-success c n (success a) found h = ap success (success-injective h)
  or_not_evaluated-success c n (failure e) found h = cc

  -- The commit that `firstEvaluatable` finds is in the ancestry, its derivations are those that are
  -- returned, and no commit in front of it evaluates.
  pub first_evaluatable-IsFirst :
      (ancestry : List Text) (drvs : FlakeDrvs) (sha : Text)
      → first_evaluatable ancestry eval ≡ success (drvs, sha)
      → IsFirst eval ancestry drvs sha
  unfolding first_evaluatable
  first_evaluatable-IsFirst [] drvs sha h = absurd (cc h)
  first_evaluatable-IsFirst (c ∷ cs) drvs sha h =
      evaluate_first-IsFirst (c ∷ cs) [] drvs sha
        (or_not_evaluated-success c (length cs) (evaluate_first eval (c ∷ cs) []) (drvs, sha) h)

  evaluate_first_found :
      (cs : List Text) (c err : Text) (drvs : FlakeDrvs)
      → In c cs
      → eval c ≡ success drvs
      → (found : FlakeDrvs × Text) × (evaluate_first eval cs err ≡ success found)
  unfolding evaluate_first
  evaluate_first_found [] c err drvs m h = absurd m
  evaluate_first_found (d ∷ ds) c err drvs (inl same) h =
      ((drvs, d), ap (λ o. or_next o d (evaluate_first eval ds)) (ap eval (sym same) ∙ h))
  evaluate_first_found (d ∷ ds) c err drvs (inr m) h =
      elim (eval d)
        as (λ o.
          (found : FlakeDrvs × Text) × (or_next o d (evaluate_first eval ds) ≡ success found)) [
            | success here ↦ ((here, d), refl)
            | failure e ↦ evaluate_first_found ds c e drvs m h
          ]

  -- A base is found if a commit of the ancestry evaluates.
  pub first_evaluatable_found :
      (ancestry : List Text) (c : Text) (drvs : FlakeDrvs)
      → In c ancestry
      → eval c ≡ success drvs
      → (found : FlakeDrvs × Text) × (first_evaluatable ancestry eval ≡ success found)
  unfolding first_evaluatable
  first_evaluatable_found [] c drvs m h = absurd m
  first_evaluatable_found (d ∷ ds) c drvs m h =
      let (found, e) = evaluate_first_found (d ∷ ds) c [] drvs m h in
      (found, ap (or_not_evaluated d (length ds)) e)
