-- ===== src/Prepare/Batch/Single.antt =====
-- In the results of `Prepare` and of `PrepareBatch`, those of one store path are one result.
use aeroflare.Base.{
  ℕ, ◌≡◌, refl, sym, ap, ◌∙◌, subst, ◌≢◌, inl, inr, false, Option, none, some, List, [], ◌∷◌, map,
  if◌then◌else◌, ◌==◌, Bool-cases, text_beq, text_beq_refl, text_beq-false, if_true, if_false,
  Distinct, Text, lookup, >>=-eq-success, success-injective, or_fail, success, text_eq,
}
use aeroflare.Prepare.Batch.Roots.{prepare_batch-Prepared}
use aeroflare.Prepare.Refs.Parts.{prepare_level-paths, lookup-result_map}
use aeroflare.Prepare.Refs.Covered.{prepare_refs_recursive-Prepared}
use aeroflare.Prepare.Refs.Visited.{IsCovered, attach_all-paths, attach_all-In, attach_all-EachAll}
use aeroflare.Prepare.Store.{parse_path}
use aeroflare.Prepare.Refs.{
  Config, Env, prepare_refs_recursive, invalid_path, no_path_info, write_failed, result_map, attach,
  attach_all, prepare_level,
}
use aeroflare.Prepare.Batch.{
  attach_root, prepare, root_info, follow_root, write_root, look_up_root, follow_refs,
  prepare_batch,
}
use aeroflare.Prepare.Tree.{
  path_of, EachAll, AgreeAll, EachAll-both, Info, Result, Results, nil, cons, forest, result,
}

-- The result at the root over those below.
at_root : Result → (Text → Result) → Text → Result
at_root r at p = if path_of r == p then r else at p

at_root-AgreeAll :
    (r : Result) (at : Text → Result) (rs : Results)
    → EachAll (λ n. path_of r ≢ path_of n) rs
    → AgreeAll at rs
    → AgreeAll (at_root r at) rs
unfolding at_root
at_root-AgreeAll r at rs differ agree =
    EachAll-both (λ n. path_of r ≢ path_of n) (λ n. at (path_of n) ≡ n)
      (λ n. at_root r at (path_of n) ≡ n)
      (λ n other own.
        if_false (path_of r == path_of n) r (at (path_of n))
          (text_beq-false (path_of r) (path_of n) other)
        ∙ own)
      rs differ agree

module _ (fuel : ℕ) (env : Env) (cfg : Config) where
  attach_root-AgreeAll :
      (i : Info) (missing : List Text) (r : Result)
      → attach_root fuel env cfg i missing ≡ success r
      → (at : Text → Result) × AgreeAll at (cons r nil)
  unfolding attach_root at_root
  attach_root-AgreeAll i [] r h =
      subst (λ t. (at : Text → Result) × AgreeAll at (cons t nil)) (success-injective h)
        (λ p. result i nil, ((refl, tt), tt))
  attach_root-AgreeAll i (m ∷ ms) r h =
      let (out, called, made) =
        >>=-eq-success (prepare_refs_recursive fuel env cfg (m ∷ ms) (i.store_path ∷ []))
          (λ out. success (result i (forest out.0))) h in
      let below =
        prepare_refs_recursive-Prepared fuel env cfg (m ∷ ms) (i.store_path ∷ []) out.0 out.1
          called in
      let root = result i (forest out.0) in
      let differ =
        EachAll-both (IsCovered (i.store_path ∷ []) out.1) (IsCovered (i.store_path ∷ []) out.1)
          (λ n. i.store_path ≢ path_of n) (λ n c _. λ e. c.1 (inl (sym e))) (forest out.0)
          below.covered below.covered in
      subst (λ t. (at : Text → Result) × AgreeAll at (cons t nil)) (success-injective made)
        (
          at_root root below.at,
          (
            (
              if_true (text_beq i.store_path i.store_path) root (below.at i.store_path)
                  (text_beq_refl i.store_path),
              at_root-AgreeAll root below.at (forest out.0) differ below.agree,
            ),
            tt,
          ),
        )

  follow_root-AgreeAll :
      (i : Info) (r : Result)
      → follow_root fuel env cfg i ≡ success r
      → (at : Text → Result) × AgreeAll at (cons r nil)
  unfolding follow_root
  follow_root-AgreeAll i r h = elim (Bool-cases cfg.prepare_missing_refs) [
    | inl follows ↦
        attach_root-AgreeAll i i.missing_refs r
          (sym (if_true cfg.prepare_missing_refs _ _ follows) ∙ h)
    | inr alone ↦
        subst (λ t. (at : Text → Result) × AgreeAll at (cons t nil))
          (success-injective (sym (if_false cfg.prepare_missing_refs _ _ alone) ∙ h))
          (λ p. result i nil, ((refl, tt), tt))
  ]

  -- Results of `Prepare` of one store path are one result.
  pub prepare-AgreeAll :
      (path : Text) (r : Result)
      → prepare fuel env cfg path ≡ success r
      → (at : Text → Result) × AgreeAll at (cons r nil)
  unfolding prepare look_up_root write_root
  prepare-AgreeAll path r h =
      let (parsed, _, h1) =
        >>=-eq-success (or_fail invalid_path (parse_path path)) (look_up_root fuel env cfg path)
          h in
      let (found, _, h2) =
        >>=-eq-success (or_fail no_path_info (env.get_path_info path))
          (write_root fuel env cfg path parsed) h1 in
      let (files, _, h3) =
        >>=-eq-success (or_fail write_failed (env.write_nar path found))
          (λ files. follow_root fuel env cfg (root_info env cfg path parsed found files)) h2 in
      follow_root-AgreeAll (root_info env cfg path parsed found files) r h3

abbrev or_result : Result → Option Result → Result
or_result r none = r
or_result r (some t) = t

-- A level that is not followed.
alone-AgreeAll :
    (level : List Info)
    → Distinct (map (λ i. i.store_path) level)
    → (at : Text → Result) × AgreeAll at (forest (attach_all [] level))
unfolding result_map
alone-AgreeAll [] d = (
  λ p.
      result
        (record {
          store_path = [];
          hash = [];
          nar_path = [];
          narinfo_path = [];
          references = [];
          missing_refs = [];
          signed = false;
        })
        nil,
  tt,
)
alone-AgreeAll (i ∷ level) d =
    let results = attach_all [] (i ∷ level) in
    let default = result i (attach [] i.missing_refs) in
    let differ : Distinct (map path_of results) =
      subst Distinct (sym (attach_all-paths [] (i ∷ level))) d in
    (
      λ p. or_result default (lookup p (result_map results)),
      attach_all-EachAll (λ r. or_result default (lookup (path_of r) (result_map results)) ≡ r) []
          (i ∷ level)
          (λ j m. ap (or_result default) (
            lookup-result_map (result j (attach [] j.missing_refs)) results differ
              (attach_all-In j [] (i ∷ level) m)))
          tt,
    )

module _ (fuel : ℕ) (env : Env) (cfg : Config) where
  -- Results of a batch of different paths of one store path are one result.
  pub prepare_batch-AgreeAll :
      (paths : List Text) (results : List Result)
      → Distinct paths
      → prepare_batch fuel env cfg paths ≡ success results
      → (at : Text → Result) × AgreeAll at (forest results)
  unfolding prepare_batch follow_refs
  prepare_batch-AgreeAll paths results d h = elim (Bool-cases cfg.prepare_missing_refs) [
    | inl follows ↦
        let (visited, prepared) = prepare_batch-Prepared fuel env cfg paths results follows h d in
        (prepared.at, prepared.agree)
    | inr alone ↦
        let (level, made, rest) =
          >>=-eq-success (prepare_level env cfg paths) (follow_refs fuel env cfg) h in
        subst (λ rs. (at : Text → Result) × AgreeAll at (forest rs))
          (success-injective (sym (if_false cfg.prepare_missing_refs _ _ alone) ∙ rest))
          (alone-AgreeAll level
            (subst Distinct (sym (prepare_level-paths env cfg paths level made)) d))
  ]

  attach_root-path :
      (i : Info) (missing : List Text) (r : Result)
      → attach_root fuel env cfg i missing ≡ success r
      → path_of r ≡ i.store_path
  unfolding attach_root
  attach_root-path i [] r h = ap path_of (sym (success-injective h))
  attach_root-path i (m ∷ ms) r h =
      let (out, _, made) =
        >>=-eq-success (prepare_refs_recursive fuel env cfg (m ∷ ms) (i.store_path ∷ []))
          (λ out. success (result i (forest out.0))) h in
      ap path_of (sym (success-injective made))

  follow_root-path :
      (i : Info) (r : Result) → follow_root fuel env cfg i ≡ success r → path_of r ≡ i.store_path
  unfolding follow_root
  follow_root-path i r h = elim (Bool-cases cfg.prepare_missing_refs) [
    | inl follows ↦
        attach_root-path i i.missing_refs r (sym (if_true cfg.prepare_missing_refs _ _ follows) ∙ h)
    | inr alone ↦
        ap path_of (sym (success-injective (sym (if_false cfg.prepare_missing_refs _ _ alone) ∙ h)))
  ]

  -- The result of `Prepare` is that of its path.
  pub prepare-path :
      (path : Text) (r : Result) → prepare fuel env cfg path ≡ success r → path_of r ≡ path
  unfolding prepare look_up_root write_root
  prepare-path path r h =
      let (parsed, _, h1) =
        >>=-eq-success (or_fail invalid_path (parse_path path)) (look_up_root fuel env cfg path)
          h in
      let (found, _, h2) =
        >>=-eq-success (or_fail no_path_info (env.get_path_info path))
          (write_root fuel env cfg path parsed) h1 in
      let (files, _, h3) =
        >>=-eq-success (or_fail write_failed (env.write_nar path found))
          (λ files. follow_root fuel env cfg (root_info env cfg path parsed found files)) h2 in
      follow_root-path (root_info env cfg path parsed found files) r h3
