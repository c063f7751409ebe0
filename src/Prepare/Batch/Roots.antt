-- ===== src/Prepare/Batch/Roots.antt =====
-- The results of a batch: they are prepared once each, and the roots stand under no other root.
use aeroflare.Base.{
  ℕ, ◌≡◌, refl, sym, ap, ◌∙◌, subst, inr, true, List, [], ◌∷◌, map, if_true, In, Distinct, Text,
  >>=-eq-success, success-injective, success, text_eq,
}
use aeroflare.Prepare.Refs.Covered.{level_Prepared, nothing_below, prepare_refs_recursive-Prepared}
use aeroflare.Prepare.Refs.Visited.{
  attach_all-paths, IsCovered, attach-EachAll, In-attach_all, Prepared,
}
use aeroflare.Prepare.Batch.{prepare_batch, follow_refs}
use aeroflare.Prepare.Tree.{
  Result, missing_ref_results, path_of, UnderAny, forest, EachAll-both, UnderAny-EachAll, Info,
}
use aeroflare.Prepare.Refs.{
  Env, all_missing, result_map, attach, attach_all, prepare_level, attach_level, prepare_missing,
  prepare_refs_recursive, Config,
}
use aeroflare.Prepare.Refs.Parts.{VisitsNew, prepare_level-paths}

-- Paths of a batch that differ are all new.
batch_VisitsNew : (paths : List Text) → Distinct paths → VisitsNew paths [] paths paths
batch_VisitsNew paths d = record {
  distinct = d;
  fresh = λ p h old. old;
  asked = λ p h. h;
  grown = λ p h. absurd h;
  added = λ p h. h;
  origin = λ p h. inr h;
  done = λ p h. h;
}

-- What a batch is made of.
record Batch (paths : List Text) (results : List Result) : Type 0 where
  level : List Info
  sub : List Result
  visited : List Text
  level_paths : map (λ i. i.store_path) level ≡ paths
  below : Prepared (all_missing level []) paths sub visited
  made : results ≡ attach_all (result_map sub) level

prepare_missing_parts :
    (fuel : ℕ) (env : Env) (cfg : Config) (level : List Info) (paths missing : List Text)
    (results : List Result) (visited : List Text)
    → map (λ i. i.store_path) level ≡ paths
    → all_missing level [] ≡ missing
    → prepare_missing (prepare_refs_recursive fuel env cfg) level paths missing
      ≡ success (results, visited)
    → Batch paths results
unfolding prepare_missing attach_level
prepare_missing_parts fuel env cfg level paths [] results visited ps none_missing h = record {
  level = level;
  sub = [];
  visited = paths;
  level_paths = ps;
  below = subst (λ ms. Prepared ms paths [] paths) (sym none_missing) (nothing_below paths);
  made = ap (λ o. o.0) (sym (success-injective h));
}
prepare_missing_parts fuel env cfg level paths (m ∷ ms) results visited ps missing h =
    let (out, called, rest) =
      >>=-eq-success (prepare_refs_recursive fuel env cfg (m ∷ ms) paths) (attach_level level) h in
    record {
      level = level;
      sub = out.0;
      visited = out.1;
      level_paths = ps;
      below =
          subst (λ ms'. Prepared ms' paths out.0 out.1) (sym missing)
            (prepare_refs_recursive-Prepared fuel env cfg (m ∷ ms) paths out.0 out.1 called);
      made = ap (λ o. o.0) (sym (success-injective rest));
    }

module _ (fuel : ℕ) (env : Env) (cfg : Config) (paths : List Text) (results : List Result)
    (follows : cfg.prepare_missing_refs ≡ true)
    (returned : prepare_batch fuel env cfg paths ≡ success results) where
  parts-Batch : Batch paths results
  unfolding prepare_batch follow_refs
  parts-Batch =
      let (level, prepared, h) =
        >>=-eq-success (prepare_level env cfg paths) (follow_refs fuel env cfg) returned in
      let ps = prepare_level-paths env cfg paths level prepared in
      let (out, called, rest) =
        >>=-eq-success
          (prepare_missing (prepare_refs_recursive fuel env cfg) level
            (map (λ i. i.store_path) level) (all_missing level []))
          (λ out. success out.0) (sym (if_true cfg.prepare_missing_refs _ _ follows) ∙ h) in
      subst (Batch paths) (success-injective rest) (
        prepare_missing_parts fuel env cfg level paths (all_missing level []) out.0 out.1 ps refl (
          subst
            (λ qs.
              prepare_missing (prepare_refs_recursive fuel env cfg) level qs (all_missing level [])
              ≡ success out)
            ps called))

  -- A batch of different paths has one result for each path that is reached, and the missing
  -- references of each are reached.
  pub prepare_batch-Prepared :
      Distinct paths → (visited : List Text) × Prepared paths [] results visited
  prepare_batch-Prepared d =
      let b = parts-Batch in
      (
        b.visited,
        subst (λ rs. Prepared paths [] rs b.visited) (sym b.made)
            (level_Prepared paths [] paths paths b.visited b.level b.sub (batch_VisitsNew paths d)
              b.level_paths b.below),
      )

  -- No root of the batch stands under another: a root that another root refers to is left out of
  -- the tree of the one that refers to it.
  pub prepare_batch_roots :
      (r : Result) (p : Text) → In r results → In p paths → ¬ UnderAny p (missing_ref_results r)
  prepare_batch_roots r p m root u =
      let b = parts-Batch in
      let (i, _, e) = In-attach_all r (result_map b.sub) b.level (subst (In r) b.made m) in
      UnderAny-EachAll (λ q. ¬ In q paths) p (attach (result_map b.sub) i.missing_refs)
        (attach-EachAll (λ n. ¬ In (path_of n) paths) b.sub i.missing_refs
          (EachAll-both (IsCovered paths b.visited) (IsCovered paths b.visited)
            (λ n. ¬ In (path_of n) paths) (λ n c _. c.1) (forest b.sub) b.below.covered
            b.below.covered))
        (subst (λ t. UnderAny p (missing_ref_results t)) e u) root

  -- The results are those of the paths of the batch, in their order.
  pub prepare_batch-paths : map path_of results ≡ paths
  prepare_batch-paths =
      let b = parts-Batch in
      ap (map path_of) b.made ∙ attach_all-paths (result_map b.sub) b.level ∙ b.level_paths
