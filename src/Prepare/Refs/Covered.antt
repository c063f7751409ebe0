-- ===== src/Prepare/Refs/Covered.antt =====
-- `prepareRefsRecursive` prepares every path that it visits, once.
use aeroflare.Base.{
  ℕ, zero, suc, ◌≡◌, refl, sym, ap, ◌∙◌, subst, inl, inr, false, Option, none, some, List, [], ◌∷◌,
  map, Option-cases, In, Distinct, All-of_In, In-map, Text, lookup, >>=-eq-success,
  success-injective, Outcome, success, text_eq,
}
use aeroflare.Prepare.Refs.{
  all_missing, result_map, attach, attach_all, visit_new, prepare_level, attach_level,
  prepare_missing, prepare_new, prepare_refs_recursive, Config, Env, PrepareError,
}
use aeroflare.Prepare.Tree.{
  Result, path_of, UnderAny, EachAll, AgreeAll, forest, EachAll-both, UnderAny-forest,
  forest-UnderAny, Info, result, nil,
}
use aeroflare.Prepare.Refs.Parts.{
  VisitsNew, all_missing-In, In-all_missing, lookup-result_map, result_map-In, visit_new_lem,
  prepare_level-paths,
}
use aeroflare.Prepare.Refs.Visited.{
  Prepared, IsCovered, attach-UnderAny, attach_all-paths, attach_all-In, attach_all-EachAll,
  In-paths,
}

module _ (refs visited new visited₁ visited₂ : List Text) (level : List Info) (sub : List Result)
    (v : VisitsNew refs visited new visited₁) (paths : map (λ i. i.store_path) level ≡ new)
    (below : Prepared (all_missing level []) visited₁ sub visited₂) where
  abbrev level_results : List Result
  level_results = attach_all (result_map sub) level

  result_paths : map path_of level_results ≡ new
  result_paths = attach_all-paths (result_map sub) level ∙ paths

  new_path : (i : Info) → In i level → In i.store_path new
  new_path i m = subst (λ ps. In i.store_path ps) paths (In-map (λ j. j.store_path) i level m)

  missing_done :
      (i : Info) → In i level → (p : Text) → In p i.missing_refs → In p (all_missing level [])
  missing_done i m p h = elim (all_missing-In p i level [] m h) [
    | inl none_seen ↦ absurd none_seen
    | inr found ↦ found
  ]

  level_reached : (p : Text) → In p new → UnderAny p (forest level_results)
  level_reached p h =
      let (i, m, e) = In-paths p level (subst (λ ps. In p ps) (sym paths) h) in
      forest-UnderAny p (result i (attach (result_map sub) i.missing_refs)) level_results
        (attach_all-In i (result_map sub) level m) (inl e)

  sub_reached : (p : Text) → UnderAny p (forest sub) → UnderAny p (forest level_results)
  sub_reached p u =
      let (t, m, below_t) = UnderAny-forest p sub u in
      let (i, mi, missing) = In-all_missing (path_of t) level [] (below.asked t m) in
      forest-UnderAny p (result i (attach (result_map sub) i.missing_refs)) level_results
        (attach_all-In i (result_map sub) level mi)
        (inr (attach-UnderAny t p sub i.missing_refs below.distinct m missing below_t))

  level-IsCovered : EachAll (IsCovered visited visited₂) (forest level_results)
  level-IsCovered =
      attach_all-EachAll (IsCovered visited visited₂) sub level
        (λ i m. (
          below.grown i.store_path (v.added i.store_path (new_path i m)),
          v.fresh i.store_path (new_path i m),
          All-of_In (λ p. In p visited₂) i.missing_refs
              (λ p h. below.done p (missing_done i m p h)),
        ))
        (EachAll-both (IsCovered visited₁ visited₂) (IsCovered visited₁ visited₂)
          (IsCovered visited visited₂) (λ r c _. (c.0, λ old. c.1 (v.grown (path_of r) old), c.2))
          (forest sub) below.covered below.covered)

  -- The result of a path: one of this level, or one below it.
  choose : Text → Option Result → Result
  choose p none = below.at p
  choose p (some r) = r

  results-Distinct : Distinct (map path_of level_results)
  results-Distinct = subst Distinct (sym result_paths) v.distinct

  lookup_below :
      (r : Result)
      → ¬ In (path_of r) visited₁
      → ◌≡◌ {A = Option Result} (lookup (path_of r) (result_map level_results)) none
  lookup_below r unseen = elim (Option-cases (lookup (path_of r) (result_map level_results))) [
    | inl miss ↦ miss
    | inr (s, hit) ↦
        let (e, m) = result_map-In (path_of r) s level_results hit in
        absurd (
          unseen (
            v.added (path_of r) (
              subst (λ ps. In (path_of r) ps) result_paths
                (subst (λ q. In q (map path_of level_results)) e
                  (In-map path_of s level_results m)))))
  ]

  level_agree :
      AgreeAll (λ p. choose p (lookup p (result_map level_results))) (forest level_results)
  unfolding choose
  level_agree =
      attach_all-EachAll
        (λ r. choose (path_of r) (lookup (path_of r) (result_map level_results)) ≡ r) sub level
        (λ i m. ap (choose i.store_path) (
          lookup-result_map (result i (attach (result_map sub) i.missing_refs)) level_results
            results-Distinct (attach_all-In i (result_map sub) level m)))
        (EachAll-both (IsCovered visited₁ visited₂) (λ r. below.at (path_of r) ≡ r)
          (λ r. choose (path_of r) (lookup (path_of r) (result_map level_results)) ≡ r)
          (λ r c e. ap (choose (path_of r)) (lookup_below r c.1) ∙ e) (forest sub) below.covered
          below.agree)

  pub level_Prepared : Prepared refs visited level_results visited₂
  level_Prepared = record {
    distinct = results-Distinct;
    asked = λ r m.
        v.asked (path_of r)
          (subst (λ ps. In (path_of r) ps) result_paths (In-map path_of r level_results m));
    done = λ p h. below.grown p (v.done p h);
    grown = λ p h. below.grown p (v.grown p h);
    reached = λ p h. elim (below.reached p h) [
      | inr u ↦ inr (sub_reached p u)
      | inl h₁ ↦ elim (v.origin p h₁) [
        | inl old ↦ inl old
        | inr fresh ↦ inr (level_reached p fresh)
      ]
    ];
    covered = level-IsCovered;
    at = λ p. choose p (lookup p (result_map level_results));
    agree = level_agree;
  }

nothing_Prepared :
    (refs visited visited₁ : List Text)
    → VisitsNew refs visited [] visited₁
    → Prepared refs visited [] visited₁
nothing_Prepared refs visited visited₁ v = record {
  distinct = tt;
  asked = λ r m. absurd m;
  done = v.done;
  grown = v.grown;
  reached = λ p h. elim (v.origin p h) [ inl old ↦ inl old | inr none_new ↦ absurd none_new ];
  covered = tt;
  at = λ p.
      result
        (record {
          store_path = p;
          hash = [];
          nar_path = [];
          narinfo_path = [];
          references = [];
          missing_refs = [];
          signed = false;
        })
        nil;
  agree = tt;
}

-- No missing reference: the level has no results below it.
pub nothing_below : (visited : List Text) → Prepared [] visited [] visited
unfolding visit_new
nothing_below visited = nothing_Prepared [] visited visited (visit_new_lem [] visited)

abbrev Recursion : Type 0
Recursion = List Text → List Text → Outcome PrepareError (List Result × List Text)

abbrev IsSound : Recursion → Type 0
IsSound recurse =
    (refs visited : List Text) (results : List Result) (visited' : List Text)
    → recurse refs visited ≡ success (results, visited')
    → Prepared refs visited results visited'

prepare_missing-Prepared :
    (recurse : Recursion) (refs visited new visited₁ : List Text) (level : List Info)
    (missing : List Text) (results : List Result) (visited' : List Text)
    → IsSound recurse
    → VisitsNew refs visited new visited₁
    → map (λ i. i.store_path) level ≡ new
    → all_missing level [] ≡ missing
    → prepare_missing recurse level visited₁ missing ≡ success (results, visited')
    → Prepared refs visited results visited'
unfolding prepare_missing attach_level
prepare_missing-Prepared recurse refs visited new visited₁ level [] results visited' sound v paths
      found h =
    let same = success-injective h in
    subst (λ out. Prepared refs visited out.0 out.1) same
      (level_Prepared refs visited new visited₁ visited₁ level [] v paths
        (subst (λ ms. Prepared ms visited₁ [] visited₁) (sym found) (nothing_below visited₁)))
prepare_missing-Prepared recurse refs visited new visited₁ level (m ∷ ms) results visited' sound v
      paths found h =
    let (out, called, rest) = >>=-eq-success (recurse (m ∷ ms) visited₁) (attach_level level) h in
    let same = success-injective rest in
    subst (λ o. Prepared refs visited o.0 o.1) same
      (level_Prepared refs visited new visited₁ out.1 level out.0 v paths (
        subst (λ ms'. Prepared ms' visited₁ out.0 out.1) (sym found)
          (sound (m ∷ ms) visited₁ out.0 out.1 called)))

prepare_new-Prepared :
    (recurse : Recursion) (env : Env) (cfg : Config) (refs visited new visited₁ : List Text)
    (results : List Result) (visited' : List Text)
    → IsSound recurse
    → VisitsNew refs visited new visited₁
    → prepare_new recurse env cfg (new, visited₁) ≡ success (results, visited')
    → Prepared refs visited results visited'
unfolding prepare_new
prepare_new-Prepared recurse env cfg refs visited [] visited₁ results visited' sound v h =
    subst (λ o. Prepared refs visited o.0 o.1) (success-injective h)
      (nothing_Prepared refs visited visited₁ v)
prepare_new-Prepared recurse env cfg refs visited (p ∷ ps) visited₁ results visited' sound v h =
    let (level, prepared, rest) =
      >>=-eq-success (prepare_level env cfg (p ∷ ps))
        (λ level. prepare_missing recurse level visited₁ (all_missing level [])) h in
    prepare_missing-Prepared recurse refs visited (p ∷ ps) visited₁ level (all_missing level [])
      results visited' sound v (prepare_level-paths env cfg (p ∷ ps) level prepared) refl rest

-- When `prepareRefsRecursive` returns results, it has visited what was asked for, every path that
-- it visited newly has one result, and the missing references of every result are visited.
pub prepare_refs_recursive-Prepared :
    (fuel : ℕ) (env : Env) (cfg : Config) (refs visited : List Text) (results : List Result)
    (visited' : List Text)
    → prepare_refs_recursive fuel env cfg refs visited ≡ success (results, visited')
    → Prepared refs visited results visited'
unfolding prepare_refs_recursive
prepare_refs_recursive-Prepared zero env cfg refs visited results visited' h = absurd (cc h)
prepare_refs_recursive-Prepared (suc fuel) env cfg refs visited results visited' h =
    prepare_new-Prepared (prepare_refs_recursive fuel env cfg) env cfg refs visited
      (visit_new refs visited).0 (visit_new refs visited).1 results visited'
      (prepare_refs_recursive-Prepared fuel env cfg) (visit_new_lem refs visited) h
