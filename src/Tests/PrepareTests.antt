-- ===== src/Tests/PrepareTests.antt =====
-- The theorems of Prepare at concrete batches.
use aeroflare.Base.{
  ◌≡◌, refl, sym, subst, ◌≢◌, inl, inr, some, List, [], ◌∷◌, arith, text_beq, All, In,
  In-append_left, In-All, contains, Text, lookup, insert, Outcome, success, failure, text_eq,
}
use aeroflare.Prepare.Store.{PathInfo}
use aeroflare.Prepare.Refs.Terminates.{unvisited, IsUniverse, prepare_refs_recursive-Ends}
use aeroflare.Prepare.Batch.Roots.{prepare_batch_roots}
use aeroflare.Prepare.Refs.Covered.{prepare_refs_recursive-Prepared}
use aeroflare.Prepare.Refs.Visited.{Prepared}
use aeroflare.Prepare.Tree.{missing_ref_results, UnderAny, Result, result, nil}
use aeroflare.Prepare.Refs.{prepare_refs_recursive, PrepareError, out_of_fuel, compute_missing_refs}
use aeroflare.Prepare.Batch.{prepare_batch}
use mathlib.Core.Option.{some-injective}
use aeroflare.Tests.{
  three_paths, follow, path_a, path_b, path_c, batch_results, info_of, result_b, three_infos,
}

abbrev found_below : Outcome PrepareError (List Result × List Text)
found_below = success (result_b ∷ [], path_c ∷ path_b ∷ path_a ∷ [])

below_a : prepare_refs_recursive 5 three_paths follow (path_b ∷ []) (path_a ∷ []) ≡ found_below
unfolding prepare_refs_recursive compute_missing_refs contains lookup insert text_beq
below_a = refl

whole_batch : prepare_batch 5 three_paths follow (path_a ∷ path_b ∷ []) ≡ success batch_results
unfolding prepare_batch compute_missing_refs contains lookup insert text_beq
whole_batch = refl

prepare_refs_recursive-Prepared_example :
    Prepared (path_b ∷ []) (path_a ∷ []) (result_b ∷ []) (path_c ∷ path_b ∷ path_a ∷ [])
prepare_refs_recursive-Prepared_example =
    prepare_refs_recursive-Prepared 5 three_paths follow (path_b ∷ []) (path_a ∷ []) (result_b ∷ [])
      (path_c ∷ path_b ∷ path_a ∷ []) below_a

prepare_batch_roots_example :
    ¬ UnderAny path_b (missing_ref_results (result (info_of path_a [] (path_b ∷ [])) nil))
prepare_batch_roots_example =
    prepare_batch_roots 5 three_paths follow (path_a ∷ path_b ∷ []) batch_results refl whole_batch
      (result (info_of path_a [] (path_b ∷ [])) nil) path_b (inl refl) (inr (inl refl))

abbrev universe : List Text
universe = path_a ∷ path_b ∷ path_c ∷ []

references_inside :
    (known : PathInfo) (found : PathInfo)
    → some known ≡ some found
    → All (λ q. In q universe) known.references
    → (q : Text) → In q found.references
    → In q universe
references_inside known found e inside q m =
    In-All (λ q. In q universe) q known.references inside
      (subst (λ f. In q f.references) (sym (some-injective known found e)) m)

three_paths-IsUniverse : IsUniverse three_paths universe
unfolding text_beq
three_paths-IsUniverse p found (inl e) h =
    references_inside _ found (subst (λ q. three_infos q ≡ some found) e h) (inr (inl refl), tt)
three_paths-IsUniverse p found (inr (inl e)) h =
    references_inside _ found (subst (λ q. three_infos q ≡ some found) e h)
      (inr (inl refl), (inr (inr (inl refl)), tt))
three_paths-IsUniverse p found (inr (inr (inl e))) h =
    references_inside _ found (subst (λ q. three_infos q ≡ some found) e h) tt
three_paths-IsUniverse p found (inr (inr (inr none_left))) h = absurd none_left

prepare_refs_recursive-Ends_example :
    prepare_refs_recursive 4 three_paths follow (path_b ∷ []) (path_a ∷ []) ≢ failure out_of_fuel
unfolding unvisited contains text_beq
prepare_refs_recursive-Ends_example =
    prepare_refs_recursive-Ends 4 three_paths follow universe (path_b ∷ []) (path_a ∷ [])
      three_paths-IsUniverse (λ p m. inr (In-append_left p (path_b ∷ []) (path_c ∷ []) m))
      (omega arith)
