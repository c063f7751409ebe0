-- ===== src/Tests/PushTests.antt =====
-- The theorems of Push at concrete results.
use aeroflare.Base.{
  ◌≡◌, refl, inl, inr, true, [], ◌∷◌, if◌then◌else◌, ◌==◌, text_beq, In, contains, Text, lookup,
  insert, text_leb, sort, text_eq,
}
use aeroflare.Push.Complete.{Receipts, is_uploaded, complete, classify, complete_receipts}
use aeroflare.Push.Tasks.{flatten_tasks}
use aeroflare.Prepare.Tree.{Under, AgreeAll, Result, Results, result, nil, cons}
use aeroflare.Push.Complete.Refines.{complete_receipts_lem, indexable, unindexed}
use aeroflare.Tests.{path_a, path_b, path_c, info_of, result_b, result_c, test_receipt}

-- `a` over `b`, which is over `c`; the upload of `c` fails in one run.
abbrev result_a : Result
result_a = result (info_of path_a [] (path_b ∷ [])) (cons result_b nil)

abbrev chain : Results
chain = cons result_a (cons result_c nil)

abbrev at_chain : Text → Result
at_chain p = if p == path_a then result_a else if p == path_b then result_b else result_c

abbrev all_uploaded : Receipts
all_uploaded =
    (path_a, test_receipt path_a)
    ∷ (path_b, test_receipt path_b)
    ∷ (path_c, test_receipt path_c)
    ∷ []

abbrev without_c : Receipts
without_c = (path_a, test_receipt path_a) ∷ (path_b, test_receipt path_b) ∷ []

chain-AgreeAll : AgreeAll at_chain chain
unfolding text_beq
chain-AgreeAll = ((refl, ((refl, ((refl, tt), tt)), tt)), ((refl, tt), tt))

-- Nothing above the failed upload is indexed.
nothing_indexed : complete_receipts without_c chain ≡ ([], path_a ∷ path_b ∷ [])
unfolding complete_receipts contains lookup insert text_beq complete classify sort text_leb
nothing_indexed = refl

complete_receipts_lem_example :
    complete_receipts without_c chain
    ≡ (indexable without_c (flatten_tasks chain), sort (unindexed without_c (flatten_tasks chain)))
complete_receipts_lem_example = complete_receipts_lem without_c at_chain chain chain-AgreeAll

indexed_a : In (test_receipt path_a) (complete_receipts all_uploaded chain).0
unfolding complete_receipts contains lookup insert text_beq complete classify
indexed_a = inl refl

uploaded_below_b : (q : Text) → Under q (at_chain path_b) → is_uploaded all_uploaded q ≡ true
unfolding lookup text_beq
uploaded_below_b q (inl e) = rw e refl
uploaded_below_b q (inr (inl (inl e))) = rw e refl
uploaded_below_b q (inr (inl (inr none_left))) = absurd none_left
uploaded_below_b q (inr (inr none_left)) = absurd none_left
