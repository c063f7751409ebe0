-- ===== src/Push/Complete.antt =====
-- `completeReceipts` of pkg/push/complete.go.
pub mod Closed
pub mod Refines
use aeroflare.Base.{
  Bool, true, false, Option, none, some, List, [], ◌∷◌, ◌++◌, if◌then◌else◌, contains, Text, Dict,
  lookup, insert, sort, text_eq,
}
use aeroflare.Prepare.Tree.{Result, Results, result, nil, cons, path_of}
use aeroflare.Backend.{PushReceipt}

-- The map `byPath`, from a store path to the receipt of its upload.
abbrev pub Receipts : Type 0
Receipts = Dict Text PushReceipt

-- The map `memo`.
abbrev pub Memo : Type 0
Memo = Dict Text Bool

abbrev pub is_uploaded : Receipts → Text → Bool
is_uploaded by_path p = elim (lookup p by_path) [ none ↦ false | some _ ↦ true ]

-- A node whose path is in the map is not visited again.
recall : Option Bool → Memo → Bool × Memo → Bool × Memo
recall (some done) memo visited = (done, memo)
recall none memo visited = visited

-- The last write to the map, over the mark of the call that is under way.
record_answer : Text → Bool × Memo → Bool × Memo
record_answer p (ok, memo) = (ok, insert p ok memo)

module _ (by_path : Receipts) where
  -- The closure `complete`: the answer and the map that it leaves.
  unfoldable mutual
    unfolding recall record_answer

    pub complete : Result → Memo → Bool × Memo
    complete (result i refs) memo = recall (lookup i.store_path memo) memo (
        record_answer i.store_path
          (complete_refs refs (is_uploaded by_path i.store_path) (insert i.store_path true memo)))

    pub complete_refs : Results → Bool → Memo → Bool × Memo
    complete_refs nil ok memo = (ok, memo)
    complete_refs (cons r rs) ok memo =
        let (done, memo') = complete r memo in complete_refs rs (if done then ok else false) memo'

-- The maps `seen` and `memo` and the slices that the closure `walk` writes.
pub record Walked : Type 0 where
  pub seen : List Text
  pub memo : Memo
  pub receipts : List PushReceipt
  pub excluded : List Text

module _ (by_path : Receipts) where
  -- What `walk` does with a node before its references.
  unfoldable pub classify : Result → Walked → Walked
  classify r s = elim (lookup (path_of r) by_path) [
    | none ↦ s
    | some receipt ↦
        let (ok, memo) = complete by_path r s.memo in
        if ok
        then record s { memo = memo; receipts = s.receipts ++ receipt ∷ [] }
        else record s { memo = memo; excluded = s.excluded ++ path_of r ∷ [] }
  ]

  unfoldable mutual
    pub walk : Result → Walked → Walked
    walk (result i refs) s =
        let fresh =
          walk_all refs (classify (result i refs) (record s { seen = i.store_path ∷ s.seen })) in
        if contains s.seen i.store_path then s else fresh

    pub walk_all : Results → Walked → Walked
    walk_all nil s = s
    walk_all (cons r rs) s = walk_all rs (walk r s)

  unfoldable pub complete_receipts : Results → List PushReceipt × List Text
  unfolding walk walk_all
  complete_receipts results =
      let s = walk_all results (record { seen = []; memo = []; receipts = []; excluded = [] }) in
      (s.receipts, sort s.excluded)
