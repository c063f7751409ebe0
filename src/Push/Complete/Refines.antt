-- ===== src/Push/Complete/Refines.antt =====
-- `completeReceipts` against its specification over the tasks of `flattenTasks`.
use aeroflare.Base.{
  ℕ, ◌≡◌, refl, sym, ap, ◌∙◌, subst, ◌⊎◌, inl, inr, Bool, true, false, none, some, List, [], ◌∷◌,
  ◌++◌, append-nil, arith, if◌then◌else◌, Bool-cases, Option-cases, All, In, In-All, contains, Text,
  lookup, lookup-nil, sort, text_eq,
}
use aeroflare.Push.Tasks.Cover.{flatten_tasks-All, flatten_tasks-UnderAny}
use aeroflare.Push.Complete.Closed.{
  closed, RightBelow, complete-closed, RightBelow-Grows, closed-Under, Under-closed,
}
use aeroflare.Prepare.Tree.{
  Result, path_of, Agrees, AgreeAll, Results, size, result, nil, cons, Under, UnderAny,
  EachAll-UnderAny,
}
use aeroflare.Push.Tasks.{PreparedTask, collect, collect_all, flatten_tasks, Collected, task_paths}
use aeroflare.Backend.{PushReceipt}
use aeroflare.Push.Complete.{
  Receipts, classify, walk, walk_all, complete_receipts, Walked, complete, is_uploaded,
}

module _ (by_path : Receipts) where
  -- The receipts of the tasks whose whole tree is uploaded, in the order of the tasks.
  unfoldable pub indexable : List PreparedTask → List PushReceipt
  indexable [] = []
  indexable (t ∷ ts) = elim (lookup (path_of t.r) by_path) [
    | none ↦ indexable ts
    | some receipt ↦ if closed by_path t.r then receipt ∷ indexable ts else indexable ts
  ]

  -- The paths of the tasks that are uploaded, and whose tree is not.
  unfoldable pub unindexed : List PreparedTask → List Text
  unindexed [] = []
  unindexed (t ∷ ts) = elim (lookup (path_of t.r) by_path) [
    | none ↦ unindexed ts
    | some receipt ↦ if closed by_path t.r then unindexed ts else path_of t.r ∷ unindexed ts
  ]

  indexable-append :
      (ts us : List PreparedTask) → indexable (ts ++ us) ≡ indexable ts ++ indexable us
  unfolding indexable
  indexable-append [] us = refl
  indexable-append (t ∷ ts) us = ground (arith, indexable-append ts us)

  unindexed-append :
      (ts us : List PreparedTask) → unindexed (ts ++ us) ≡ unindexed ts ++ unindexed us
  unfolding unindexed
  unindexed-append [] us = refl
  unindexed-append (t ∷ ts) us = ground (arith, unindexed-append ts us)

  memo-classify :
      (r : Result) (w : Walked) (seen : List Text)
      → ((classify by_path r (record w { seen = seen })).memo ≡ w.memo)
        ⊎ ((classify by_path r (record w { seen = seen })).memo ≡ (complete by_path r w.memo).1)
  unfolding classify
  memo-classify r w seen = ground arith

  module _ (at : Text → Result) where
    -- The walk has done what the collection of tasks says.
    record Follows (w : Walked) (c : Collected) : Type 0 where
      seen : w.seen ≡ c.seen
      receipts : w.receipts ≡ indexable c.tasks
      excluded : w.excluded ≡ unindexed c.tasks
      memo : (n : ℕ) → RightBelow by_path at n w.memo

    classify-Follows :
        (r : Result) (w : Walked) (c : Collected) (b : Bool) (seen seen' : List Text)
        → seen ≡ seen'
        → Agrees at r
        → Follows w c
        → Follows
            (classify by_path r (record w { seen = seen }))
            (record { seen = seen'; tasks = c.tasks ++ record { r = r; is_root = b } ∷ [] })
    unfolding classify indexable unindexed
    classify-Follows r w c b seen seen' same hr f =
        let (answer, grows) = complete-closed by_path at r w.memo hr (f.memo (size r)) in
        let kept = λ (n : ℕ). RightBelow-Grows by_path at n w.memo _ (f.memo n) grows in
        record {
          seen = ground arith;
          receipts =
              rw indexable-append
                (ground (arith, answer, f.receipts, append-nil (indexable c.tasks)));
          excluded =
              rw unindexed-append
                (ground (arith, answer, f.excluded, append-nil (unindexed c.tasks)));
          memo = λ n. elim (memo-classify r w seen) [
            | inl same ↦ rw same (f.memo n)
            | inr grown ↦ rw grown (kept n)
          ];
        }

    mutual
      unfolding walk walk_all collect collect_all

      walk-Follows :
          (r : Result) (b : Bool) (w : Walked) (c : Collected)
          → Agrees at r
          → Follows w c
          → Follows (walk by_path r w) (collect r b c)
      walk-Follows (result i refs) b w c (here, below) f =
          elim (Bool-cases (contains w.seen i.store_path)) [
            | inl old ↦ rw (old, ap (λ s. contains s i.store_path) (sym f.seen) ∙ old) f
            | inr new ↦
                rw (new, ap (λ s. contains s i.store_path) (sym f.seen) ∙ new)
                  (walk_all-Follows refs false _ _ below (
                    classify-Follows (result i refs) w c b (i.store_path ∷ w.seen)
                      (i.store_path ∷ c.seen) (ap (λ s. i.store_path ∷ s) f.seen) (here, below) f))
          ]

      walk_all-Follows :
          (rs : Results) (b : Bool) (w : Walked) (c : Collected)
          → AgreeAll at rs
          → Follows w c
          → Follows (walk_all by_path rs w) (collect_all rs b c)
      walk_all-Follows nil b w c h f = f
      walk_all-Follows (cons r rs) b w c (hr, hrs) f =
          walk_all-Follows rs b (walk by_path r w) (collect r b c) hrs (walk-Follows r b w c hr f)

    -- The receipts are those of the tasks whose whole tree is uploaded.
    pub complete_receipts_lem :
        (results : Results)
        → AgreeAll at results
        → complete_receipts by_path results
          ≡ (indexable (flatten_tasks results), sort (unindexed (flatten_tasks results)))
    unfolding complete_receipts flatten_tasks indexable unindexed
    complete_receipts_lem results h =
        let f =
          walk_all-Follows results true
            (record { seen = []; memo = []; receipts = []; excluded = [] })
            (record { seen = []; tasks = [] }) h
            (record {
              seen = refl;
              receipts = refl;
              excluded = refl;
              memo = λ n p v k. absurd (cc (k, lookup-nil {V = Bool} p));
            }) in
        cc (f.receipts, f.excluded)

module _ (by_path : Receipts) (at : Text → Result) where
  indexable_skip :
      (t : PreparedTask) (ts : List PreparedTask)
      → lookup (path_of t.r) by_path ≡ none
      → indexable by_path (t ∷ ts) ≡ indexable by_path ts
  unfolding indexable
  indexable_skip t ts e = ground (arith, e)

  indexable_open :
      (t : PreparedTask) (ts : List PreparedTask) (receipt : PushReceipt)
      → lookup (path_of t.r) by_path ≡ some receipt
      → closed by_path t.r ≡ false
      → indexable by_path (t ∷ ts) ≡ indexable by_path ts
  unfolding indexable
  indexable_open t ts receipt e c = ground (arith, e, c)

  indexable_whole :
      (t : PreparedTask) (ts : List PreparedTask) (receipt : PushReceipt)
      → lookup (path_of t.r) by_path ≡ some receipt
      → closed by_path t.r ≡ true
      → indexable by_path (t ∷ ts) ≡ receipt ∷ indexable by_path ts
  unfolding indexable
  indexable_whole t ts receipt e c = ground (arith, e, c)

  -- A task whose tree is uploaded, with its receipt.
  abbrev Whole : PushReceipt → List PreparedTask → Type 0
  Whole receipt ts =
      (t : PreparedTask) × In t ts
      × (lookup (path_of t.r) by_path ≡ some receipt)
      × (closed by_path t.r ≡ true)

  later :
      (u : PreparedTask) (receipt : PushReceipt) (ts : List PreparedTask)
      → Whole receipt ts
      → Whole receipt (u ∷ ts)
  later u receipt ts (t, m, hit, whole) = (t, inr m, hit, whole)

  indexable-In :
      (receipt : PushReceipt) (ts : List PreparedTask)
      → In receipt (indexable by_path ts)
      → (t : PreparedTask) × In t ts
        × (lookup (path_of t.r) by_path ≡ some receipt)
        × (closed by_path t.r ≡ true)
  unfolding indexable
  indexable-In receipt [] h = absurd h
  indexable-In receipt (t ∷ ts) h = elim (Option-cases (lookup (path_of t.r) by_path)) [
    | inl miss ↦ later t receipt ts (indexable-In receipt ts (rw (indexable_skip t ts miss) at h))
    | inr (found, hit) ↦ elim (Bool-cases (closed by_path t.r)) [
      | inr open_below ↦
          later t receipt ts
            (indexable-In receipt ts (rw (indexable_open t ts found hit open_below) at h))
      | inl whole ↦ elim (rw (indexable_whole t ts found hit whole) at h) [
        | inl e ↦ (t, inl refl, rw e hit, whole)
        | inr h' ↦ later t receipt ts (indexable-In receipt ts h')
      ]
    ]
  ]

  widen :
      (t : PreparedTask) (receipt : PushReceipt) (ts : List PreparedTask)
      → In receipt (indexable by_path ts)
      → In receipt (indexable by_path (t ∷ ts))
  widen t receipt ts h = elim (Option-cases (lookup (path_of t.r) by_path)) [
    | inl miss ↦ rw (indexable_skip t ts miss) h
    | inr (found, hit) ↦ elim (Bool-cases (closed by_path t.r)) [
      | inr open_below ↦ rw (indexable_open t ts found hit open_below) h
      | inl whole ↦ rw (indexable_whole t ts found hit whole) (inr h)
    ]
  ]

  In-indexable :
      (receipt : PushReceipt) (p : Text) (ts : List PreparedTask)
      → In p (task_paths ts)
      → lookup p by_path ≡ some receipt
      → All (λ t. at (path_of t.r) ≡ t.r) ts
      → closed by_path (at p) ≡ true
      → In receipt (indexable by_path ts)
  In-indexable receipt p [] h hit _ whole = absurd h
  In-indexable receipt p (t ∷ ts) h hit (own, owns) whole = elim h [
    | inl e ↦
        rw (indexable_whole t ts receipt (rw (← e) hit) (rw (sym own ∙ ap at (sym e)) whole))
          (inl refl)
    | inr h' ↦ widen t receipt ts (In-indexable receipt p ts h' hit owns whole)
  ]

  -- An indexed receipt is that of a task.
  pub complete_receipts_task :
      (results : Results) (receipt : PushReceipt)
      → AgreeAll at results
      → In receipt (complete_receipts by_path results).0
      → (t : PreparedTask) × In t (flatten_tasks results)
        × (lookup (path_of t.r) by_path ≡ some receipt)
        × ((q : Text) → Under q t.r → is_uploaded by_path q ≡ true)
  complete_receipts_task results receipt agree h =
      let (t, task, hit, whole) =
        indexable-In receipt (flatten_tasks results)
          (subst (λ out. In receipt out.0) (complete_receipts_lem by_path at results agree) h) in
      (t, task, hit, λ q u. closed-Under by_path q t.r whole u)

  -- An indexed receipt is that of a node of the forest under which every path is uploaded.
  pub complete_receipts_sound :
      (results : Results) (receipt : PushReceipt)
      → AgreeAll at results
      → In receipt (complete_receipts by_path results).0
      → (r : Result) × UnderAny (path_of r) results
        × (lookup (path_of r) by_path ≡ some receipt)
        × ((q : Text) → Under q r → is_uploaded by_path q ≡ true)
  complete_receipts_sound results receipt agree h =
      let (t, task, hit, whole) = complete_receipts_task results receipt agree h in
      let nodes =
        flatten_tasks-All (λ r. UnderAny (path_of r) results) results
          (EachAll-UnderAny (λ p. UnderAny p results) results (λ p u. u)) in
      (
        t.r,
        In-All (λ u. UnderAny (path_of u.r) results) t (flatten_tasks results) nodes task,
        hit,
        whole,
      )

  -- A node that is uploaded, and under which every path is uploaded, is indexed.
  pub complete_receipts_complete :
      (results : Results) (receipt : PushReceipt) (p : Text)
      → AgreeAll at results
      → UnderAny p results
      → lookup p by_path ≡ some receipt
      → ((q : Text) → Under q (at p) → is_uploaded by_path q ≡ true)
      → In receipt (complete_receipts by_path results).0
  complete_receipts_complete results receipt p agree u hit uploaded =
      rw (complete_receipts_lem by_path at results agree) (
        In-indexable receipt p (flatten_tasks results) (flatten_tasks-UnderAny at results p agree u)
          hit (flatten_tasks-All (λ r. at (path_of r) ≡ r) results agree)
          (Under-closed by_path (at p) uploaded))
