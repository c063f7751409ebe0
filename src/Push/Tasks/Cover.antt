-- ===== src/Push/Tasks/Cover.antt =====
-- `flattenTasks`: which results become tasks, and how often.
use aeroflare.Base.{
  ℕ, ◌≤◌, ◌≡◌, ap, ◌∙◌, subst, ◌⊎◌, inl, inr, Bool, true, false, List, [], ◌∷◌, map-append, arith,
  le_refl, Bool-cases, All, All-append, In, Distinct, In-append_left, In-append_right, In-append,
  Distinct-append_one, contains, In-of_contains, not-In_of_contains, Text, text_eq,
}
use aeroflare.Prepare.Tree.{
  Result, path_of, size, size_all, Under, UnderAny, Agrees, AgreeAll, Results, result, nil, cons,
  Info, Each, EachAll,
}
use aeroflare.Push.Tasks.{
  PreparedTask, Collected, collect, collect_all, task_paths, flatten_tasks, push_task,
}

-- The paths of the tasks are the paths seen, each once.
record Matches (s : Collected) : Type 0 where
  distinct : Distinct (task_paths s.tasks)
  is_seen : (p : Text) → In p (task_paths s.tasks) → In p s.seen
  is_task : (p : Text) → In p s.seen → In p (task_paths s.tasks)

push_task-Matches :
    (r : Result) (b : Bool) (s : Collected)
    → ¬ In (path_of r) s.seen
    → Matches s
    → Matches (push_task r b s)
push_task-Matches r b s fresh m =
    let parts =
      map-append (λ (t : PreparedTask). path_of t.r) s.tasks (record { r = r; is_root = b } ∷ []) in
    record {
      distinct = rw parts (Distinct-append_one _ _ m.distinct (λ h. fresh (m.is_seen _ h)));
      is_seen = λ p h. elim (In-append p (task_paths s.tasks) (path_of r ∷ []) (rw parts at h)) [
        | inl old ↦ inr (m.is_seen p old)
        | inr (inl e) ↦ inl e
        | inr (inr none_left) ↦ absurd none_left
      ];
      is_task = λ p h. elim h [
        | inl e ↦ rw parts (In-append_right p (task_paths s.tasks) (path_of r ∷ []) (inl e))
        | inr old ↦
            rw parts (In-append_left p (task_paths s.tasks) (path_of r ∷ []) (m.is_task p old))
      ];
    }

mutual
  unfolding collect collect_all

  collect-Matches : (r : Result) (b : Bool) (s : Collected) → Matches s → Matches (collect r b s)
  collect-Matches (result i refs) b s m = elim (Bool-cases (contains s.seen i.store_path)) [
    | inl old ↦ rw old m
    | inr new ↦ rw new (
        collect_all-Matches refs false _
          (push_task-Matches (result i refs) b s (not-In_of_contains s.seen i.store_path new) m))
  ]

  collect_all-Matches :
      (rs : Results) (b : Bool) (s : Collected) → Matches s → Matches (collect_all rs b s)
  collect_all-Matches nil b s m = m
  collect_all-Matches (cons r rs) b s m = collect_all-Matches rs b _ (collect-Matches r b s m)

module _ (at : Text → Result) where
  -- Nodes of at most `n` descendants that are seen have all their nodes seen.
  abbrev FullBelow : ℕ → List Text → Type 0
  FullBelow n seen = (p q : Text) → In p seen → size (at p) ≤ n → Under q (at p) → In q seen

  -- What a call adds to the paths seen, it adds with all their nodes.
  record Adds (seen seen' : List Text) : Type 0 where
    keeps : (p : Text) → In p seen → In p seen'
    fills : (p : Text) → In p seen' → In p seen ⊎ ((q : Text) → Under q (at p) → In q seen')

  Adds-refl : (s : List Text) → Adds s s
  Adds-refl s = record { keeps = λ p h. h; fills = λ p h. inl h }

  Adds-trans : (s s' s'' : List Text) → Adds s s' → Adds s' s'' → Adds s s''
  Adds-trans s s' s'' a a' = record {
    keeps = λ p h. a'.keeps p (a.keeps p h);
    fills = λ p h. elim (a'.fills p h) [
      | inr full ↦ inr full
      | inl old ↦ elim (a.fills p old) [
        | inl older ↦ inl older
        | inr full ↦ inr (λ q u. a'.keeps q (full q u))
      ]
    ];
  }

  FullBelow-Adds : (n : ℕ) (s s' : List Text) → FullBelow n s → Adds s s' → FullBelow n s'
  FullBelow-Adds n s s' full a p q h small u = elim (a.fills p h) [
    | inl old ↦ a.keeps q (full p q old small u)
    | inr all_in ↦ all_in q u
  ]

  -- A call sees every node, and adds full nodes only.
  record Visits (reached : Text → Type 0) (seen seen' : List Text) : Type 0 where
    adds : Adds seen seen'
    reaches : (p : Text) → reached p → In p seen'

  push_task-FullBelow :
      (i : Info) (refs : Results) (b : Bool) (s : Collected)
      → at i.store_path ≡ result i refs
      → FullBelow (size (result i refs)) s.seen
      → FullBelow (size_all refs) (push_task (result i refs) b s).seen
  unfolding size size_all
  push_task-FullBelow i refs b s here full p q (inl e) small u =
      absurd (let own = ap size (ap at e ∙ here) in omega arith)
  push_task-FullBelow i refs b s here full p q (inr h) small u = inr (full p q h (omega arith) u)

  visit_fresh :
      (i : Info) (refs : Results) (b : Bool) (s : Collected) (seen' : List Text)
      → at i.store_path ≡ result i refs
      → Visits (λ p. UnderAny p refs) (push_task (result i refs) b s).seen seen'
      → Visits (λ p. Under p (result i refs)) s.seen seen'
  visit_fresh i refs b s seen' here v =
      let reach : (q : Text) → Under q (result i refs) → In q seen' =
        λ q u. elim u [ inl e ↦ v.adds.keeps q (inl e) | inr below ↦ v.reaches q below ] in
      record {
        adds = record {
          keeps = λ p h. v.adds.keeps p (inr h);
          fills = λ p h. elim (v.adds.fills p h) [
            | inr full ↦ inr full
            | inl (inr old) ↦ inl old
            | inl (inl e) ↦ inr (λ q u. reach q (subst (λ t. Under q t) (ap at e ∙ here) u))
          ];
        };
        reaches = reach;
      }

  mutual
    unfolding collect collect_all size size_all

    collect-Visits :
        (r : Result) (b : Bool) (s : Collected)
        → Agrees at r
        → FullBelow (size r) s.seen
        → Visits (λ p. Under p r) s.seen (collect r b s).seen
    collect-Visits (result i refs) b s (here, below) full =
        elim (Bool-cases (contains s.seen i.store_path)) [
          | inl old ↦ rw old (record {
            adds = Adds-refl s.seen;
            reaches = λ q u.
                full i.store_path q (In-of_contains s.seen i.store_path old) (rw here (le_refl _))
                  (rw here u);
          })
          | inr new ↦ rw new (
              visit_fresh i refs b s _ here (
                collect_all-Visits refs (size_all refs) false (push_task (result i refs) b s) below
                  (le_refl _) (push_task-FullBelow i refs b s here full)))
        ]

    collect_all-Visits :
        (rs : Results) (n : ℕ) (b : Bool) (s : Collected)
        → AgreeAll at rs
        → size_all rs ≤ n
        → FullBelow n s.seen
        → Visits (λ p. UnderAny p rs) s.seen (collect_all rs b s).seen
    collect_all-Visits nil n b s _ _ full = record {
      adds = Adds-refl s.seen;
      reaches = λ p h. absurd h;
    }
    collect_all-Visits (cons r rs) n b s (hr, hrs) small full =
        let first = collect-Visits r b s hr (λ p q h le u. full p q h (omega arith) u) in
        let rest =
          collect_all-Visits rs n b (collect r b s) hrs (omega arith)
            (FullBelow-Adds n s.seen (collect r b s).seen full first.adds) in
        record {
          adds = Adds-trans s.seen (collect r b s).seen _ first.adds rest.adds;
          reaches = λ p h. elim h [
            | inl u ↦ rest.adds.keeps p (first.reaches p u)
            | inr u ↦ rest.reaches p u
          ];
        }

mutual
  unfolding collect collect_all

  collect-All :
      (P : Result → Type 0) (r : Result) (b : Bool) (s : Collected)
      → Each P r
      → All (λ t. P t.r) s.tasks
      → All (λ t. P t.r) (collect r b s).tasks
  collect-All P (result i refs) b s (here, below) h =
      elim (Bool-cases (contains s.seen i.store_path)) [
        | inl old ↦ rw old h
        | inr new ↦ rw new (
            collect_all-All P refs false (push_task (result i refs) b s) below
              (All-append (λ t. P t.r) s.tasks _ h (here, tt)))
      ]

  collect_all-All :
      (P : Result → Type 0) (rs : Results) (b : Bool) (s : Collected)
      → EachAll P rs
      → All (λ t. P t.r) s.tasks
      → All (λ t. P t.r) (collect_all rs b s).tasks
  collect_all-All P nil b s e h = h
  collect_all-All P (cons r rs) b s (er, ers) h =
      collect_all-All P rs b (collect r b s) ers (collect-All P r b s er h)

-- Every task is a node of the forest.
pub flatten_tasks-All :
    (P : Result → Type 0) (results : Results)
    → EachAll P results
    → All (λ t. P t.r) (flatten_tasks results)
unfolding flatten_tasks
flatten_tasks-All P results e =
    collect_all-All P results true (record { seen = []; tasks = [] }) e tt

-- No result is uploaded twice.
pub flatten_tasks-Distinct : (results : Results) → Distinct (task_paths (flatten_tasks results))
unfolding flatten_tasks
flatten_tasks-Distinct results =
    (collect_all-Matches results true (record { seen = []; tasks = [] })
      (record { distinct = tt; is_seen = λ p h. absurd h; is_task = λ p h. absurd h })).distinct

-- Every node of the forest is a task.
pub flatten_tasks-UnderAny :
    (at : Text → Result) (results : Results) (p : Text)
    → AgreeAll at results
    → UnderAny p results
    → In p (task_paths (flatten_tasks results))
unfolding flatten_tasks
flatten_tasks-UnderAny at results p h u =
    let start : Collected = record { seen = []; tasks = [] } in
    let matches =
      collect_all-Matches results true start
        (record { distinct = tt; is_seen = λ p h. absurd h; is_task = λ p h. absurd h }) in
    let visits =
      collect_all-Visits at results (size_all results) true start h (le_refl _)
        (λ p q h. absurd h) in
    matches.is_task p (visits.reaches p u)
