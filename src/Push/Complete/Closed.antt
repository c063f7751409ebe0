-- ===== src/Push/Complete/Closed.antt =====
-- What the memoising closure `complete` computes: whether every node of the tree is uploaded.
use aeroflare.Base.{
  ℕ, ◌≤◌, ◌<◌, ◌≡◌, refl, sym, ap, ◌∙◌, ◌⊎◌, inl, inr, Bool, true, false, ◌&&◌, some, arith,
  le_refl, if◌then◌else◌, Option-cases, Text, lookup, insert, lookup-insert_cases, text_eq,
}
use aeroflare.Prepare.Tree.{
  Result, Results, result, nil, cons, size, Under, UnderAny, size_all, Agrees, AgreeAll,
}
use aeroflare.Push.Complete.{Receipts, Memo, is_uploaded, complete, complete_refs}

refuse : (done b ok c : Bool) → done ≡ b → ((if done then ok else false) && c) ≡ (ok && (b && c))
refuse done b ok c h = ground arith

module _ (by_path : Receipts) where
  -- Every node of the tree has a receipt.
  unfoldable mutual
    pub closed : Result → Bool
    closed (result i refs) = is_uploaded by_path i.store_path && closed_all refs

    pub closed_all : Results → Bool
    closed_all nil = true
    closed_all (cons r rs) = closed r && closed_all rs

  mutual
    unfolding closed closed_all

    pub closed-Under :
        (p : Text) (r : Result) → closed r ≡ true → Under p r → is_uploaded by_path p ≡ true
    closed-Under p (result i refs) h (inl e) = rw e (ground arith)
    closed-Under p (result i refs) h (inr u) = closed_all-UnderAny p refs (ground arith) u

    pub closed_all-UnderAny :
        (p : Text) (rs : Results)
        → closed_all rs ≡ true
        → UnderAny p rs
        → is_uploaded by_path p ≡ true
    closed_all-UnderAny p nil h u = absurd u
    closed_all-UnderAny p (cons r rs) h (inl u) = closed-Under p r (ground arith) u
    closed_all-UnderAny p (cons r rs) h (inr u) = closed_all-UnderAny p rs (ground arith) u

  mutual
    unfolding closed closed_all

    pub Under-closed :
        (r : Result) → ((q : Text) → Under q r → is_uploaded by_path q ≡ true) → closed r ≡ true
    Under-closed (result i refs) h =
        ground (arith, h i.store_path (inl refl), UnderAny-closed_all refs (λ q u. h q (inr u)))

    pub UnderAny-closed_all :
        (rs : Results)
        → ((q : Text) → UnderAny q rs → is_uploaded by_path q ≡ true)
        → closed_all rs ≡ true
    UnderAny-closed_all nil h = refl
    UnderAny-closed_all (cons r rs) h =
        ground
          (arith, Under-closed r (λ q u. h q (inl u)), UnderAny-closed_all rs (λ q u. h q (inr u)))

  module _ (at : Text → Result) where
    -- The entries for nodes of at most `n` descendants are right. A larger node's entry may be
    -- the mark of a call that is under way.
    abbrev pub RightBelow : ℕ → Memo → Type 0
    RightBelow n memo =
        (p : Text) (v : Bool) → lookup p memo ≡ some v → size (at p) ≤ n → v ≡ closed (at p)

    -- A call adds right entries only.
    abbrev pub Grows : Memo → Memo → Type 0
    Grows memo memo' =
        (p : Text) (v : Bool)
        → lookup p memo' ≡ some v
        → (lookup p memo ≡ some v) ⊎ (v ≡ closed (at p))

    pub RightBelow-Grows : (n : ℕ) (m m' : Memo) → RightBelow n m → Grows m m' → RightBelow n m'
    RightBelow-Grows n m m' right grows p v h small = elim (grows p v h) [
      | inl old ↦ right p v old small
      | inr ok ↦ ok
    ]

    Grows-trans : (m m' m'' : Memo) → Grows m m' → Grows m' m'' → Grows m m''
    Grows-trans m m' m'' g g' p v h = elim (g' p v h) [ inl old ↦ g p v old | inr ok ↦ inr ok ]

    -- The mark of a node that is larger than the bound does no harm.
    RightBelow-insert :
        (n : ℕ) (q : Text) (memo : Memo)
        → n < size (at q)
        → RightBelow n memo
        → RightBelow n (insert q true memo)
    RightBelow-insert n q memo large right p v h small =
        elim (lookup-insert_cases q p true v memo h) [
          | inl (same, _) ↦ absurd (let e = ap (λ t. size (at t)) same in omega arith)
          | inr (_, old) ↦ right p v old small
        ]

    -- The answer is written over the mark.
    Grows-insert :
        (q : Text) (b : Bool) (memo memo' : Memo)
        → b ≡ closed (at q)
        → Grows (insert q true memo) memo'
        → Grows memo (insert q b memo')
    Grows-insert q b memo memo' right grows p v h = elim (lookup-insert_cases q p b v memo' h) [
      | inl (same, value) ↦ inr (rw (← same) (cc))
      | inr (other, new) ↦ elim (grows p v new) [
        | inl marked ↦ elim (lookup-insert_cases q p true v memo marked) [
          | inl (same, _) ↦ absurd (other same)
          | inr (_, old) ↦ inl old
        ]
        | inr ok ↦ inr ok
      ]
    ]

    -- What a call promises: the answer, and a map with right new entries.
    abbrev Answers : Bool → Memo → Bool × Memo → Type 0
    Answers b memo out = (out.0 ≡ b) × Grows memo out.1

    mutual
      unfolding complete complete_refs closed closed_all size size_all

      pub complete-closed :
          (r : Result) (memo : Memo)
          → Agrees at r
          → RightBelow (size r) memo
          → Answers (closed r) memo (complete by_path r memo)
      complete-closed (result i refs) memo (here, below) right =
          elim (Option-cases (lookup i.store_path memo)) [
            | inr (v, hit) ↦
                rw hit
                  (right i.store_path v hit (rw here (le_refl _)) ∙ ap closed here, λ p w h. inl h)
            | inl miss ↦
                let fits : size_all refs < size (at i.store_path) = rw here (le_refl _) in
                let marked =
                  RightBelow-insert (size_all refs) i.store_path memo fits
                    (λ p v h small. right p v h (omega arith)) in
                let (answer, grows) =
                  complete_refs-closed_all refs (size_all refs) (is_uploaded by_path i.store_path)
                    (insert i.store_path true memo) below (le_refl _) marked in
                rw miss
                  (answer, Grows-insert i.store_path _ memo _ (answer ∙ ap closed (sym here)) grows)
          ]

      pub complete_refs-closed_all :
          (rs : Results) (n : ℕ) (ok : Bool) (memo : Memo)
          → AgreeAll at rs
          → size_all rs ≤ n
          → RightBelow n memo
          → Answers (ok && closed_all rs) memo (complete_refs by_path rs ok memo)
      complete_refs-closed_all nil n ok memo _ small right = (ground arith, λ p v h. inl h)
      complete_refs-closed_all (cons r rs) n ok memo (hr, hrs) small right =
          let (first, grows) =
            complete-closed r memo hr (λ p v h below. right p v h (omega arith)) in
          let memo' = (complete by_path r memo).1 in
          let (rest, grows') =
            complete_refs-closed_all rs n (if (complete by_path r memo).0 then ok else false) memo'
              hrs (omega arith) (RightBelow-Grows n memo memo' right grows) in
          (
            rest ∙ refuse (complete by_path r memo).0 (closed r) ok (closed_all rs) first,
            Grows-trans memo memo' _ grows grows',
          )
