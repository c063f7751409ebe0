-- ===== src/Upstream/Calls/Invariant.antt =====
-- What holds in every interleaving of calls.
use aeroflare.Base.{
  ℕ, ◌≡◌, refl, sym, ap, ◌∙◌, subst, inl, inr, Bool, true, Option, none, some, List, [], ◌∷◌, ◌++◌,
  map, All, All-append, In, All-append_inv, In-All, Text, lookup, insert, lookup-nil,
  lookup-insert_cases, text_eq,
}
use aeroflare.Push.Complete.Closed.{closed}
use aeroflare.Upstream.Calls.{
  Call, System, started, waiting, requesting, returned, result_or_false, registered, looked_up,
  begin, finish, wake, replaced, Step, step_begin, step_answer, step_fail, step_wake, step_cancel,
  initial, Steps, no_steps, then_step,
}

module _ (remote : Text → Bool) where
  -- An answer true is the remote's, and one that is not an error is the remote's or false.
  IsTrueCall : Call → Type 0
  IsTrueCall (started h) = Unit
  IsTrueCall (waiting h channel) = Unit
  IsTrueCall (requesting h) = Unit
  IsTrueCall (returned h none) = Unit
  IsTrueCall (returned h (some v)) = v ≡ true → remote h ≡ true

  record IsTrue (s : System) : Type 0 where
    table : (h : Text) (v : Bool) → lookup h s.results ≡ some v → v ≡ remote h
    calls : All IsTrueCall s.calls

  -- The call that is replaced has the property, and so have the others.
  replaced-IsTrue :
      (before after : List Call) (c : Call) (s : System) (next : Call × System)
      → s.calls ≡ before ++ c ∷ after
      → IsTrue s
      → IsTrueCall next.0
      → ((h : Text) (v : Bool) → lookup h next.1.results ≡ some v → v ≡ remote h)
      → IsTrue (replaced before next after)
  replaced-IsTrue before after c s next e t call table =
      let (first, rest) =
        All-append_inv IsTrueCall before (c ∷ after) (subst (All IsTrueCall) e t.calls) in
      record {
        table = table;
        calls = All-append IsTrueCall before (next.0 ∷ after) first (call, rest.1);
      }

  registered-IsTrue :
      (h : Text) (o : Option ℕ) (s : System)
      → IsTrue s
      → IsTrueCall (registered h o s).0
        × ((k : Text) (v : Bool) → lookup k (registered h o s).1.results ≡ some v → v ≡ remote k)
  unfolding IsTrueCall
  registered-IsTrue h none s t = (tt, t.table)
  registered-IsTrue h (some channel) s t = (tt, t.table)

  looked_up-IsTrue :
      (h : Text) (o : Option Bool) (s : System)
      → lookup h s.results ≡ o
      → IsTrue s
      → IsTrueCall (looked_up h o s).0
        × ((k : Text) (v : Bool) → lookup k (looked_up h o s).1.results ≡ some v → v ≡ remote k)
  looked_up-IsTrue h none s e t = registered-IsTrue h (lookup h s.inflight) s t
  looked_up-IsTrue h (some v) s e t =
      unfold IsTrueCall in ((λ positive_here. sym (t.table h v e) ∙ positive_here), t.table)

  keep_answer-true :
      (h k : Text) (v : Bool) (s : System)
      → IsTrue s
      → lookup k (insert h (remote h) s.results) ≡ some v
      → v ≡ remote k
  keep_answer-true h k v s t e = elim (lookup-insert_cases h k (remote h) v s.results e) [
    | inl (same, own) ↦ sym own ∙ ap remote same
    | inr (_, old) ↦ t.table k v old
  ]

  woken-true :
      (h : Text) (o : Option Bool) (s : System)
      → lookup h s.results ≡ o
      → IsTrue s
      → result_or_false o ≡ true
      → remote h ≡ true
  woken-true h none s e t positive_here = absurd (cc positive_here)
  woken-true h (some v) s e t positive_here = sym (t.table h v e) ∙ positive_here

  Step-IsTrue : (s t : System) → Step remote s t → IsTrue s → IsTrue t
  unfolding begin finish wake IsTrueCall
  Step-IsTrue s t (step_begin before after h s' e) p =
      let (call, table) = looked_up-IsTrue h (lookup h s.results) s refl p in
      replaced-IsTrue before after (started h) s (begin h s) e p call table
  Step-IsTrue s t (step_answer before after h s' e) p =
      replaced-IsTrue before after (requesting h) s (finish h (some (remote h)) s) e p
        (λ positive_here. positive_here) (λ k v. keep_answer-true h k v s p)
  Step-IsTrue s t (step_fail before after h s' e) p =
      replaced-IsTrue before after (requesting h) s (finish h none s) e p tt p.table
  Step-IsTrue s t (step_wake before after h channel s' e closed) p =
      replaced-IsTrue before after (waiting h channel) s (wake h s) e p
        (woken-true h (lookup h s.results) s refl p) p.table
  Step-IsTrue s t (step_cancel before after h channel s' e) p =
      replaced-IsTrue before after (waiting h channel) s (returned h none, s) e p tt p.table

  Steps-IsTrue : (s t : System) → Steps remote s t → IsTrue s → IsTrue t
  Steps-IsTrue s t (no_steps s') p = p
  Steps-IsTrue s t (then_step s' u t' before last) p =
      Step-IsTrue u t last (Steps-IsTrue s u before p)

  started-All : (hashes : List Text) → All IsTrueCall (map started hashes)
  unfolding IsTrueCall
  started-All [] = tt
  started-All (h ∷ hs) = (tt, started-All hs)

  initial-IsTrue : (hashes : List Text) → IsTrue (initial hashes)
  initial-IsTrue hashes = record {
    table = λ h v e. absurd (cc (sym (lookup-nil h) ∙ e));
    calls = started-All hashes;
  }

  -- In every interleaving of calls, a call that answers that the cache holds a hash is right.
  pub returned_true :
      (hashes : List Text) (s : System) (h : Text)
      → Steps remote (initial hashes) s
      → In (returned h (some true)) s.calls
      → remote h ≡ true
  unfolding IsTrueCall
  returned_true hashes s h steps m =
      In-All IsTrueCall (returned h (some true)) s.calls
        (Steps-IsTrue (initial hashes) s steps (initial-IsTrue hashes)).calls m refl
