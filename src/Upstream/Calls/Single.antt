-- ===== src/Upstream/Calls/Single.antt =====
-- Calls for one hash make one request at a time.
use aeroflare.Base.{
  ℕ, ◌+◌, ◌≤◌, ◌≡◌, refl, sym, ap, ◌∙◌, inl, inr, Bool, Option, none, some, List, [], ◌∷◌, ◌++◌,
  map, arith, if◌then◌else◌, ◌==◌, Bool-cases, text_eq_of_beq, if_true, if_false, Text, lookup,
  lookup-nil, lookup-insert, lookup-delete, text_eq,
}
use aeroflare.Push.Complete.Closed.{closed}
use aeroflare.Upstream.Calls.{
  registered, replaced, Call, System, started, waiting, requesting, returned, looked_up, begin,
  finish, wake, initial, Step, Steps, no_steps, then_step, step_begin, step_answer, step_fail,
  step_wake, step_cancel,
}

-- The requests of a call for a hash.
abbrev weight : Text → Call → ℕ
weight h (started k) = 0
weight h (waiting k channel) = 0
weight h (requesting k) = if k == h then 1 else 0
weight h (returned k answer) = 0

-- The calls that are requesting a hash.
unfoldable pub requests : Text → List Call → ℕ
requests h [] = 0
requests h (c ∷ cs) = weight h c + requests h cs

requests-append :
    (h : Text) (before after : List Call)
    → requests h (before ++ after) ≡ requests h before + requests h after
unfolding requests
requests-append h [] after = omega arith
requests-append h (c ∷ cs) after = omega (arith, requests-append h cs after)

abbrev open_channels : Option ℕ → ℕ
open_channels none = 0
open_channels (some channel) = 1

-- A hash has an open channel for its request, and for one only.
IsCounted : System → Type 0
IsCounted s = (h : Text) → requests h s.calls ≡ open_channels (lookup h s.inflight)

open_channels-le : (o : Option ℕ) → open_channels o ≤ 1
open_channels-le none = omega arith
open_channels-le (some channel) = omega arith

replaced-IsCounted :
    (before after : List Call) (c : Call) (s : System) (next : Call × System)
    → s.calls ≡ before ++ c ∷ after
    → IsCounted s
    → ((h : Text)
        → weight h next.0 + open_channels (lookup h s.inflight)
          ≡ weight h c + open_channels (lookup h next.1.inflight))
    → IsCounted (replaced before next after)
unfolding IsCounted requests
replaced-IsCounted before after c s next e counted balance h =
    let old : requests h before + (weight h c + requests h after)
        ≡ open_channels (lookup h s.inflight) =
      sym (requests-append h before (c ∷ after)) ∙ ap (requests h) (sym e) ∙ counted h in
    let new = requests-append h before (next.0 ∷ after) in let even = balance h in new ∙ omega arith

registered_balance :
    (h : Text) (o : Option ℕ) (s : System)
    → lookup h s.inflight ≡ o
    → (k : Text)
    → weight k (registered h o s).0 + open_channels (lookup k s.inflight)
      ≡ 0 + open_channels (lookup k (registered h o s).1.inflight)
registered_balance h (some channel) s e k = omega arith
registered_balance h none s e k = elim (Bool-cases (h == k)) [
  | inl same ↦
      let own : weight k (registered h none s).0 ≡ 1 = if_true {A = ℕ} (h == k) 1 0 same in
      let closed : open_channels (lookup k s.inflight) ≡ 0 =
        ap open_channels (ap (λ x. lookup x s.inflight) (sym (text_eq_of_beq h k same)) ∙ e) in
      let opened : open_channels (lookup k (registered h none s).1.inflight) ≡ 1 =
        ap open_channels (
          lookup-insert h k s.next s.inflight
          ∙ if_true (h == k) (some s.next) (lookup k s.inflight) same) in
      omega arith
  | inr other ↦
      let own : weight k (registered h none s).0 ≡ 0 = if_false {A = ℕ} (h == k) 1 0 other in
      let kept : open_channels (lookup k (registered h none s).1.inflight)
          ≡ open_channels (lookup k s.inflight) =
        ap open_channels (
          lookup-insert h k s.next s.inflight
          ∙ if_false (h == k) (some s.next) (lookup k s.inflight) other) in
      omega arith
]

looked_up_balance :
    (h : Text) (o : Option Bool) (s : System) (k : Text)
    → weight k (looked_up h o s).0 + open_channels (lookup k s.inflight)
      ≡ 0 + open_channels (lookup k (looked_up h o s).1.inflight)
looked_up_balance h none s k = registered_balance h (lookup h s.inflight) s refl k
looked_up_balance h (some v) s k = omega arith

-- The request that ends has the one open channel of its hash.
finish_balance :
    (before after : List Call) (h : Text) (answer : Option Bool) (s : System)
    → s.calls ≡ before ++ requesting h ∷ after
    → IsCounted s
    → (k : Text)
    → 0 + open_channels (lookup k s.inflight)
      ≡ weight k (requesting h) + open_channels (lookup k (finish h answer s).1.inflight)
unfolding IsCounted requests finish
finish_balance before after h answer s e counted k =
    let there : requests k before + (weight k (requesting h) + requests k after)
        ≡ open_channels (lookup k s.inflight) =
      sym (requests-append k before (requesting h ∷ after)) ∙ ap (requests k) (sym e) ∙ counted k in
    let most = open_channels-le (lookup k s.inflight) in
    elim (Bool-cases (h == k)) [
      | inl same ↦
          let own : weight k (requesting h) ≡ 1 = if_true {A = ℕ} (h == k) 1 0 same in
          let gone : open_channels (lookup k (finish h answer s).1.inflight) ≡ 0 =
            ap open_channels
              (lookup-delete h k s.inflight ∙ if_true (h == k) none (lookup k s.inflight) same) in
          omega arith
      | inr other ↦
          let own : weight k (requesting h) ≡ 0 = if_false {A = ℕ} (h == k) 1 0 other in
          let kept : open_channels (lookup k (finish h answer s).1.inflight)
              ≡ open_channels (lookup k s.inflight) =
            ap open_channels
              (lookup-delete h k s.inflight ∙ if_false (h == k) none (lookup k s.inflight) other) in
          omega arith
    ]

module _ (remote : Text → Bool) where
  Step-IsCounted : (s t : System) → Step remote s t → IsCounted s → IsCounted t
  unfolding begin finish wake
  Step-IsCounted s t (step_begin before after h s' e) p =
      replaced-IsCounted before after (started h) s (begin h s) e p
        (looked_up_balance h (lookup h s.results) s)
  Step-IsCounted s t (step_answer before after h s' e) p =
      replaced-IsCounted before after (requesting h) s (finish h (some (remote h)) s) e p
        (finish_balance before after h (some (remote h)) s e p)
  Step-IsCounted s t (step_fail before after h s' e) p =
      replaced-IsCounted before after (requesting h) s (finish h none s) e p
        (finish_balance before after h none s e p)
  Step-IsCounted s t (step_wake before after h channel s' e closed) p =
      replaced-IsCounted before after (waiting h channel) s (wake h s) e p (λ k. omega arith)
  Step-IsCounted s t (step_cancel before after h channel s' e) p =
      replaced-IsCounted before after (waiting h channel) s (returned h none, s) e p
        (λ k. omega arith)

  Steps-IsCounted : (s t : System) → Steps remote s t → IsCounted s → IsCounted t
  Steps-IsCounted s t (no_steps s') p = p
  Steps-IsCounted s t (then_step s' u t' before last) p =
      Step-IsCounted u t last (Steps-IsCounted s u before p)

  requests_started : (h : Text) (hashes : List Text) → requests h (map started hashes) ≡ 0
  unfolding requests
  requests_started h [] = refl
  requests_started h (k ∷ ks) = omega (arith, requests_started h ks)

  -- In every interleaving of calls, at most one of them is requesting a hash.
  pub requests-le :
      (hashes : List Text) (s : System) (h : Text)
      → Steps remote (initial hashes) s
      → requests h s.calls ≤ 1
  unfolding IsCounted
  requests-le hashes s h steps =
      let counted =
        Steps-IsCounted (initial hashes) s steps
          (λ k. requests_started k hashes ∙ ap open_channels (sym (lookup-nil k))) h in
      let most = open_channels-le (lookup h s.inflight) in omega arith
