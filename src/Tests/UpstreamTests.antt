-- ===== src/Tests/UpstreamTests.antt =====
-- The theorems of Upstream at two calls for one hash and at a group of two caches.
use aeroflare.Base.{
  ◌≤◌, ◌≡◌, refl, ◌↔◌, inl, Bool, true, false, Option, none, some, List, [], ◌∷◌, text_beq, Text,
  codes, Dict, lookup, insert, delete, text_eq,
}
use aeroflare.Upstream.Group.{group_exists_batch}
use aeroflare.Upstream.Calls.{
  begin, finish, wake, replaced, initial, System, Steps, started, waiting, requesting, returned,
  no_steps, then_step,
}
use aeroflare.Prepare.Refs.{is_upstream}
use aeroflare.Upstream.Calls.{step_begin, step_answer, step_fail, step_wake, no_steps, then_step}
use aeroflare.Upstream.Calls.Invariant.{returned_true}
use aeroflare.Upstream.Calls.Single.{requests-le, requests}
use aeroflare.Upstream.Group.Union.{group_exists_batch_iff, HeldByAny}

abbrev hash : Text
hash = codes "h"

abbrev holds_all : Text → Bool
holds_all h = true

-- The first call requests the hash, the second waits for it.
abbrev two_calls : System
two_calls = initial (hash ∷ hash ∷ [])

abbrev one_asks : System
one_asks = replaced [] (begin hash two_calls) (started hash ∷ [])

abbrev one_waits : System
one_waits = replaced (requesting hash ∷ []) (begin hash one_asks) []

to_one_waits : Steps holds_all two_calls one_waits
unfolding begin lookup insert text_beq
to_one_waits =
    then_step two_calls one_asks one_waits
      (then_step two_calls two_calls one_asks (no_steps two_calls)
        (step_begin [] (started hash ∷ []) hash two_calls refl))
      (step_begin (requesting hash ∷ []) [] hash one_asks refl)

-- The request is answered, and both calls return the answer.
abbrev answered : System
answered = replaced [] (finish hash (some true) one_waits) (waiting hash 0 ∷ [])

abbrev both_returned : System
both_returned = replaced (returned hash (some true) ∷ []) (wake hash answered) []

to_both_returned : Steps holds_all two_calls both_returned
unfolding begin finish wake lookup insert delete text_beq
to_both_returned =
    then_step two_calls answered both_returned
      (then_step two_calls one_waits answered to_one_waits
        (step_answer [] (waiting hash 0 ∷ []) hash one_waits refl))
      (step_wake (returned hash (some true) ∷ []) [] hash 0 answered refl (λ e. cc e))

returned_true_example : holds_all hash ≡ true
returned_true_example =
    returned_true holds_all (hash ∷ hash ∷ []) both_returned hash to_both_returned (inl refl)

requests-le_example : requests hash one_waits.calls ≤ 1
requests-le_example = requests-le holds_all (hash ∷ hash ∷ []) one_waits hash to_one_waits

-- If the request fails, the waiting call returns false without an error.
abbrev failed : System
failed = replaced [] (finish hash none one_waits) (waiting hash 0 ∷ [])

abbrev told_absent : System
told_absent = replaced (returned hash none ∷ []) (wake hash failed) []

to_told_absent : Steps holds_all two_calls told_absent
unfolding begin finish wake lookup insert delete text_beq
to_told_absent =
    then_step two_calls failed told_absent
      (then_step two_calls one_waits failed to_one_waits
        (step_fail [] (waiting hash 0 ∷ []) hash one_waits refl))
      (step_wake (returned hash none ∷ []) [] hash 0 failed refl (λ e. cc e))

absent_without_error : told_absent.calls ≡ returned hash none ∷ returned hash (some false) ∷ []
unfolding begin finish wake lookup insert delete text_beq
absent_without_error = refl

abbrev members : List (Option (Dict Text Bool))
members = none ∷ some ((hash, true) ∷ []) ∷ []

group_exists_batch_iff_example :
    (is_upstream (group_exists_batch members (hash ∷ [])) hash ≡ true) ↔ HeldByAny members hash
group_exists_batch_iff_example = group_exists_batch_iff members hash [] hash
