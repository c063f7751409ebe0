-- ===== src/Upstream/Calls.antt =====
-- `Cache.Exists` of pkg/prepare/cache/cache.go: calls that share a table of answers and one of
-- requests in flight. What happens under the lock is one step; between its steps a call waits for
-- the channel of another one's request, or for its own request.
pub mod Invariant
pub mod Single
use aeroflare.Base.{
  ℕ, ◌+◌, ◌≡◌, ◌≢◌, Bool, false, Option, none, some, List, [], ◌∷◌, ◌++◌, map, Text, Dict, lookup,
  insert, delete, text_eq,
}

-- Where a call is. A waiting call has the channel of a request, which is a number here.
pub data Call : Type 0 where
  started : Text → Call
  waiting : Text → ℕ → Call
  requesting : Text → Call
  -- The answer, or none for an error.
  returned : Text → Option Bool → Call

-- `Cache`, its open channels in `inflight`, and its calls. `next` is the channel to be made next.
pub record System : Type 0 where
  pub results : Dict Text Bool
  pub inflight : Dict Text ℕ
  pub next : ℕ
  pub calls : List Call

-- `v := c.results[hash]`, which is false where there is no entry.
abbrev pub result_or_false : Option Bool → Bool
result_or_false none = false
result_or_false (some v) = v

-- The fast path, the wait for a request in flight, or the registration of a request.
abbrev pub registered : Text → Option ℕ → System → Call × System
registered h (some channel) s = (waiting h channel, s)
registered h none s =
    (requesting h, record s { inflight = insert h s.next s.inflight; next = s.next + 1 })

abbrev pub looked_up : Text → Option Bool → System → Call × System
looked_up h (some v) s = (returned h (some v), s)
looked_up h none s = registered h (lookup h s.inflight) s

unfoldable pub begin : Text → System → Call × System
begin h s = looked_up h (lookup h s.results) s

-- The end of a request: the channel is closed, and an answer is kept.
abbrev pub keep_answer : Text → Option Bool → Dict Text Bool → Dict Text Bool
keep_answer h none results = results
keep_answer h (some v) results = insert h v results

unfoldable pub finish : Text → Option Bool → System → Call × System
finish h answer s = (
  returned h answer,
  record s { inflight = delete h s.inflight; results = keep_answer h answer s.results },
)

-- A waiting call behind its channel.
unfoldable pub wake : Text → System → Call × System
wake h s = (returned h (some (result_or_false (lookup h s.results))), s)

-- The calls with another one at the place of a call.
abbrev pub replaced : List Call → Call × System → List Call → System
replaced before (c, s) after = record s { calls = before ++ c ∷ after }

module _ (remote : Text → Bool) where
  -- One step of one call. The remote cache answers truly, or the request fails.
  pub data Step : System → System → Type 0 where
    step_begin :
        (before after : List Call) (h : Text) (s : System)
        → s.calls ≡ before ++ started h ∷ after
        → Step s (replaced before (begin h s) after)
    step_answer :
        (before after : List Call) (h : Text) (s : System)
        → s.calls ≡ before ++ requesting h ∷ after
        → Step s (replaced before (finish h (some (remote h)) s) after)
    step_fail :
        (before after : List Call) (h : Text) (s : System)
        → s.calls ≡ before ++ requesting h ∷ after
        → Step s (replaced before (finish h none s) after)
    step_wake :
        (before after : List Call) (h : Text) (channel : ℕ) (s : System)
        → s.calls ≡ before ++ waiting h channel ∷ after
        → lookup h s.inflight ≢ some channel
        → Step s (replaced before (wake h s) after)
    step_cancel :
        (before after : List Call) (h : Text) (channel : ℕ) (s : System)
        → s.calls ≡ before ++ waiting h channel ∷ after
        → Step s (replaced before (returned h none, s) after)

  -- Any number of steps.
  pub data Steps : System → System → Type 0 where
    no_steps : (s : System) → Steps s s
    then_step : (s t u : System) → Steps s t → Step t u → Steps s u

-- Calls before their first step.
abbrev pub initial : List Text → System
initial hashes = record { results = []; inflight = []; next = 0; calls = map started hashes }
