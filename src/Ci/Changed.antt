-- ===== src/Ci/Changed.antt =====
-- internal/ci/changed.go: the outputs whose derivation differs from that of a base commit. The
-- commands git and nix and the file of the webhook event are the environment.
pub mod Selected
pub mod Ancestry
use aeroflare.Base.{
  ℕ, ◌+◌, Bool, true, false, not, ◌&&◌, ◌||◌, Option, none, some, List, [], ◌∷◌, map, ltb,
  if◌then◌else◌, ◌==◌, length, take, Text, codes, trim_left, trim_right, trim_space, to_lower, Dict,
  lookup, insert, sort, ◌>>=◌, Outcome, success, failure, text_eq, nat_eq,
}
use aeroflare.Ci.Outputs.{
  FlakeOutputs, installables, expand_builds, discover_sentinel, discover_ref, has_sentinel, total,
}
use mathlib.Core.List.{filter_map}
use mathlib.Core.Option

abbrev pub changed_sentinel : Text
changed_sentinel = codes "changed"

-- `MissingBasePolicy`.
pub data MissingBasePolicy : Type 0 where
  missing_base_all missing_base_error missing_base_none : MissingBasePolicy

-- `ParseMissingBasePolicy`.
unfoldable pub parse_missing_base_policy : Text → Option MissingBasePolicy
unfolding trim_space to_lower
parse_missing_base_policy s =
    let p = to_lower (trim_space s) in
    if p == []
    then some missing_base_all
    else if p == codes "all"
    then some missing_base_all
    else if p == codes "error"
    then some missing_base_error
    else if p == codes "none"
    then some missing_base_none
    else none

-- `flakeDrvs`: the derivation of each output, the empty text where none was evaluated.
pub record FlakeDrvs : Type 0 where
  pub system : Text
  pub packages : Dict Text Text
  pub dev_shells : Dict Text Text
  pub nixos_configurations : Dict Text Text

-- `Total`.
abbrev pub total_drvs : FlakeDrvs → ℕ
total_drvs d = length d.packages + length d.dev_shells + length d.nixos_configurations

-- `base[name]`.
abbrev pub drv_of : Dict Text Text → Text → Text
drv_of known name = elim (lookup name known) [ none ↦ [] | some drv ↦ drv ]

-- One round of the loop of `changedClass`.
unfoldable pub changed_name : Dict Text Text → Text × Text → Option Text
changed_name known (name, drv) =
    if drv == [] || not (drv_of known name == drv) then some name else none

-- `changedClass`: the keys of the map come in any order and are sorted.
unfoldable pub changed_class : Dict Text Text → Dict Text Text → List Text
unfolding changed_name sort
changed_class known head = sort (filter_map (changed_name known) head)

-- `changedOutputs`.
unfoldable pub changed_outputs : FlakeDrvs → FlakeDrvs → FlakeOutputs
unfolding changed_class
changed_outputs known head = record {
  system = head.system;
  packages = changed_class known.packages head.packages;
  dev_shells = changed_class known.dev_shells head.dev_shells;
  nixos_configurations = changed_class known.nixos_configurations head.nixos_configurations;
}

-- `outputs`.
unfoldable pub outputs : FlakeDrvs → FlakeOutputs
unfolding sort
outputs d = record {
  system = d.system;
  packages = sort (map (λ e. e.0) d.packages);
  dev_shells = sort (map (λ e. e.0) d.dev_shells);
  nixos_configurations = sort (map (λ e. e.0) d.nixos_configurations);
}

-- `isNullSHA`.
unfoldable pub is_null_sha : Text → Bool
unfolding trim_left trim_right
is_null_sha s = not (s == []) && trim_right (λ c. c == b'0') (trim_left (λ c. c == b'0') s) == []

-- `eventPayload`: what is decoded of the file of the event.
pub record EventPayload : Type 0 where
  pub before : Text
  pub pull_request : Option Text

abbrev pub before_of : EventPayload → Text
before_of ev = if is_null_sha ev.before then [] else ev.before

-- `baseFromEvent`, on the payload if the file is named, read and decoded.
unfoldable pub base_from_event : Option EventPayload → Text
unfolding is_null_sha
base_from_event none = []
base_from_event (some ev) = elim ev.pull_request [
  | none ↦ before_of ev
  | some sha ↦ if sha == [] then before_of ev else sha
]

-- `resolveBaseRef`.
unfoldable pub resolve_base_ref : Text → Option EventPayload → Text
unfolding trim_space base_from_event
resolve_base_ref explicit event =
    let e = trim_space explicit in
    let b = base_from_event event in
    if not (e == []) then e else if not (b == []) then b else codes "HEAD~1"

-- Why there is no base: the messages of the code, which are never empty.
pub data BaseError : Type 0 where
  no_base_commit : BaseError
  not_a_commit no_ancestry : Text → BaseError
  -- The commit, the number of its ancestors that were tried, and the last error.
  not_evaluated : Text → ℕ → Text → BaseError

-- One round of `firstEvaluatable`: the next one is told the error of this one.
abbrev pub or_next :
    Outcome Text FlakeDrvs
    → Text
    → (Text → Outcome Text (FlakeDrvs × Text))
    → Outcome Text (FlakeDrvs × Text)
or_next (success drvs) sha next = success (drvs, sha)
or_next (failure e) sha next = next e

unfoldable pub evaluate_first :
    (Text → Outcome Text FlakeDrvs) → List Text → Text → Outcome Text (FlakeDrvs × Text)
evaluate_first eval [] err = failure err
evaluate_first eval (sha ∷ shas) err = or_next (eval sha) sha (evaluate_first eval shas)

-- `shortSHA`.
unfoldable pub short_sha : Text → Text
short_sha sha = if ltb (length sha) 40 then sha else take 7 sha

abbrev pub or_not_evaluated :
    Text → ℕ → Outcome Text (FlakeDrvs × Text) → Outcome BaseError (FlakeDrvs × Text)
or_not_evaluated sha n (success found) = success found
or_not_evaluated sha n (failure e) = failure (not_evaluated (short_sha sha) n e)

-- `firstEvaluatable`.
unfoldable pub first_evaluatable :
    List Text → (Text → Outcome Text FlakeDrvs) → Outcome BaseError (FlakeDrvs × Text)
unfolding evaluate_first short_sha
first_evaluatable [] eval = failure no_base_commit
first_evaluatable (sha ∷ shas) eval =
    or_not_evaluated sha (length shas) (evaluate_first eval (sha ∷ shas) [])

-- What git and nix answer.
pub record Checkout : Type 0 where
  pub eval_head : Outcome Text FlakeDrvs
  pub verify_commit : Text → Outcome Text Text
  pub base_ancestry : Text → Outcome Text (List Text)
  pub eval_commit : Text → Outcome Text FlakeDrvs

-- `changedResult`, with or without a base.
pub data ChangedResult : Type 0 where
  -- Changed, Total, Base and Requested.
  compared : FlakeOutputs → ℕ → Text → Text → ChangedResult
  -- MissingBase and All.
  missing_base : BaseError → FlakeOutputs → ChangedResult

abbrev pub compare : FlakeDrvs → Text → Outcome BaseError (FlakeDrvs × Text) → ChangedResult
compare head sha (failure e) = missing_base e (outputs head)
compare head sha (success (known, used)) =
    compared (changed_outputs known head) (total_drvs head) (short_sha used) (short_sha sha)

abbrev pub diff_from : Checkout → FlakeDrvs → Text → Outcome Text (List Text) → ChangedResult
diff_from git head sha (failure e) = missing_base (no_ancestry e) (outputs head)
diff_from git head sha (success ancestry) =
    compare head sha (first_evaluatable ancestry git.eval_commit)

abbrev pub diff_at : Checkout → FlakeDrvs → Outcome Text Text → ChangedResult
diff_at git head (failure e) = missing_base (not_a_commit e) (outputs head)
diff_at git head (success sha) = diff_from git head sha (git.base_ancestry sha)

-- The differ that `newDiffer` returns.
unfoldable pub diff : Checkout → Text → Outcome Text ChangedResult
unfolding changed_outputs outputs first_evaluatable
diff git base_ref =
    git.eval_head >>= λ head. success (diff_at git head (git.verify_commit base_ref))

pub data BuildsError : Type 0 where
  eval_failed : Text → BuildsError
  nothing_found : BuildsError
  no_base : BaseError → BuildsError

abbrev pub lift_eval : {A : Type 0} → Outcome Text A → Outcome BuildsError A
lift_eval (success a) = success a
lift_eval (failure e) = failure (eval_failed e)

-- The policy where there is no base.
unfoldable pub without_base :
    MissingBasePolicy → BaseError → FlakeOutputs → Outcome BuildsError (List Text)
unfolding installables
without_base missing_base_error reason everything = failure (no_base reason)
without_base missing_base_none reason everything = success []
without_base missing_base_all reason everything = success (installables everything discover_ref)

abbrev pub select : MissingBasePolicy → ChangedResult → Outcome BuildsError (List Text)
select policy (compared changed n known requested) = success (installables changed discover_ref)
select policy (missing_base reason everything) = without_base policy reason everything

-- `resolveChanged`.
unfoldable pub resolve_changed :
    MissingBasePolicy → Outcome Text ChangedResult → Outcome BuildsError (List Text)
unfolding without_base
resolve_changed policy diffed = lift_eval diffed >>= select policy

abbrev pub found_outputs : FlakeOutputs → Outcome BuildsError (List Text)
found_outputs o =
    if total o == 0 then failure nothing_found else success (installables o discover_ref)

-- The two sentinels of `resolveBuilds`: the expansions with the one that is asked for.
abbrev pub expand_sentinel :
    Bool
    → Text
    → Outcome BuildsError (List Text)
    → Dict Text (List Text)
    → Outcome BuildsError (Dict Text (List Text))
expand_sentinel false sentinel found expansions = success expansions
expand_sentinel true sentinel found expansions =
    found >>= λ is. success (insert sentinel is expansions)

-- `resolveBuilds` behind the first sentinel.
unfoldable pub expand_changed :
    List Text
    → MissingBasePolicy
    → Outcome Text ChangedResult
    → Dict Text (List Text)
    → Outcome BuildsError (List Text)
unfolding has_sentinel resolve_changed expand_builds
expand_changed builds policy diffed expansions =
    expand_sentinel (has_sentinel builds changed_sentinel) changed_sentinel
      (resolve_changed policy diffed) expansions
    >>= λ all_expansions. success (expand_builds builds all_expansions)

-- `resolveBuilds`.
unfoldable pub resolve_builds :
    List Text
    → MissingBasePolicy
    → Outcome Text FlakeOutputs
    → Outcome Text ChangedResult
    → Outcome BuildsError (List Text)
unfolding has_sentinel expand_changed
resolve_builds builds policy discovered diffed =
    expand_sentinel (has_sentinel builds discover_sentinel) discover_sentinel
      (lift_eval discovered >>= found_outputs) []
    >>= expand_changed builds policy diffed
