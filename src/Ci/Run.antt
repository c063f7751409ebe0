-- ===== src/Ci/Run.antt =====
-- `Run` of internal/ci/run.go, from the resolved list of builds on.
pub mod Complete
pub mod Whole
use aeroflare.Base.{
  ℕ, suc, Bool, true, false, ◌&&◌, Option, none, some, List, [], ◌∷◌, ◌++◌, if◌then◌else◌, ◌==◌,
  length, Text, Outcome, success, failure, text_eq, nat_eq,
}
use aeroflare.Push.Upload.{Host}
use aeroflare.Push.Prepared.{
  prepare_set, push_to, PrepareConfig, Setup, SetupError, PreparedSet, Target, Pushed,
}
use aeroflare.Push.Tasks.{PreparedTask}
use aeroflare.Backend.{PushReceipt}
use aeroflare.Ci.Builds.{Checker, built_paths, dedup_paths, filter_roots}
use aeroflare.Ci.Settings.{RunSpec, CacheSpec, Environment, resolve_auth}

-- What a run asks of the system. `nix_build` gives the output of a build that succeeds, and
-- `schedule` the order in which the uploads to a cache end.
pub record CiWorld : Type 0 where
  pub environment : Environment
  -- The file of the signing key, if it can be written.
  pub key_path : Text → Option Text
  pub proxy_starts : Bool
  pub nix_build : Text → Option Text
  pub checker : Checker
  pub setup : Setup
  pub host : CacheSpec → Host
  pub has_pusher : CacheSpec → Bool
  pub push_receipts : CacheSpec → List PushReceipt → Bool
  pub schedule : CacheSpec → List PreparedTask → List PreparedTask

-- `buildsOK` and `union`: a build that fails is passed over.
abbrev pub add_built : Option (List Text) → ℕ × List Text → ℕ × List Text
add_built none rest = rest
add_built (some paths) (n, union) = (suc n, paths ++ union)

unfoldable pub build_all : (Text → Option Text) → List Text → ℕ × List Text
build_all nix_build [] = (0, [])
build_all nix_build (b ∷ bs) = add_built (built_paths (nix_build b)) (build_all nix_build bs)

abbrev pub target_of : CiWorld → CacheSpec → Target
target_of w c = record {
  has_auth = true;
  has_pusher = w.has_pusher c;
  host = w.host c;
  push_receipts = w.push_receipts c;
}

abbrev pub push_with : CiWorld → PreparedSet → CacheSpec → Option (Text × Text) → Option Pushed
push_with w set c none = none
push_with w set c (some auth) = some (push_to set (target_of w c) (w.schedule c set.tasks))

-- One round of the loop over the caches: the push, if there is a token.
unfoldable pub push_cache : CiWorld → PreparedSet → CacheSpec → Option Pushed
unfolding resolve_auth push_to
push_cache w set c = push_with w set c (resolve_auth w.environment c.registry)

-- `pushesOK++`.
abbrev pub is_pushed : Option Pushed → Bool
is_pushed none = false
is_pushed (some pushed) = elim pushed.error [ none ↦ true | some e ↦ false ]

unfoldable pub count_pushed : CiWorld → PreparedSet → List CacheSpec → ℕ
unfolding push_cache
count_pushed w set [] = 0
count_pushed w set (c ∷ cs) =
    if is_pushed (push_cache w set c) then suc (count_pushed w set cs) else count_pushed w set cs

-- The push of the prepared set to every cache, and the answer of the run.
abbrev pub push_all : CiWorld → RunSpec → ℕ → Outcome SetupError PreparedSet → Bool
push_all w spec builds_ok (failure e) = false
push_all w spec builds_ok (success set) =
    builds_ok == length spec.builds && count_pushed w set spec.caches == length spec.caches

abbrev pub config_of : RunSpec → Text → PrepareConfig
config_of spec key = record {
  compression = spec.compression;
  signing_key = key;
  cache_urls = spec.upstream_caches;
  keep_files = false;
}

-- The run behind the filter of the roots.
abbrev pub push_roots : CiWorld → RunSpec → Text → ℕ → Option (List Text × ℕ) → Bool
push_roots w spec key builds_ok none = false
push_roots w spec key builds_ok (some ([], skipped)) = builds_ok == length spec.builds
push_roots w spec key builds_ok (some (p ∷ ps, skipped)) =
    push_all w spec builds_ok (prepare_set w.setup (p ∷ ps) (config_of spec key))

-- The run behind the builds.
abbrev pub after_builds : CiWorld → RunSpec → Text → ℕ → List Text → Bool
after_builds w spec key builds_ok [] = false
after_builds w spec key builds_ok (p ∷ ps) =
    push_roots w spec key builds_ok (filter_roots w.checker (p ∷ ps))

-- The run from the proxy on, which is stopped behind the builds.
unfoldable pub run_builds : CiWorld → RunSpec → Text → Bool
unfolding build_all dedup_paths filter_roots prepare_set count_pushed
run_builds w spec key =
    let (builds_ok, union) = build_all w.nix_build spec.builds in
    if w.proxy_starts then after_builds w spec key builds_ok (dedup_paths union) else false

-- `Run`: its answer, or none where it would index an empty list of caches.
abbrev pub with_auth : CiWorld → RunSpec → Text → Option (Text × Text) → Bool
with_auth w spec key none = false
with_auth w spec key (some auth) = run_builds w spec key

abbrev pub with_primary : CiWorld → RunSpec → Text → List CacheSpec → Option Bool
with_primary w spec key [] = none
with_primary w spec key (primary ∷ others) =
    some (with_auth w spec key (resolve_auth w.environment primary.registry))

abbrev pub with_key_path : CiWorld → RunSpec → Option Text → Option Bool
with_key_path w spec none = some false
with_key_path w spec (some key) = with_primary w spec key spec.caches

-- A list of builds that has become empty is a success.
abbrev pub with_builds : CiWorld → RunSpec → List Text → Option Bool
with_builds w spec [] = some true
with_builds w spec (b ∷ bs) = with_key_path w spec (w.key_path spec.signing_key)

unfoldable pub run : CiWorld → RunSpec → Option Bool
unfolding run_builds resolve_auth
run w spec = with_builds w spec spec.builds
