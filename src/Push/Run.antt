-- ===== src/Push/Run.antt =====
-- `RunPushTo` of pkg/push/push.go: the paths that the upstream cache holds are left out, and the
-- others are prepared, uploaded and indexed in chunks.
pub mod Chunks
pub mod Sound
use aeroflare.Base.{
  ℕ, zero, suc, ◌+◌, ◌-◌, Bool, true, false, ◌&&◌, Option, none, some, List, [], ◌∷◌, ◌++◌, ltb,
  if◌then◌else◌, ◌==◌, length, take, drop, Text, cut, dir, base, Dict, ◌>>=◌, Outcome, success,
  failure, text_eq, nat_eq,
}
use aeroflare.Push.Upload.{upload_task_set, Uploads}
use aeroflare.Push.Complete.{complete_receipts}
use aeroflare.Prepare.Tree.{forest, Result, Results}
use aeroflare.Compress.{parse_type, CompressionType}
use aeroflare.Backend.{PushReceipt}
use aeroflare.Push.Prepared.{
  Setup, Target, load_key, prepare_paths, count_roots, SetupError, PushResult,
}
use aeroflare.Push.Tasks.{PreparedTask, flatten_tasks}
use aeroflare.Prepare.Refs.{is_upstream, Config, Env, PrepareError}

-- The hash that the upstream cache is asked for: the base name before its first dash.
abbrev pub hash_of : Text → Option Text
hash_of p = elim (cut b'-' (base p)) [ none ↦ none | some (hash, name) ↦ some hash ]

unfoldable pub hashes_of : List Text → List Text
hashes_of [] = []
hashes_of (p ∷ ps) = elim (hash_of p) [ none ↦ hashes_of ps | some h ↦ h ∷ hashes_of ps ]

-- `len(parts) >= 2 && existsMap[parts[0]]`.
unfoldable pub held_upstream : Dict Text Bool → Text → Bool
held_upstream exists p = elim (hash_of p) [ none ↦ false | some h ↦ is_upstream exists h ]

unfoldable pub truly_filtered : Dict Text Bool → List Text → List Text
truly_filtered exists [] = []
truly_filtered exists (p ∷ ps) =
    let rest = truly_filtered exists ps in if held_upstream exists p then rest else p ∷ rest

-- `PushConfig`, of which the plan is made: `Preflight` copies the paths.
pub record PushConfig : Type 0 where
  pub target_paths : List Text
  pub force_push : Bool
  pub cache_url : Text
  pub compression : Text
  pub signing_key : Text
  pub prepare_refs : Bool

-- What a run asks of the system and of the registry. The query of the upstream cache may fail.
-- `schedule` is the order in which the uploads of a chunk end.
pub record World : Type 0 where
  pub setup : Setup
  pub exists_batch : List Text → Option (Dict Text Bool)
  pub target : Target
  pub schedule : List PreparedTask → List PreparedTask

abbrev filter_found : Option (Dict Text Bool) → List Text → List Text
filter_found none paths = paths
filter_found (some exists) paths = truly_filtered exists paths

-- The paths to push: with a cache and without force, those that the cache does not hold.
abbrev filter_with : World → Bool → Text → List Text → List Text
filter_with w force_push [] paths = paths
filter_with w true (c ∷ url) paths = paths
filter_with w false (c ∷ url) paths = filter_found (w.exists_batch (hashes_of paths)) paths

unfoldable pub filter_paths : World → PushConfig → List Text
unfolding hashes_of truly_filtered
filter_paths w cfg = filter_with w cfg.force_push cfg.cache_url cfg.target_paths

abbrev pub chunk_size : ℕ
chunk_size = 100

-- `filteredPaths[i:end]` for i = 0, 100, 200 and so on below the length.
unfoldable pub chunks : ℕ → List Text → List (List Text)
chunks zero paths = []
chunks (suc fuel) [] = []
chunks (suc fuel) (p ∷ ps) = take chunk_size (p ∷ ps) ∷ chunks fuel (drop chunk_size (p ∷ ps))

-- The variables of the loop over the chunks.
pub record RunState : Type 0 where
  pub total_uploaded : ℕ
  pub total_receipts : List PushReceipt
  pub failed_paths : List Text
  pub excluded_paths : List Text

pub data RunError : Type 0 where
  no_auth bad_compression bad_key no_output_dir pusher_failed all_failed not_indexed some_failed :
      RunError
  preparation_failed : PrepareError → RunError

-- An error ends the run; the receipts that the backend was given stay with it.
abbrev pub Stop : Type 0
Stop = RunError × List PushReceipt

-- `len(chunkFailed) == len(tasks) && len(tasks) > 0`.
abbrev pub every_upload_failed : Uploads → List PreparedTask → Bool
every_upload_failed out tasks = length out.failed == length tasks && ltb 0 (length tasks)

abbrev add_chunk : RunState → Uploads → List PushReceipt → List Text → RunState
add_chunk s out receipts excluded = record {
  total_uploaded = s.total_uploaded + out.uploaded;
  total_receipts = s.total_receipts ++ receipts;
  failed_paths = s.failed_paths ++ out.failed;
  excluded_paths = s.excluded_paths ++ excluded;
}

-- A chunk from its complete receipts on.
unfoldable pub index_chunk :
    World → RunState → Uploads → List PushReceipt × List Text → Outcome Stop RunState
index_chunk w s out ([], excluded) = success (add_chunk s out [] excluded)
index_chunk w s out (r ∷ rs, excluded) =
    if w.target.push_receipts (r ∷ rs)
    then success (add_chunk s out (r ∷ rs) excluded)
    else failure (not_indexed, s.total_receipts ++ r ∷ rs)

-- A chunk from its uploads on.
unfoldable pub finish_chunk : World → RunState → Results → Uploads → Outcome Stop RunState
unfolding flatten_tasks complete_receipts index_chunk
finish_chunk w s results out =
    if every_upload_failed out (flatten_tasks results)
    then failure (all_failed, s.total_receipts)
    else index_chunk w s out (complete_receipts out.receipts_by_path results)

-- A chunk from its results on.
unfoldable pub upload_chunk : World → RunState → List Result → Outcome Stop RunState
unfolding upload_task_set finish_chunk
upload_chunk w s results =
    let out = upload_task_set w.target.host (w.schedule (flatten_tasks (forest results))) in
    if w.target.has_pusher
    then finish_chunk w s (forest results) out
    else failure (pusher_failed, s.total_receipts)

abbrev or_stop : {A : Type 0} → RunState → Outcome PrepareError A → Outcome Stop A
or_stop s (success a) = success a
or_stop s (failure e) = failure (preparation_failed e, s.total_receipts)

-- One round of the loop.
unfoldable pub run_chunk : World → Env → Config → List Text → RunState → Outcome Stop RunState
unfolding prepare_paths upload_chunk
run_chunk w env cfg chunk s =
    or_stop s (prepare_paths w.setup.fuel env cfg chunk) >>= upload_chunk w s

unfoldable pub run_chunks :
    World → Env → Config → List (List Text) → RunState → Outcome Stop RunState
unfolding run_chunk
run_chunks w env cfg [] s = success s
run_chunks w env cfg (c ∷ cs) s = run_chunk w env cfg c s >>= run_chunks w env cfg cs

-- What a run returns, and the receipts that the backend was given.
pub record RunReturn : Type 0 where
  pub result : Option PushResult
  pub error : Option RunError
  pub published : List PushReceipt

abbrev pub empty_state : RunState
empty_state = record {
  total_uploaded = 0;
  total_receipts = [];
  failed_paths = [];
  excluded_paths = [];
}

abbrev some_failed_error : List Text → Option RunError
some_failed_error [] = none
some_failed_error (p ∷ ps) = some some_failed

-- The end of `RunPushTo` behind the loop.
unfoldable pub report : ℕ → Outcome Stop RunState → RunReturn
unfolding count_roots
report skipped (failure (e, published)) = record {
  result = none;
  error = some e;
  published = published;
}
report skipped (success s) = record {
  result = some (record {
    uploaded = s.total_uploaded;
    skipped_upstream = skipped;
    roots = count_roots s.total_receipts;
    failed = s.failed_paths;
  });
  error = some_failed_error s.failed_paths;
  published = s.total_receipts;
}

-- `if len(filteredPaths) == 0`, else the loop: the empty result does not tell what was skipped.
unfoldable pub push_filtered : World → Env → Config → ℕ → List Text → RunReturn
unfolding chunks run_chunks report
push_filtered w env cfg skipped [] = record {
  result = some (record { uploaded = 0; skipped_upstream = 0; roots = 0; failed = [] });
  error = none;
  published = [];
}
push_filtered w env cfg skipped (p ∷ ps) =
    report skipped (run_chunks w env cfg (chunks (length (p ∷ ps)) (p ∷ ps)) empty_state)

abbrev upstream_urls : Text → List Text
upstream_urls [] = []
upstream_urls (c ∷ url) = (c ∷ url) ∷ []

-- `RunPushTo` behind the checks of its configuration.
unfoldable pub run_with : World → PushConfig → CompressionType → Bool → Text → RunReturn
unfolding filter_paths push_filtered
run_with w cfg kind signs dir =
    let paths = filter_paths w cfg in
    push_filtered w (w.setup.env dir kind)
      (record {
        cache_urls = upstream_urls cfg.cache_url;
        prepare_missing_refs = cfg.prepare_refs;
        is_signing = signs;
      })
      (length cfg.target_paths - length paths) paths

abbrev ended : RunError → RunReturn
ended e = record { result = none; error = some e; published = [] }

abbrev in_directory : World → PushConfig → CompressionType → Bool → Option Text → RunReturn
in_directory w cfg kind signs none = ended no_output_dir
in_directory w cfg kind signs (some dir) = run_with w cfg kind signs dir

abbrev with_key : World → PushConfig → CompressionType → Outcome SetupError Bool → RunReturn
with_key w cfg kind (failure e) = ended bad_key
with_key w cfg kind (success signs) = in_directory w cfg kind signs w.setup.mkdir_temp

abbrev compressed : World → PushConfig → Option CompressionType → RunReturn
compressed w cfg none = ended bad_compression
compressed w cfg (some kind) = with_key w cfg kind (load_key w.setup cfg.signing_key)

-- `RunPushTo`.
unfoldable pub run_push_to : World → PushConfig → RunReturn
unfolding run_with parse_type
run_push_to w cfg =
    if w.target.has_auth then compressed w cfg (parse_type cfg.compression) else ended no_auth
