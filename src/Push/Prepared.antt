-- ===== src/Push/Prepared.antt =====
-- `Prepare`, `PreparedSet` and `PushTo` of pkg/push/prepared.go.
pub mod Sound
pub mod Whole
use aeroflare.Base.{
  ℕ, suc, Bool, true, false, Option, none, some, List, [], ◌∷◌, if◌then◌else◌, Text, dir, ◌>>=◌,
  or_fail, Outcome, success, failure, text_eq,
}
use aeroflare.Push.Upload.{upload_task_set, Host, Uploads}
use aeroflare.Push.Complete.{complete_receipts}
use aeroflare.Push.Tasks.{flatten_tasks, PreparedTask}
use aeroflare.Prepare.Refs.{Config, Env, PrepareError}
use aeroflare.Prepare.Batch.{prepare, prepare_batch}
use aeroflare.Prepare.Tree.{forest, Result}
use aeroflare.Backend.{PushReceipt}
use aeroflare.Compress.{CompressionType, parse_type}

-- `PrepareConfig`.
pub record PrepareConfig : Type 0 where
  pub compression : Text
  pub signing_key : Text
  pub cache_urls : List Text
  pub keep_files : Bool

-- What `Prepare` asks of the system: whether a key file loads, a new directory, and the commands
-- that prepare files in it. `fuel` bounds the levels of references.
pub record Setup : Type 0 where
  pub load_private_key : Text → Bool
  pub mkdir_temp : Option Text
  pub env : Text → CompressionType → Env
  pub fuel : ℕ

pub data SetupError : Type 0 where
  unknown_compression key_not_loaded no_directory : SetupError
  not_prepared : PrepareError → SetupError

-- `PreparedSet`.
pub record PreparedSet : Type 0 where
  pub results : List Result
  pub tasks : List PreparedTask
  pub output_dir : Text
  pub keep : Bool
  pub signing_key : Text

-- `if cfg.SigningKey != ""`.
abbrev pub load_key : Setup → Text → Outcome SetupError Bool
load_key setup [] = success false
load_key setup (c ∷ path) =
    if setup.load_private_key (c ∷ path) then success true else failure key_not_loaded

-- The call of `prepare.Prepare` for one path and of `PrepareBatch` for any other number, as
-- `RunPushTo` makes it for a chunk too.
unfoldable pub prepare_paths : ℕ → Env → Config → List Text → Outcome PrepareError (List Result)
unfolding prepare prepare_batch
prepare_paths fuel env cfg (path ∷ []) = prepare fuel env cfg path >>= λ r. success (r ∷ [])
prepare_paths fuel env cfg paths = prepare_batch fuel env cfg paths

abbrev pub lift_prepare : {A : Type 0} → Outcome PrepareError A → Outcome SetupError A
lift_prepare (success a) = success a
lift_prepare (failure e) = failure (not_prepared e)

abbrev pub made_set : PrepareConfig → Text → List Result → PreparedSet
made_set cfg dir results = record {
  results = results;
  tasks = flatten_tasks (forest results);
  output_dir = dir;
  keep = cfg.keep_files;
  signing_key = cfg.signing_key;
}

-- `Prepare` behind the directory, behind the key, and whole.
unfoldable pub set_in :
    Setup
    → List Text
    → PrepareConfig
    → CompressionType
    → Bool
    → Text
    → Outcome SetupError PreparedSet
unfolding prepare_paths
set_in setup paths cfg compression signs dir =
    lift_prepare (
      prepare_paths setup.fuel (setup.env dir compression)
        (record { cache_urls = cfg.cache_urls; prepare_missing_refs = true; is_signing = signs })
        paths)
    >>= λ results. success (made_set cfg dir results)

unfoldable pub set_with_key :
    Setup → List Text → PrepareConfig → CompressionType → Bool → Outcome SetupError PreparedSet
unfolding set_in
set_with_key setup paths cfg compression signs =
    or_fail no_directory setup.mkdir_temp >>= set_in setup paths cfg compression signs

unfoldable pub set_compressed :
    Setup → List Text → PrepareConfig → CompressionType → Outcome SetupError PreparedSet
unfolding set_with_key
set_compressed setup paths cfg compression =
    load_key setup cfg.signing_key >>= set_with_key setup paths cfg compression

unfoldable pub prepare_set : Setup → List Text → PrepareConfig → Outcome SetupError PreparedSet
unfolding parse_type set_compressed
prepare_set setup paths cfg =
    or_fail unknown_compression (parse_type cfg.compression) >>= set_compressed setup paths cfg

-- `PushResult`.
pub record PushResult : Type 0 where
  pub uploaded : ℕ
  pub skipped_upstream : ℕ
  pub roots : ℕ
  pub failed : List Text

pub data PushError : Type 0 where
  no_credential no_pusher backend_failed uploads_failed : PushError

-- The registry of a target: its files and uploads, whether `oci.NewLayerPusher` gives a pusher,
-- and whether `PushReceipts` succeeds.
pub record Target : Type 0 where
  pub has_auth : Bool
  pub has_pusher : Bool
  pub host : Host
  pub push_receipts : List PushReceipt → Bool

-- What a push returns, and the receipts that it gave to the backend.
pub record Pushed : Type 0 where
  pub result : Option PushResult
  pub error : Option PushError
  pub published : List PushReceipt

unfoldable pub count_roots : List PushReceipt → ℕ
count_roots [] = 0
count_roots (r ∷ rs) = if r.is_root then suc (count_roots rs) else count_roots rs

-- `if len(out.failed) > 0`.
abbrev pub failed_error : List Text → Option PushError
failed_error [] = none
failed_error (p ∷ ps) = some uploads_failed

abbrev stopped : PushError → List PushReceipt → Pushed
stopped e published = record { result = none; error = some e; published = published }

-- `PushTo` behind the call of `completeReceipts`.
unfoldable pub publish : Target → Uploads → List PushReceipt → Pushed
unfolding count_roots
publish target out [] = record {
  result =
      some
        (record { uploaded = out.uploaded; skipped_upstream = 0; roots = 0; failed = out.failed });
  error = failed_error out.failed;
  published = [];
}
publish target out (r ∷ rs) =
    if target.push_receipts (r ∷ rs)
    then (record {
      result = some (record {
        uploaded = out.uploaded;
        skipped_upstream = 0;
        roots = count_roots (r ∷ rs);
        failed = out.failed;
      });
      error = failed_error out.failed;
      published = r ∷ rs;
    })
    else stopped backend_failed (r ∷ rs)

-- The two errors of `PushTo` before an upload.
unfoldable pub push_checked : Bool → Bool → Pushed → Pushed
push_checked false has_pusher pushed = stopped no_credential []
push_checked true false pushed = stopped no_pusher []
push_checked true true pushed = pushed

-- `PushTo`, where `order` is the order in which the tasks of the set end.
unfoldable pub push_to : PreparedSet → Target → List PreparedTask → Pushed
unfolding upload_task_set complete_receipts push_checked publish
push_to set target order =
    let out = upload_task_set target.host order in
    push_checked target.has_auth target.has_pusher
      (publish target out (complete_receipts out.receipts_by_path (forest set.results)).0)
