-- ===== src/Push/Upload.antt =====
-- `uploadTaskSet` of pkg/push/prepared.go. The files and the registry are the environment. The
-- tasks run at the same time and each writes its answer under a lock, so a run is the tasks in the
-- order in which they take the lock.
pub mod Answers
use aeroflare.Base.{
  ℕ, ◌+◌, Bool, Option, List, [], ◌∷◌, ◌++◌, if◌then◌else◌, Text, codes, insert, ◌>>=◌, or_fail,
  Outcome, success, failure, text_eq,
}
use aeroflare.Push.Tasks.{PreparedTask}
use aeroflare.Push.Complete.{Receipts}
use aeroflare.Prepare.Tree.{info, path_of, size, Result}
use aeroflare.Narinfo.{parse, Narinfo}
use aeroflare.Backend.{PushReceipt}

-- `Stage`: what `fail` is called with.
pub data Stage : Type 0 where
  stat_nar read_narinfo parse_narinfo create_layer send_layer : Stage

-- The layer of an archive, as `oci.NewLayerFast` is asked for it.
pub record Layer : Type 0 where
  pub nar_path : Text
  pub media_type : Text
  pub narinfo : Narinfo

pub record Host : Type 0 where
  -- `os.Stat`: the size of a file.
  pub stat : Text → Option ℕ
  pub read_file : Text → Option Text
  -- `oci.NewLayerFast`: the digest of the archive.
  pub new_layer : Layer → Option Text
  -- `pusher.Upload`.
  pub push_layer : Layer → Bool

abbrev pub layer_of : Result → Narinfo → Layer
layer_of r ni = record {
  nar_path = (info r).nar_path;
  media_type = codes "application/vnd.aeroflare.nar.v1+" ++ ni.compression;
  narinfo = ni;
}

-- The call of `pusher.Upload`, and the receipt.
unfoldable pub push_and_sign : Host → PreparedTask → ℕ → Narinfo → Text → Outcome Stage PushReceipt
push_and_sign host t size ni digest =
    if host.push_layer (layer_of t.r ni)
    then success (record {
      store_path = path_of t.r;
      narinfo_path = (info t.r).narinfo_path;
      nar_digest = digest;
      nar_size = size;
      nar_path = (info t.r).nar_path;
      compression = ni.compression;
      is_root = t.is_root;
    })
    else failure send_layer

-- The body of a task from the layer on, from the content of the narinfo on, and from its reading on.
unfoldable pub create_and_push : Host → PreparedTask → ℕ → Narinfo → Outcome Stage PushReceipt
unfolding push_and_sign
create_and_push host t size ni =
    or_fail create_layer (host.new_layer (layer_of t.r ni)) >>= push_and_sign host t size ni

unfoldable pub parse_and_push : Host → PreparedTask → ℕ → Text → Outcome Stage PushReceipt
unfolding create_and_push
parse_and_push host t size content =
    or_fail parse_narinfo (parse content) >>= create_and_push host t size

unfoldable pub read_and_push : Host → PreparedTask → ℕ → Outcome Stage PushReceipt
unfolding parse_and_push
read_and_push host t size =
    or_fail read_narinfo (host.read_file (info t.r).narinfo_path) >>= parse_and_push host t size

-- The body of a task.
unfoldable pub upload : Host → PreparedTask → Outcome Stage PushReceipt
unfolding read_and_push
upload host t = or_fail stat_nar (host.stat (info t.r).nar_path) >>= read_and_push host t

-- `uploadOutcome`.
pub record Uploads : Type 0 where
  pub receipts_by_path : Receipts
  pub failed : List Text
  pub uploaded : ℕ

-- What a task writes under the lock.
abbrev pub record_upload : Text → Outcome Stage PushReceipt → Uploads → Uploads
record_upload p (success receipt) s = record {
  receipts_by_path = insert p receipt s.receipts_by_path;
  failed = s.failed;
  uploaded = s.uploaded + 1;
}
record_upload p (failure stage) s = record s { failed = s.failed ++ p ∷ [] }

unfoldable pub upload_from : Host → List PreparedTask → Uploads → Uploads
unfolding upload
upload_from host [] s = s
upload_from host (t ∷ ts) s = upload_from host ts (record_upload (path_of t.r) (upload host t) s)

-- `uploadTaskSet`, on the tasks in the order in which they end.
unfoldable pub upload_task_set : Host → List PreparedTask → Uploads
unfolding upload_from
upload_task_set host order =
    upload_from host order (record { receipts_by_path = []; failed = []; uploaded = 0 })
