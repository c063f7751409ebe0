-- ===== src/Tests.antt =====
-- Concrete inputs on which the theorems are applied: a batch of two roots of pkg/prepare/prepare,
-- and the results that are uploaded of it.
mod PrepareTests
mod PushTests
mod UploadTests
mod UpstreamTests
mod CiTests
mod NarinfoTests
mod SigningTests
mod SecretsTests
mod WriteTests
mod ProxyTests
mod HashTests
mod SigningKeyTests
mod AuthTests
use aeroflare.Base.{
  true, false, Option, none, some, List, [], ◌∷◌, if◌then◌else◌, ◌==◌, Text, codes, dir, text_eq,
}
use aeroflare.Push.Upload.{Host}
use aeroflare.Push.Prepared.{Setup}
use aeroflare.Prepare.Refs.{Config, Env}
use aeroflare.Prepare.Tree.{Info, Result, result, nil, cons}
use aeroflare.Backend.{PushReceipt}
use aeroflare.Prepare.Store.{PathInfo}

abbrev pub path_a : Text
path_a = codes "/s/a-x"

abbrev pub path_b : Text
path_b = codes "/s/b-y"

abbrev pub path_c : Text
path_c = codes "/s/c-z"

abbrev info_with : Text → List Text → PathInfo
info_with p references = record {
  path = p;
  hash = [];
  name = [];
  references = references;
  deriver = [];
  system = [];
}

-- `a` refers to `b`, `b` to itself and to `c`, `c` to nothing.
abbrev pub three_infos : Text → Option PathInfo
three_infos p =
    if p == path_a
    then some (info_with path_a (path_b ∷ []))
    else if p == path_b
    then some (info_with path_b (path_b ∷ path_c ∷ []))
    else if p == path_c
    then some (info_with path_c [])
    else none

abbrev pub three_paths : Env
three_paths = record {
  get_path_info = three_infos;
  exists_batch = λ urls hashes. [];
  write_nar = λ p found. some (p, p);
}

abbrev pub follow : Config
follow = record { cache_urls = []; prepare_missing_refs = true; is_signing = false }

abbrev pub info_of : Text → Text → List Text → Info
info_of p hash references = record {
  store_path = p;
  hash = hash;
  nar_path = p;
  narinfo_path = p;
  references = references;
  missing_refs = references;
  signed = false;
}

abbrev pub result_c : Result
result_c = result (info_of path_c [] []) nil

abbrev pub result_b : Result
result_b = result (info_of path_b [] (path_b ∷ path_c ∷ [])) (cons result_c nil)

-- A batch of `a` and `b`: neither has the other in its tree.
abbrev pub batch_results : List Result
batch_results = result (info_of path_a [] (path_b ∷ [])) nil ∷ result_b ∷ []

abbrev pub test_receipt : Text → PushReceipt
test_receipt p = record {
  store_path = p;
  narinfo_path = p;
  nar_digest = [];
  nar_size = 1;
  nar_path = p;
  compression = codes "zstd";
  is_root = true;
}

-- A system on which every command succeeds, and files whose upload succeeds.
abbrev pub test_setup : Setup
test_setup = record {
  load_private_key = λ path. true;
  mkdir_temp = some (codes "/t");
  env = λ dir kind. three_paths;
  fuel = 5;
}

abbrev pub test_host : Host
test_host = record {
  stat = λ path. some 7;
  read_file = λ path. some (codes "Compression: zstd\n");
  new_layer = λ layer. some (codes "sha256:d");
  push_layer = λ layer. true;
}
