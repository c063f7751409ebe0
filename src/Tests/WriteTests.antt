-- ===== src/Tests/WriteTests.antt =====
-- A store path whose NAR and narinfo are written.
use aeroflare.Base.{
  ◌≡◌, refl, true, some, [], ◌∷◌, arith, text_beq, Text, codes, is_space, trim_left, trim_right,
  join, base, IsTrimmed, text_eq, nat_eq,
}
use aeroflare.Oci.Metadata.{IsPublishable}
use aeroflare.Narinfo.RoundTrip.{is_clean, clean_IsValue, IsWellFormed}
use aeroflare.Tests.NarinfoTests.{has_no_space, no_space_All}
use aeroflare.Tests.SigningTests.{raise, toy, test_key}
use aeroflare.Hash.{encode_base32}
use aeroflare.Signing.{fingerprint, sign_narinfo}
use aeroflare.Decimal.{pos}
use aeroflare.Compress.{zstd}
use aeroflare.Narinfo.{Narinfo, to_string, drop_cr}
use aeroflare.Prepare.Write.{Files, write_nar_and_narinfo, WriteConfig, Written}
use aeroflare.Prepare.Store.{PathInfo}

-- A NAR of two blocks. The hash of anything is the same 32 bytes.
abbrev pub toy_files : Files
toy_files = record {
  make_dir = λ d. true;
  create_file = λ path. true;
  dump = λ path. some (record { blocks = codes "nar" ∷ codes "hello" ∷ []; ends = true });
  compress = λ t blocks. some (codes "packed");
  sha256 = λ bytes. codes "0123456789abcdef0123456789abcdef";
  write_file = λ path content. true;
}

abbrev pub toy_config : WriteConfig
toy_config = record { output_dir = codes "/out"; compression = zstd; signing_key = some test_key }

abbrev pub hello_path : Text
hello_path = codes "/nix/store/aaa-hello"

abbrev pub hello_info : PathInfo
hello_info = record {
  path = hello_path;
  hash = codes "aaa";
  name = codes "hello";
  references = codes "/nix/store/aaa-hello" ∷ codes "/nix/store/bbb-glibc" ∷ [];
  deriver = codes "unknown-deriver";
  system = codes "x86_64-linux";
}

abbrev pub hello_hash : Text
hello_hash = codes "sha256:0rk5ciin4q9r70vkcd9l6cr32c36cmj66qk174w3fdim6hrk4c9h"

abbrev pub hello_narinfo : Narinfo
hello_narinfo = record {
  store_path = hello_path;
  url = codes "nar/aaa.nar.zst";
  compression = codes "zstd";
  file_hash = hello_hash;
  file_size = pos 6;
  nar_hash = hello_hash;
  nar_size = pos 8;
  references = codes "aaa-hello" ∷ codes "bbb-glibc" ∷ [];
  deriver = [];
  system = codes "x86_64-linux";
  sig =
      sign_narinfo toy test_key hello_path hello_hash (pos 8)
        (codes "aaa-hello" ∷ codes "bbb-glibc" ∷ []);
}

abbrev pub hello_written : Written
hello_written = record {
  nar_path = codes "/out/aaa.nar.zst";
  nar_file = codes "packed";
  narinfo_path = codes "/out/aaa.narinfo";
  narinfo_file = to_string hello_narinfo;
  narinfo = hello_narinfo;
}

pub hello_is_written :
    write_nar_and_narinfo toy_files toy toy_config hello_path (codes "aaa") hello_info
    ≡ some hello_written
unfolding write_nar_and_narinfo text_beq encode_base32 base
hello_is_written = refl

pub hello-IsWellFormed : IsWellFormed hello_narinfo
unfolding is_clean drop_cr join has_no_space is_space sign_narinfo raise fingerprint
hello-IsWellFormed = record {
  store_path = clean_IsValue hello_narinfo.store_path refl refl (omega arith);
  url = clean_IsValue hello_narinfo.url refl refl (omega arith);
  compression = clean_IsValue hello_narinfo.compression refl refl (omega arith);
  file_hash = clean_IsValue hello_narinfo.file_hash refl refl (omega arith);
  file_size = omega arith;
  nar_hash = clean_IsValue hello_narinfo.nar_hash refl refl (omega arith);
  nar_size = omega arith;
  words = (
    ((λ e. cc e), no_space_All (codes "aaa-hello") refl),
    (((λ e. cc e), no_space_All (codes "bbb-glibc") refl), tt),
  );
  references = clean_IsValue (join (codes " ") hello_narinfo.references) refl refl (omega arith);
  deriver = clean_IsValue [] refl refl (omega arith);
  system = clean_IsValue hello_narinfo.system refl refl (omega arith);
  sig = clean_IsValue hello_narinfo.sig refl refl (omega arith);
}

IsTrimmed-test : (s : Text) → trim_left is_space s ≡ s → trim_right is_space s ≡ s → IsTrimmed s
IsTrimmed-test s p q = record { front = p; end = q }

pub hello-IsPublishable : IsPublishable hello_narinfo
unfolding trim_left trim_right is_space join sign_narinfo raise
hello-IsPublishable = record {
  well_formed = hello-IsWellFormed;
  named = λ e. cc e;
  store_path = IsTrimmed-test _ refl refl;
  url = IsTrimmed-test _ refl refl;
  compression = IsTrimmed-test _ refl refl;
  file_hash = IsTrimmed-test _ refl refl;
  nar_hash = IsTrimmed-test _ refl refl;
  references = IsTrimmed-test _ refl refl;
  deriver = IsTrimmed-test _ refl refl;
  system = IsTrimmed-test _ refl refl;
  sig = IsTrimmed-test _ refl refl;
}
