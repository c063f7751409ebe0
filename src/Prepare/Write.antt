-- ===== src/Prepare/Write.antt =====
-- `writeNarAndNarinfo` of pkg/prepare/prepare/prepare.go: the two files of a store path. The files,
-- the dump of a path, the compression libraries and crypto/sha256 are the environment.
pub mod Signed
pub mod Described
use aeroflare.Base.{
  Bool, Option, none, some, List, [], ◌∷◌, ◌++◌, map, if◌then◌else◌, ◌==◌, length, Text, codes, dir,
  base, nat_eq, text_eq,
}
use aeroflare.Prepare.Store.{PathInfo}
use aeroflare.Compress.{CompressionType, type_name, extension}
use aeroflare.Signing.{Suite, PrivateKey, sign_narinfo}
use aeroflare.Narinfo.{Narinfo, to_string}
use aeroflare.Hash.{encode_base32}
use aeroflare.Decimal.{pos}

-- What `nix-store --dump` sends: blocks of bytes, then the end or an error.
pub record Dump : Type 0 where
  pub blocks : List Text
  pub ends : Bool

pub record Files : Type 0 where
  pub make_dir : Text → Bool
  pub create_file : Text → Bool
  pub dump : Text → Option Dump
  -- The compressed blocks, or an error of the writer.
  pub compress : CompressionType → List Text → Option Text
  pub sha256 : Text → Text
  pub write_file : Text → Text → Bool

-- The part of `Config` that is read here.
pub record WriteConfig : Type 0 where
  pub output_dir : Text
  pub compression : CompressionType
  pub signing_key : Option PrivateKey

-- The two paths that are returned, and what stands in the files.
pub record Written : Type 0 where
  pub nar_path : Text
  pub nar_file : Text
  pub narinfo_path : Text
  pub narinfo_file : Text
  pub narinfo : Narinfo

-- filepath.Join of a directory that is clean and a name.
abbrev pub join_path : Text → Text → Text
join_path [] name = name
join_path (c ∷ dir) name = (c ∷ dir) ++ (b'/' ∷ name)

unfoldable pub joined_blocks : List Text → Text
joined_blocks [] = []
joined_blocks (block ∷ blocks) = block ++ joined_blocks blocks

abbrev pub nar_file_name : Text → CompressionType → Text
nar_file_name hash t = hash ++ (b'.' ∷ extension t)

abbrev pub deriver_of : Text → Text
deriver_of deriver =
    if deriver == [] then [] else if deriver == codes "unknown-deriver" then [] else base deriver

abbrev pub hash_text : Files → Text → Text
hash_text files bytes = codes "sha256:" ++ encode_base32 (files.sha256 bytes)

-- The narinfo before it is signed.
unfoldable pub unsigned_narinfo :
    Files → WriteConfig → Text → Text → PathInfo → Text → Text → Narinfo
unfolding encode_base32 type_name extension base
unsigned_narinfo files cfg path hash found nar packed = record {
  store_path = path;
  url = codes "nar/" ++ nar_file_name hash cfg.compression;
  compression = type_name cfg.compression;
  file_hash = hash_text files packed;
  file_size = pos (length packed);
  nar_hash = hash_text files nar;
  nar_size = pos (length nar);
  references = map base found.references;
  deriver = deriver_of found.deriver;
  system = found.system;
  sig = [];
}

abbrev pub signed_with : Suite → Option PrivateKey → Narinfo → Narinfo
signed_with suite none ni = ni
signed_with suite (some key) ni = record ni {
  sig = sign_narinfo suite key ni.store_path ni.nar_hash ni.nar_size ni.references;
}

module _ (files : Files) (suite : Suite) (cfg : WriteConfig) where
  abbrev pub write_narinfo : Text → Text → Narinfo → Option Written
  write_narinfo hash packed ni =
      let narinfo_path = join_path cfg.output_dir (hash ++ codes ".narinfo") in
      if files.write_file narinfo_path (to_string ni)
      then some (record {
        nar_path = join_path cfg.output_dir (nar_file_name hash cfg.compression);
        nar_file = packed;
        narinfo_path = narinfo_path;
        narinfo_file = to_string ni;
        narinfo = ni;
      })
      else none

  abbrev pub write_packed : Text → Text → PathInfo → Text → Option Text → Option Written
  write_packed path hash found nar none = none
  write_packed path hash found nar (some packed) =
      write_narinfo hash packed
        (signed_with suite cfg.signing_key (unsigned_narinfo files cfg path hash found nar packed))

  abbrev pub write_dump : Text → Text → PathInfo → Option Dump → Option Written
  write_dump path hash found none = none
  write_dump path hash found (some stream) =
      if stream.ends
      then write_packed path hash found (joined_blocks stream.blocks)
          (files.compress cfg.compression stream.blocks)
      else none

  -- `writeNarAndNarinfo`: `none` is its error.
  unfoldable pub write_nar_and_narinfo : Text → Text → PathInfo → Option Written
  unfolding unsigned_narinfo sign_narinfo to_string joined_blocks
  write_nar_and_narinfo path hash found =
      if files.make_dir cfg.output_dir
      then if files.create_file (join_path cfg.output_dir (nar_file_name hash cfg.compression))
        then write_dump path hash found (files.dump path)
        else none
      else none
