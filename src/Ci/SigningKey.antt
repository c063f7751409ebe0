-- ===== src/Ci/SigningKey.antt =====
-- internal/ci/signing.go: the file of the signing key. The file system is the record KeyFiles, whose
-- operations on an open file also close it where the source does.
pub mod Tidy
use aeroflare.Base.{
  Bool, true, false, Option, none, some, [], ◌∷◌, if◌then◌else◌, Text, Outcome, success, failure,
  nat_eq, text_eq,
}

pub record KeyFiles (F : Type 0) : Type 0 where
  pub create_temp : F → Option (Text × F)
  pub chmod : F → Text → Bool × F
  pub write_string : F → Text → Text → Bool × F
  pub close_file : F → Text → Bool × F
  pub remove_file : F → Text → F
  pub stat_file : F → Text → Bool

pub data SigningKeyError : Type 0 where
  no_temp_file temp_file_failed key_not_found : SigningKeyError

-- A path, and the file that the cleanup removes, if there is one.
pub record KeyFile : Type 0 where
  pub path : Text
  pub cleanup : Option Text

module _ {F : Type 0} (files : KeyFiles F) where
  -- A step on the temporary file: when it fails, the file is closed and removed.
  abbrev pub removed : Text → F → Outcome SigningKeyError KeyFile × F
  removed name f = (failure temp_file_failed, files.remove_file f name)

  abbrev pub after_close : Text → Bool × F → Outcome SigningKeyError KeyFile × F
  after_close name (false, f) = removed name f
  after_close name (true, f) = (success (record { path = name; cleanup = some name }), f)

  abbrev pub after_string : Text → Bool × F → Outcome SigningKeyError KeyFile × F
  after_string name (false, f) = removed name (files.close_file f name).1
  after_string name (true, f) = after_close name (files.close_file f name)

  abbrev pub after_chmod : Text → Text → Bool × F → Outcome SigningKeyError KeyFile × F
  after_chmod name material (false, f) = removed name (files.close_file f name).1
  after_chmod name material (true, f) = after_string name (files.write_string f name material)

  abbrev pub temp_key : F → Text → Option (Text × F) → Outcome SigningKeyError KeyFile × F
  temp_key f material none = (failure no_temp_file, f)
  temp_key f material (some (name, opened)) = after_chmod name material (files.chmod opened name)

  abbrev pub existing_key : F → Text → Outcome SigningKeyError KeyFile × F
  existing_key f setting =
      if files.stat_file f setting
      then (success (record { path = setting; cleanup = none }), f)
      else (failure key_not_found, f)

  -- The value of a variable that is set and not empty is a key.
  abbrev pub of_material : F → Text → Option Text → Outcome SigningKeyError KeyFile × F
  of_material f setting none = existing_key f setting
  of_material f setting (some []) = existing_key f setting
  of_material f setting (some (c ∷ material)) = temp_key f (c ∷ material) (files.create_temp f)

  -- `ResolveSigningKey`.
  unfoldable pub resolve_signing_key :
      (Text → Option Text) → F → Text → Outcome SigningKeyError KeyFile × F
  resolve_signing_key lookup_env f [] = (success (record { path = []; cleanup = none }), f)
  resolve_signing_key lookup_env f (c ∷ setting) =
      of_material f (c ∷ setting) (lookup_env (c ∷ setting))

  -- The cleanup.
  abbrev pub clean_up : Option Text → F → F
  clean_up none f = f
  clean_up (some name) f = files.remove_file f name
