-- ===== src/Ci/SigningKey/Tidy.antt =====
-- The temporary file of a signing key does not outlive its use.
use aeroflare.Base.{◌≡◌, ◌≢◌, false, some, Text, Outcome, success, failure, nat_eq, text_eq}
use aeroflare.Ci.SigningKey.{clean_up, KeyFiles, SigningKeyError, KeyFile}

-- What is relied on of the file system: a temporary file is new, a file that is removed is gone, and
-- no operation on a file makes or removes another.
pub record IsLocal {F : Type 0} (files : KeyFiles F) : Type 0 where
  pub create_temp-new :
      (f : F) (name : Text) (after : F)
      → files.create_temp f ≡ some (name, after)
      → files.stat_file f name ≡ false
  pub create_temp-other :
      (f : F) (name other : Text) (after : F)
      → files.create_temp f ≡ some (name, after)
      → other ≢ name
      → files.stat_file after other ≡ files.stat_file f other
  pub chmod-other :
      (f : F) (name other : Text)
      → other ≢ name
      → files.stat_file (files.chmod f name).1 other ≡ files.stat_file f other
  pub write_string-other :
      (f : F) (name text other : Text)
      → other ≢ name
      → files.stat_file (files.write_string f name text).1 other ≡ files.stat_file f other
  pub close_file-other :
      (f : F) (name other : Text)
      → other ≢ name
      → files.stat_file (files.close_file f name).1 other ≡ files.stat_file f other
  pub remove_file-self :
      (f : F) (name : Text) → files.stat_file (files.remove_file f name) name ≡ false
  pub remove_file-other :
      (f : F) (name other : Text)
      → other ≢ name
      → files.stat_file (files.remove_file f name) other ≡ files.stat_file f other

module _ {F : Type 0} (files : KeyFiles F) (sound : IsLocal files) where
  -- The files when the key was used: after an error at once, else after the cleanup.
  abbrev pub settled : Outcome SigningKeyError KeyFile × F → F
  settled (failure e, f) = f
  settled (success key, f) = clean_up files key.cleanup f

  -- A temporary file as it is worked on: what is not it is as it was at first.
  Differs : F → Text → F → Type 0
  Differs first name f =
      (other : Text) → other ≢ name → files.stat_file f other ≡ files.stat_file first other

  -- The files are as they were at first.
  IsRestored : F → F → Type 0
  IsRestored first f = (path : Text) → files.stat_file f path ≡ files.stat_file first path
