-- ===== src/Tests/SigningKeyTests.antt =====
-- The theorem of Ci/SigningKey on files that are a set of paths, where nothing can be written.
use aeroflare.Base.{
  ◌≡◌, refl, Bool, true, false, Option, none, some, if◌then◌else◌, ◌==◌, Text, codes, failure,
  nat_eq, text_eq,
}
use aeroflare.Ci.SigningKey.{resolve_signing_key, KeyFiles, temp_file_failed}

abbrev temp_name : Text
temp_name = codes "/tmp/key"

with_path : (Text → Bool) → Text → Bool → Text → Bool
with_path f name here path = if path == name then here else f path

abbrev temp_or_none : (Text → Bool) → Bool → Option (Text × (Text → Bool))
temp_or_none f true = none
temp_or_none f false = some (temp_name, with_path f temp_name true)

new_temp : (Text → Bool) → Option (Text × (Text → Bool))
new_temp f = temp_or_none f (f temp_name)

full_disk : KeyFiles (Text → Bool)
full_disk = record {
  create_temp = new_temp;
  chmod = λ f name. (true, f);
  write_string = λ f name text. (false, f);
  close_file = λ f name. (true, f);
  remove_file = λ f name. with_path f name false;
  stat_file = λ f path. f path;
}

key_variable : Text → Option Text
key_variable name = some (codes "cache-1:AAAA")

-- The key was to be written, and could not be.
not_written :
    (resolve_signing_key full_disk key_variable (λ path. false) (codes "CACHE_KEY")).0
    ≡ failure temp_file_failed
unfolding resolve_signing_key full_disk key_variable new_temp
not_written = refl
