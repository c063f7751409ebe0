-- ===== src/Secrets.antt =====
-- internal/secrets/manager.go: the keychain with its fallback file and the index of the keys.
pub mod Stored
pub mod Removed
use aeroflare.Base.{
  Bool, true, false, Option, none, some, List, [], ◌∷◌, ◌++◌, map, if◌then◌else◌, ◌==◌, contains,
  Text, codes, split, join, Dict, lookup, insert, delete, sort, or_fail, Outcome, success, failure,
  text_eq, nat_eq,
}

pub data ChainRead : Type 0 where
  found_value : Text → ChainRead
  not_found chain_refused : ChainRead

pub data FileRead : Type 0 where
  file_missing file_unreadable : FileRead
  file_contents : Text → FileRead

pub data ChainDelete (K : Type 0) : Type 0 where
  key_deleted : K → ChainDelete K
  was_absent not_deleted : ChainDelete K

-- The calls of the keychain, of the file system and of encoding/json. `write_file` makes the
-- temporary file and renames it, `keep_corrupt` renames a file that is no JSON.
pub record Host (K F : Type 0) : Type 0 where
  pub chain_get : K → Text → ChainRead
  pub chain_set : K → Text → Text → Option K
  pub chain_delete : K → Text → ChainDelete K
  pub read_file : F → FileRead
  pub keep_corrupt : F → F
  pub write_file : F → Text → Option F
  pub marshal : Dict Text Text → Text
  pub unmarshal : Text → Option (Dict Text Text)

-- `defaultManager`: `available` is the answer of the probe, which is asked once.
pub record Manager (K F : Type 0) : Type 0 where
  pub chain : K
  pub file : F
  pub available : Bool

pub data SecretError : Type 0 where
  chain_error file_error no_secret : SecretError

abbrev pub index_key : Text
index_key = codes "_keys_index"

abbrev pub probe_key : Text
probe_key = codes "_aeroflare_probe"

-- The keys of the index, each once.
abbrev pub add_key : Text → List Text → List Text
add_key [] keys = keys
add_key (c ∷ k) keys = if contains keys (c ∷ k) then keys else (c ∷ k) ∷ keys

unfoldable pub key_set : List Text → List Text
key_set [] = []
key_set (k ∷ ks) = add_key k (key_set ks)

unfoldable pub remove_key : Text → List Text → List Text
remove_key key [] = []
remove_key key (k ∷ ks) = let rest = remove_key key ks in if k == key then rest else k ∷ rest

module _ {K F : Type 0} (host : Host K F) where
  abbrev pub is_answer : ChainRead → Bool
  is_answer (found_value v) = true
  is_answer not_found = true
  is_answer chain_refused = false

  -- `keychainAvailable`.
  unfoldable pub new_manager : K → F → Manager K F
  new_manager k f = record {
    chain = k;
    file = f;
    available = is_answer (host.chain_get k probe_key);
  }

  abbrev pub decoded_map : F → Option (Dict Text Text) → Option (Dict Text Text) × F
  decoded_map f none = (some [], host.keep_corrupt f)
  decoded_map f (some stored) = (some stored, f)

  abbrev pub file_map : F → FileRead → Option (Dict Text Text) × F
  file_map f file_missing = (some [], f)
  file_map f file_unreadable = (none, f)
  file_map f (file_contents []) = (some [], f)
  file_map f (file_contents (c ∷ s)) = decoded_map f (host.unmarshal (c ∷ s))

  -- `readFallback`: the map, if the file can be read.
  unfoldable pub read_fallback : F → Option (Dict Text Text) × F
  read_fallback f = file_map f (host.read_file f)

  abbrev pub was_written : F → Option F → Bool × F
  was_written f none = (false, f)
  was_written f (some g) = (true, g)

  -- `writeFallbackMap`: whether it succeeded.
  unfoldable pub write_fallback_map : F → Dict Text Text → Bool × F
  write_fallback_map f stored = was_written f (host.write_file f (host.marshal stored))

  abbrev pub write_with : Text → Text → Option (Dict Text Text) × F → Bool × F
  write_with key value (none, f) = (false, f)
  write_with key value (some stored, f) = write_fallback_map f (insert key value stored)

  -- `writeFallback`.
  unfoldable pub write_fallback : F → Text → Text → Bool × F
  write_fallback f key value = write_with key value (read_fallback f)

  abbrev pub value_or_empty : Option Text → Text
  value_or_empty none = []
  value_or_empty (some v) = v

  abbrev pub raw_stored : Manager K F → Text → Option (Dict Text Text) × F → Text × Manager K F
  raw_stored m key (none, f) = ([], record m { file = f })
  raw_stored m key (some stored, f) = (value_or_empty (lookup key stored), record m { file = f })

  abbrev pub raw_of_chain : Manager K F → Text → ChainRead → Text × Manager K F
  raw_of_chain m key (found_value v) = (v, m)
  raw_of_chain m key not_found = raw_stored m key (read_fallback m.file)
  raw_of_chain m key chain_refused = ([], m)

  -- `getRaw`.
  unfoldable pub get_raw : Manager K F → Text → Text × Manager K F
  get_raw m key =
      if m.available
      then raw_of_chain m key (host.chain_get m.chain key)
      else raw_stored m key (read_fallback m.file)

  abbrev pub chain_or_old : Manager K F → Option K → Manager K F
  chain_or_old m none = m
  chain_or_old m (some k) = record m { chain = k }

  abbrev pub with_file : Manager K F → Bool × F → Manager K F
  with_file m (ok, f) = record m { file = f }

  -- `setRaw`: an error is ignored.
  unfoldable pub set_raw : Manager K F → Text → Text → Manager K F
  set_raw m key value =
      if m.available
      then chain_or_old m (host.chain_set m.chain key value)
      else with_file m (write_fallback m.file key value)

  -- The keys of the index when `key` is added or removed, if that changes them.
  abbrev pub changed_keys : Text → Bool → List Text → Option (List Text)
  changed_keys key true keys = if contains keys key then some (remove_key key keys) else none
  changed_keys key false keys = if contains keys key then none else some (key ∷ keys)

  abbrev pub save_index : Manager K F → Option (List Text) → Manager K F
  save_index m none = m
  save_index m (some keys) = set_raw m index_key (join (codes ",") (sort keys))

  abbrev pub index_with : Text → Bool → Text × Manager K F → Manager K F
  index_with key remove (text, m) =
      save_index m (changed_keys key remove (key_set (split b',' text)))

  -- `updateIndexLocked`.
  unfoldable pub update_index : Manager K F → Text → Bool → Manager K F
  update_index m key remove =
      if key == index_key then m else index_with key remove (get_raw m index_key)

  abbrev pub after_chain_set : Manager K F → Text → Option K → Option SecretError × Manager K F
  after_chain_set m key none = (some chain_error, m)
  after_chain_set m key (some k) = (none, update_index (record m { chain = k }) key false)

  abbrev pub after_write : Manager K F → Text → Bool × F → Option SecretError × Manager K F
  after_write m key (false, f) = (some file_error, record m { file = f })
  after_write m key (true, f) = (none, update_index (record m { file = f }) key false)

  -- `Set`: no error, or the error, and the manager after it.
  unfoldable pub set_secret : Manager K F → Text → Text → Option SecretError × Manager K F
  set_secret m key value =
      if m.available
      then after_chain_set m key (host.chain_set m.chain key value)
      else after_write m key (write_fallback m.file key value)

  abbrev pub get_stored :
      Manager K F → Text → Option (Dict Text Text) × F → Outcome SecretError Text × Manager K F
  get_stored m key (none, f) = (failure file_error, record m { file = f })
  get_stored m key (some stored, f) = (or_fail no_secret (lookup key stored), record m { file = f })

  abbrev pub get_of_chain : Manager K F → Text → ChainRead → Outcome SecretError Text × Manager K F
  get_of_chain m key (found_value v) = (success v, m)
  get_of_chain m key not_found = get_stored m key (read_fallback m.file)
  get_of_chain m key chain_refused = (failure chain_error, m)

  -- `Get`.
  unfoldable pub get_secret : Manager K F → Text → Outcome SecretError Text × Manager K F
  get_secret m key =
      if m.available
      then get_of_chain m key (host.chain_get m.chain key)
      else get_stored m key (read_fallback m.file)

  abbrev pub without_key : Manager K F → Text → Bool × F → Option SecretError × Manager K F
  without_key m key (false, f) = (some file_error, record m { file = f })
  without_key m key (true, f) = (none, update_index (record m { file = f }) key true)

  abbrev pub delete_bound :
      Manager K F → Text → Dict Text Text → F → Option Text → Option SecretError × Manager K F
  delete_bound m key stored f none = (none, update_index (record m { file = f }) key true)
  delete_bound m key stored f (some v) =
      without_key m key (write_fallback_map f (delete key stored))

  abbrev pub delete_stored :
      Manager K F → Text → Option (Dict Text Text) × F → Option SecretError × Manager K F
  delete_stored m key (none, f) = (none, update_index (record m { file = f }) key true)
  delete_stored m key (some stored, f) = delete_bound m key stored f (lookup key stored)

  abbrev pub delete_of_chain : Manager K F → Text → ChainDelete K → Option SecretError × Manager K F
  delete_of_chain m key (key_deleted k) =
      delete_stored (record m { chain = k }) key (read_fallback m.file)
  delete_of_chain m key was_absent = delete_stored m key (read_fallback m.file)
  delete_of_chain m key not_deleted = (some chain_error, m)

  -- `Delete`.
  unfoldable pub delete_secret : Manager K F → Text → Option SecretError × Manager K F
  delete_secret m key =
      if m.available
      then delete_of_chain m key (host.chain_delete m.chain key)
      else delete_stored m key (read_fallback m.file)

  abbrev pub value_or_none : Outcome SecretError Text → Text
  value_or_none (success v) = v
  value_or_none (failure e) = []

  abbrev pub stored_keys : Option (Dict Text Text) → List Text
  stored_keys none = []
  stored_keys (some stored) = map (λ (k, _). k) stored

  abbrev pub list_with :
      List Text → Manager K F → Option (Dict Text Text) × F → List Text × Manager K F
  list_with indexed m (stored, f) =
      (remove_key index_key (key_set (indexed ++ stored_keys stored)), record m { file = f })

  abbrev pub list_of : Outcome SecretError Text × Manager K F → List Text × Manager K F
  list_of (answer, m) = list_with (split b',' (value_or_none answer)) m (read_fallback m.file)

  -- `List`, which gives no error. The order of its answer is that of a map.
  unfoldable pub list_secrets : Manager K F → List Text × Manager K F
  list_secrets m = list_of (get_secret m index_key)
