-- ===== src/Secrets/Stored.antt =====
-- internal/secrets/manager.go: what is set is read.
use aeroflare.Base.{
  ℕ, ◌≡◌, refl, sym, ap, ◌∙◌, subst, ◌≢◌, inl, inr, Bool, true, false, Option, none, some, List,
  ◌∷◌, ◌==◌, Bool-cases, if_true, if_false, if_both, Text, Dict, lookup, insert, lookup-insert_self,
  lookup-insert_ne, or_fail, Outcome, success, text_eq,
}
use aeroflare.Secrets.{
  Host, Manager, index_key, read_fallback, write_fallback, raw_stored, raw_of_chain, get_raw,
  chain_or_old, set_raw, save_index, update_index, ChainRead, found_value, not_found, chain_refused,
  file_contents, decoded_map, file_map, was_written, write_fallback_map, write_with,
  after_chain_set, after_write, set_secret, get_stored, get_of_chain, get_secret, SecretError,
  no_secret,
}

-- What the program relies on of the keychain, the file system and encoding/json, for texts in UTF-8.
pub record IsReliable {K F : Type 0} (host : Host K F) : Type 0 where
  pub chain_get-chain_set :
      (k : K) (key value : Text) (after : K)
      → host.chain_set k key value ≡ some after
      → host.chain_get after key ≡ found_value value
  -- A key that is set leaves the others as they are.
  pub chain_get-chain_set_ne :
      (k : K) (key value other : Text) (after : K)
      → (other ≡ key → ⊥)
      → host.chain_set k key value ≡ some after
      → host.chain_get after other ≡ host.chain_get k other
  pub read_file-write_file :
      (f : F) (text : Text) (after : F)
      → host.write_file f text ≡ some after
      → host.read_file after ≡ file_contents text
  -- A map is not printed as the empty text, and it is read with the same values.
  pub marshal-full :
      (stored : Dict Text Text) → (c : ℕ) × (s : Text) × (host.marshal stored ≡ c ∷ s)
  pub unmarshal-marshal :
      (stored : Dict Text Text)
      → (again : Dict Text Text) × (host.unmarshal (host.marshal stored) ≡ some again)
        × ((key : Text) → lookup key again ≡ lookup key stored)

-- A property of managers that reads of the file and writes of the index keep is kept by
-- `updateIndexLocked`.
module _ {K F : Type 0} (host : Host K F) (S : Manager K F → Type 0)
    (reads : (m : Manager K F) → S m → S (record m { file = (read_fallback host m.file).1 }))
    (sets : (m : Manager K F) (text : Text) (k : K)
      → S m
      → host.chain_set m.chain index_key text ≡ some k
      → S (record m { chain = k }))
    (writes : (m : Manager K F) (text : Text)
      → S m
      → S (record m { file = (write_fallback host m.file index_key text).1 })) where
  raw_stored-keeps :
      (m : Manager K F) (key : Text) (read : Option (Dict Text Text) × F)
      → S (record m { file = read.1 })
      → S ((raw_stored host m key read).1)
  raw_stored-keeps m key (none, f) s = s
  raw_stored-keeps m key (some stored, f) s = s

  raw_of_chain-keeps :
      (m : Manager K F) (key : Text) (read : ChainRead) → S m → S ((raw_of_chain host m key read).1)
  raw_of_chain-keeps m key (found_value v) s = s
  raw_of_chain-keeps m key not_found s = raw_stored-keeps m key _ (reads m s)
  raw_of_chain-keeps m key chain_refused s = s

  get_raw-keeps : (m : Manager K F) (key : Text) → S m → S ((get_raw host m key).1)
  unfolding get_raw
  get_raw-keeps m key s =
      if_both (λ (p : Text × Manager K F). S p.1) m.available _ _ (raw_of_chain-keeps m key _ s)
        (raw_stored-keeps m key _ (reads m s))

  chain_or_old-keeps :
      (m : Manager K F) (text : Text) (answer : Option K)
      → S m
      → host.chain_set m.chain index_key text ≡ answer
      → S (chain_or_old host m answer)
  chain_or_old-keeps m text none s e = s
  chain_or_old-keeps m text (some k) s e = sets m text k s e

  save_index-keeps :
      (m : Manager K F) (keys : Option (List Text)) → S m → S (save_index host m keys)
  unfolding set_raw
  save_index-keeps m none s = s
  save_index-keeps m (some keys) s =
      if_both S m.available _ _ (chain_or_old-keeps m _ _ s refl) (writes m _ s)

  pub update_index-keeps :
      (m : Manager K F) (key : Text) (remove : Bool) → S m → S (update_index host m key remove)
  unfolding update_index
  update_index-keeps m key remove s =
      if_both S (key == index_key) _ _ s (save_index-keeps _ _ (get_raw-keeps m index_key s))

module _ {K F : Type 0} (host : Host K F) (sound : IsReliable host) (key value : Text)
    (other : key ≢ index_key) where
  -- The keychain answers and has the value.
  InChain : Manager K F → Type 0
  InChain m = (m.available ≡ true) × (host.chain_get m.chain key ≡ found_value value)

  -- The keychain does not answer, and the file has the value.
  InFile : Manager K F → Type 0
  InFile m =
      (m.available ≡ false)
      × (stored : Dict Text Text) × (read_fallback host m.file ≡ (some stored, m.file))
      × (lookup key stored ≡ some value)

  InChain-update_index : (m : Manager K F) → InChain m → InChain (update_index host m key false)
  unfolding InChain
  InChain-update_index m s =
      update_index-keeps host InChain (λ m s. s)
        (λ m text k s e.
          (s.0, sound.chain_get-chain_set_ne m.chain index_key text key k other e ∙ s.1))
        (λ m text s. s) m key false s

  get_secret-InChain : (m : Manager K F) → InChain m → (get_secret host m key).0 ≡ success value
  unfolding InChain get_secret
  get_secret-InChain m (available, bound) =
      ap (λ (p : Outcome SecretError Text × Manager K F). p.0) (if_true m.available _ _ available)
      ∙ ap (λ read. (get_of_chain host m key read).0) bound

  pub read_fallback-written :
      (f : F) (stored : Dict Text Text) (g : F)
      → host.write_file f (host.marshal stored) ≡ some g
      → (again : Dict Text Text) × (read_fallback host g ≡ (some again, g))
        × (lookup key again ≡ lookup key stored)
  unfolding read_fallback
  read_fallback-written f stored g written =
      let (c, s, full) = sound.marshal-full stored in
      let (again, read, same) = sound.unmarshal-marshal stored in
      (
        again,
        ap (file_map host g) (sound.read_file-write_file f _ g written ∙ ap file_contents full)
            ∙ ap (decoded_map host g) (ap host.unmarshal (sym full) ∙ read),
        same key,
      )

  InFile-was_written :
      (m : Manager K F) (stored : Dict Text Text) (answer : Option F)
      → InFile m
      → lookup key stored ≡ some value
      → host.write_file m.file (host.marshal stored) ≡ answer
      → InFile (record m { file = (was_written host m.file answer).1 })
  unfolding InFile
  InFile-was_written m stored none s bound e = s
  InFile-was_written m stored (some g) (available, _, _, _) bound e =
      let (again, read, same) = read_fallback-written m.file stored g e in
      (available, again, read, same ∙ bound)

  InFile-write_fallback :
      (m : Manager K F) (text : Text)
      → InFile m
      → InFile (record m { file = (write_fallback host m.file index_key text).1 })
  unfolding InFile write_fallback write_fallback_map
  InFile-write_fallback m text (available, stored, read, bound) =
      subst (λ r. InFile (record m { file = (write_with host index_key text r).1 })) (sym read)
        (InFile-was_written m (insert index_key text stored) _ (available, stored, read, bound)
          (lookup-insert_ne index_key key text stored (λ e. other (sym e)) ∙ bound) refl)

  InFile-update_index : (m : Manager K F) → InFile m → InFile (update_index host m key false)
  unfolding InFile
  InFile-update_index m s =
      update_index-keeps host InFile
        (λ m s. subst (λ f. InFile (record m { file = f })) (sym (ap (λ r. r.1) (s.2))) s)
        (λ m text k s e. s) InFile-write_fallback m key false s

  get_secret-InFile : (m : Manager K F) → InFile m → (get_secret host m key).0 ≡ success value
  unfolding InFile get_secret
  get_secret-InFile m (available, stored, read, bound) =
      ap (λ (p : Outcome SecretError Text × Manager K F). p.0) (if_false m.available _ _ available)
      ∙ ap (λ r. (get_stored host m key r).0) read
      ∙ ap (or_fail no_secret) bound

  -- A call of `Set` that gives no error leaves the value to be read.
  IsRead : Option SecretError × Manager K F → Type 0
  IsRead (error, m) = error ≡ none → (get_secret host m key).0 ≡ success value

  after_chain_set-IsRead :
      (m : Manager K F) (answer : Option K)
      → m.available ≡ true
      → host.chain_set m.chain key value ≡ answer
      → IsRead (after_chain_set host m key answer)
  unfolding IsRead InChain
  after_chain_set-IsRead m none available e failed = absurd (cc failed)
  after_chain_set-IsRead m (some k) available e ok = get_secret-InChain _ (
      InChain-update_index (record m { chain = k })
        (available, sound.chain_get-chain_set m.chain key value k e))

  after_was_written-IsRead :
      (m : Manager K F) (f : F) (stored : Dict Text Text) (answer : Option F)
      → m.available ≡ false
      → host.write_file f (host.marshal (insert key value stored)) ≡ answer
      → IsRead (after_write host m key (was_written host f answer))
  unfolding IsRead InFile
  after_was_written-IsRead m f stored none available e failed = absurd (cc failed)
  after_was_written-IsRead m f stored (some g) available e ok =
      let (again, read, same) = read_fallback-written f (insert key value stored) g e in
      get_secret-InFile _ (
        InFile-update_index (record m { file = g })
          (available, again, read, same ∙ lookup-insert_self key value stored))

  after_write-IsRead :
      (m : Manager K F) (read : Option (Dict Text Text) × F)
      → m.available ≡ false
      → IsRead (after_write host m key (write_with host key value read))
  unfolding IsRead write_fallback_map
  after_write-IsRead m (none, f) available = λ failed. absurd (cc failed)
  after_write-IsRead m (some stored, f) available =
      after_was_written-IsRead m f stored _ available refl

  set_secret-IsRead : (m : Manager K F) → IsRead (set_secret host m key value)
  unfolding set_secret write_fallback
  set_secret-IsRead m = elim (Bool-cases m.available) [
    | inl yes_chain ↦
        subst IsRead (sym (if_true m.available _ _ yes_chain))
          (after_chain_set-IsRead m _ yes_chain refl)
    | inr no_chain ↦
        subst IsRead (sym (if_false m.available _ _ no_chain))
          (after_write-IsRead m (read_fallback host m.file) no_chain)
  ]

-- When `Set` gives no error for a key other than that of the index, `Get` reads the value that was
-- set, from the keychain or, if that does not answer, from the fallback file.
pub get_secret-set_secret :
    {K F : Type 0} (host : Host K F)
    → IsReliable host
    → (m : Manager K F) (key value : Text) → key ≢ index_key
    → (set_secret host m key value).0 ≡ none
    → (get_secret host ((set_secret host m key value).1) key).0 ≡ success value
unfolding IsRead
get_secret-set_secret host sound m key value other ok =
    set_secret-IsRead host sound key value other m ok
