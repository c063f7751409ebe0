-- ===== src/Secrets/Removed.antt =====
-- internal/secrets/manager.go: what is deleted is gone.
use aeroflare.Base.{
  ◌≡◌, refl, sym, ap, ◌∙◌, subst, ◌≢◌, ◌⊎◌, inl, inr, true, Option, none, some, [], ◌∷◌, Bool-cases,
  text_beq_iff, if_true, if_false, Text, Dict, lookup, insert, delete, lookup-insert_ne,
  lookup-delete, or_fail, Outcome, success, text_eq,
}
use aeroflare.Secrets.{
  Host, Manager, index_key, decoded_map, file_map, read_fallback, was_written, write_fallback_map,
  write_with, write_fallback, update_index, FileRead, not_found, file_missing, file_unreadable,
  file_contents, key_deleted, was_absent, get_stored, get_of_chain, get_secret, without_key,
  delete_bound, delete_stored, delete_of_chain, delete_secret, ChainDelete, SecretError,
  not_deleted, no_secret,
}
use aeroflare.Secrets.Stored.{IsReliable, update_index-keeps, read_fallback-written}
use mathlib.Core.Option.{some-injective}

-- What is relied on of deletions in the keychain, and of the renaming of a file that may fail.
pub record IsRemoving {K F : Type 0} (host : Host K F) : Type 0 where
  pub chain_get-chain_delete :
      (k : K) (key : Text) (after : K)
      → host.chain_delete k key ≡ key_deleted after
      → host.chain_get after key ≡ not_found
  pub chain_get-was_absent :
      (k : K) (key : Text) → host.chain_delete k key ≡ was_absent → host.chain_get k key ≡ not_found
  pub read_file-keep_corrupt :
      (f : F) → (host.read_file (host.keep_corrupt f) ≡ file_missing) ⊎ (host.keep_corrupt f ≡ f)

module _ {K F : Type 0} (host : Host K F) (sound : IsReliable host) (removing : IsRemoving host)
    (key : Text) (other : key ≢ index_key) where
  -- A file that has no value, or cannot be read.
  Lacks : F → Type 0
  Lacks f = (d : Dict Text Text) → (read_fallback host f).0 ≡ some d → lookup key d ≡ none

  Lacks-map :
      (f : F) (d : Dict Text Text)
      → (read_fallback host f).0 ≡ some d
      → lookup key d ≡ none
      → Lacks f
  unfolding Lacks
  Lacks-map f d e no_value d' e' =
      subst (λ d. lookup key d ≡ none) (some-injective _ _ (sym e ∙ e')) no_value

  Lacks-keep_corrupt : (f : F) → Lacks f → Lacks (host.keep_corrupt f)
  unfolding read_fallback lookup
  Lacks-keep_corrupt f h = elim (removing.read_file-keep_corrupt f) [
    | inl moved ↦
        Lacks-map (host.keep_corrupt f) []
          (ap (λ r. (file_map host (host.keep_corrupt f) r).0) moved) refl
    | inr kept ↦ subst Lacks (sym kept) h
  ]

  Lacks-decoded_map :
      (f : F) (o : Option (Dict Text Text)) → Lacks f → Lacks ((decoded_map host f o).1)
  Lacks-decoded_map f none h = Lacks-keep_corrupt f h
  Lacks-decoded_map f (some d) h = h

  Lacks-file_map : (f : F) (r : FileRead) → Lacks f → Lacks ((file_map host f r).1)
  Lacks-file_map f file_missing h = h
  Lacks-file_map f file_unreadable h = h
  Lacks-file_map f (file_contents []) h = h
  Lacks-file_map f (file_contents (c ∷ s)) h = Lacks-decoded_map f _ h

  Lacks-read_fallback : (f : F) → Lacks f → Lacks ((read_fallback host f).1)
  unfolding read_fallback
  Lacks-read_fallback f h = Lacks-file_map f _ h

  Lacks-written :
      (f g : F) (stored : Dict Text Text)
      → lookup key stored ≡ none
      → host.write_file f (host.marshal stored) ≡ some g
      → Lacks g
  Lacks-written f g stored no_value e =
      let (again, read, same) = read_fallback-written host sound key [] other f stored g e in
      Lacks-map g again (ap (λ r. r.0) read) (same ∙ no_value)

  Lacks-was_written :
      (f : F) (stored : Dict Text Text) (answer : Option F)
      → Lacks f
      → lookup key stored ≡ none
      → host.write_file f (host.marshal stored) ≡ answer
      → Lacks ((was_written host f answer).1)
  Lacks-was_written f stored none h no_value e = h
  Lacks-was_written f stored (some g) h no_value e = Lacks-written f g stored no_value e

  Lacks-write_with :
      (text : Text) (r : Option (Dict Text Text) × F)
      → Lacks (r.1)
      → ((d : Dict Text Text) → r.0 ≡ some d → lookup key d ≡ none)
      → Lacks ((write_with host index_key text r).1)
  unfolding write_fallback_map
  Lacks-write_with text (none, f) h no_value = h
  Lacks-write_with text (some stored, f) h no_value =
      Lacks-was_written f (insert index_key text stored) _ h
        (lookup-insert_ne index_key key text stored (λ e. other (sym e)) ∙ no_value stored refl)
        refl

  Gone : Manager K F → Type 0
  Gone m = (m.available ≡ true → host.chain_get m.chain key ≡ not_found) × Lacks m.file

  Gone-update_index : (m : Manager K F) → Gone m → Gone (update_index host m key true)
  unfolding Gone Lacks write_fallback
  Gone-update_index m s =
      update_index-keeps host Gone (λ m s. (s.0, Lacks-read_fallback m.file s.1))
        (λ m text k s e.
          (λ a. sound.chain_get-chain_set_ne m.chain index_key text key k other e ∙ s.0 a, s.1))
        (λ m text s. (
          s.0,
          Lacks-write_with text (read_fallback host m.file) (Lacks-read_fallback m.file s.1) s.1,
        ))
        m key true s

  IsGone : Option SecretError × Manager K F → Type 0
  IsGone (error, m) = error ≡ none → Gone m

  Deletable : Manager K F → Type 0
  Deletable m = m.available ≡ true → host.chain_get m.chain key ≡ not_found

  without_key-IsGone :
      (m : Manager K F) (f : F) (stored : Dict Text Text) (answer : Option F)
      → Deletable m
      → host.write_file f (host.marshal (delete key stored)) ≡ answer
      → IsGone (without_key host m key (was_written host f answer))
  unfolding IsGone Deletable Gone
  without_key-IsGone m f stored none gone e = λ failed. absurd (cc failed)
  without_key-IsGone m f stored (some g) gone e = λ ok.
      Gone-update_index (record m { file = g })
        (
          gone,
          Lacks-written f g (delete key stored)
              (lookup-delete key key stored ∙ if_true _ _ _ ((text_beq_iff key key).1 refl)) e,
        )

  delete_bound-IsGone :
      (m : Manager K F) (stored : Dict Text Text) (f : F) (bound : Option Text)
      → Deletable m
      → (lookup key stored ≡ none → Lacks f)
      → lookup key stored ≡ bound
      → IsGone (delete_bound host m key stored f bound)
  unfolding IsGone Deletable Gone write_fallback_map
  delete_bound-IsGone m stored f none gone h e =
      λ ok. Gone-update_index (record m { file = f }) (gone, h e)
  delete_bound-IsGone m stored f (some v) gone h e = without_key-IsGone m f stored _ gone refl

  delete_stored-IsGone :
      (m : Manager K F) (r : Option (Dict Text Text) × F)
      → Deletable m
      → (((d : Dict Text Text) → r.0 ≡ some d → lookup key d ≡ none) → Lacks (r.1))
      → IsGone (delete_stored host m key r)
  unfolding IsGone Deletable Gone
  delete_stored-IsGone m (none, f) gone h =
      λ ok. Gone-update_index (record m { file = f }) (gone, h (λ d e. absurd (cc e)))
  delete_stored-IsGone m (some stored, f) gone h =
      delete_bound-IsGone m stored f _ gone
        (λ e. h (λ d same. subst (λ d. lookup key d ≡ none) (some-injective _ _ same) e)) refl

  delete_file-IsGone :
      (m : Manager K F)
      → Deletable m
      → IsGone (delete_stored host m key (read_fallback host m.file))
  unfolding Lacks
  delete_file-IsGone m gone =
      delete_stored-IsGone m (read_fallback host m.file) gone (Lacks-read_fallback m.file)

  delete_of_chain-IsGone :
      (m : Manager K F) (answer : ChainDelete K)
      → host.chain_delete m.chain key ≡ answer
      → IsGone (delete_of_chain host m key answer)
  unfolding IsGone Deletable
  delete_of_chain-IsGone m (key_deleted k) e =
      delete_file-IsGone (record m { chain = k })
        (λ a. removing.chain_get-chain_delete m.chain key k e)
  delete_of_chain-IsGone m was_absent e =
      delete_file-IsGone m (λ a. removing.chain_get-was_absent m.chain key e)
  delete_of_chain-IsGone m not_deleted e = λ failed. absurd (cc failed)

  delete_secret-IsGone : (m : Manager K F) → IsGone (delete_secret host m key)
  unfolding delete_secret Deletable
  delete_secret-IsGone m = elim (Bool-cases m.available) [
    | inl reached ↦
        subst IsGone (sym (if_true m.available _ _ reached)) (delete_of_chain-IsGone m _ refl)
    | inr unreached ↦
        subst IsGone (sym (if_false m.available _ _ unreached))
          (delete_file-IsGone m (λ a. absurd (cc (sym unreached ∙ a))))
  ]

  get_stored-Gone :
      (m : Manager K F) (r : Option (Dict Text Text) × F) (v : Text)
      → ((d : Dict Text Text) → r.0 ≡ some d → lookup key d ≡ none)
      → (get_stored host m key r).0 ≢ success v
  get_stored-Gone m (none, f) v h e = cc e
  get_stored-Gone m (some stored, f) v h e =
      cc (sym (ap (or_fail {E = SecretError} no_secret) (h stored refl)) ∙ e)

  get_secret-Gone : (m : Manager K F) (v : Text) → Gone m → (get_secret host m key).0 ≢ success v
  unfolding Gone Lacks get_secret
  get_secret-Gone m v s = elim (Bool-cases m.available) [
    | inl reached ↦ λ e. get_stored-Gone m (read_fallback host m.file) v s.1 (
        sym (
          ap (λ (p : Outcome SecretError Text × Manager K F). p.0) (if_true m.available _ _ reached)
          ∙ ap (λ read. (get_of_chain host m key read).0) (s.0 reached))
        ∙ e)
    | inr unreached ↦ λ e. get_stored-Gone m (read_fallback host m.file) v s.1 (
        sym (
          ap (λ (p : Outcome SecretError Text × Manager K F). p.0)
            (if_false m.available _ _ unreached))
        ∙ e)
  ]

-- When `Delete` gives no error for a key other than that of the index, `Get` reads no value for it,
-- whether the keychain answers or not, and also if the file cannot be read.
pub get_secret-delete_secret :
    {K F : Type 0} (host : Host K F)
    → IsReliable host
    → IsRemoving host
    → (m : Manager K F) (key value : Text) → key ≢ index_key
    → (delete_secret host m key).0 ≡ none
    → (get_secret host ((delete_secret host m key).1) key).0 ≢ success value
unfolding IsGone
get_secret-delete_secret host sound removing m key value other ok =
    get_secret-Gone host sound removing key other _ value
      (delete_secret-IsGone host sound removing key other m ok)
