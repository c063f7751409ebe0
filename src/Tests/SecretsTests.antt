-- ===== src/Tests/SecretsTests.antt =====
-- The theorems of Secrets on a machine with and without a keychain.
use aeroflare.Base.{
  zero, suc, ◌≡◌, refl, sym, ap, ◌∙◌, subst, ◌≢◌, inr, Option, none, some, [], ◌∷◌, ◌++◌,
  append-nil, text_beq, text_beq_iff, if_true, contains, Text, codes, split, join, Dict, lookup,
  insert, delete, lookup-insert_self, lookup-insert_ne, lookup-delete, sort, success, text_eq,
  nat_eq,
}
use aeroflare.Secrets.Removed.{IsRemoving, get_secret-delete_secret}
use aeroflare.Secrets.Stored.{get_secret-set_secret, IsReliable}
use aeroflare.Secrets.{
  Host, Manager, key_set, remove_key, new_manager, read_fallback, write_fallback_map,
  write_fallback, get_raw, set_raw, update_index, set_secret, get_secret, list_secrets, ChainRead,
  ChainDelete, found_value, not_found, chain_refused, file_contents, key_deleted, not_deleted,
  delete_secret, was_absent,
}
use mathlib.Core.Option.{some-injective}

-- A map as a text: a byte of a key stands behind a 1, one of a value behind a 2, and an entry
-- ends in a 0.
key_bytes : Text → Text → Text
key_bytes [] rest = rest
key_bytes (c ∷ k) rest = 1 ∷ c ∷ key_bytes k rest

value_bytes : Text → Text → Text
value_bytes [] rest = rest
value_bytes (c ∷ v) rest = 2 ∷ c ∷ value_bytes v rest

pub entries_text : Dict Text Text → Text
unfolding key_bytes value_bytes
entries_text [] = []
entries_text ((k, v) ∷ d) = key_bytes k (value_bytes v (0 ∷ 0 ∷ entries_text d))

on_first : (Text × Text → Text × Text) → Dict Text Text → Dict Text Text
on_first f [] = []
on_first f (e ∷ d) = f e ∷ d

read_entries : Text → Dict Text Text
unfolding on_first
read_entries [] = []
read_entries (t ∷ []) = []
read_entries (zero ∷ c ∷ s) = ([], []) ∷ read_entries s
read_entries (suc zero ∷ c ∷ s) = on_first (λ (k, v). (c ∷ k, v)) (read_entries s)
read_entries (suc (suc t) ∷ c ∷ s) = on_first (λ (k, v). (k, c ∷ v)) (read_entries s)

read_value :
    (v w rest : Text) (d : Dict Text Text)
    → read_entries rest ≡ ([], w) ∷ d
    → read_entries (value_bytes v rest) ≡ ([], v ++ w) ∷ d
unfolding read_entries value_bytes on_first
read_value [] w rest d h = h
read_value (c ∷ v) w rest d h = ap (on_first (λ (k, u). (k, c ∷ u))) (read_value v w rest d h)

read_key :
    (k v rest : Text) (d : Dict Text Text)
    → read_entries rest ≡ ([], v) ∷ d
    → read_entries (key_bytes k rest) ≡ (k, v) ∷ d
unfolding read_entries key_bytes on_first
read_key [] v rest d h = h
read_key (c ∷ k) v rest d h = ap (on_first (λ (i, u). (c ∷ i, u))) (read_key k v rest d h)

read_entries-entries_text : (d : Dict Text Text) → read_entries (entries_text d) ≡ d
unfolding read_entries entries_text
read_entries-entries_text [] = refl
read_entries-entries_text ((k, v) ∷ d) = read_key k v _ d (
    read_value v [] _ d (ap (λ e. ([], []) ∷ e) (read_entries-entries_text d))
    ∙ ap (λ u. ([], u) ∷ d) (append-nil v))

value_read : Option Text → ChainRead
value_read none = not_found
value_read (some v) = found_value v

-- A keychain is a map, or is not there.
pub chain_value : Option (Dict Text Text) → Text → ChainRead
unfolding value_read
chain_value none key = chain_refused
chain_value (some d) key = value_read (lookup key d)

pub chain_with : Option (Dict Text Text) → Text → Text → Option (Option (Dict Text Text))
chain_with none key value = none
chain_with (some d) key value = some (some (insert key value d))

pub chain_without : Option (Dict Text Text) → Text → ChainDelete (Option (Dict Text Text))
chain_without none key = not_deleted
chain_without (some d) key = key_deleted (some (delete key d))

pub read_map : Text → Option (Dict Text Text)
unfolding read_entries
read_map [] = none
read_map (c ∷ s) = some (read_entries s)

abbrev pub toy_host : Host (Option (Dict Text Text)) Text
toy_host = record {
  chain_get = chain_value;
  chain_set = chain_with;
  chain_delete = chain_without;
  read_file = λ f. file_contents f;
  keep_corrupt = λ f. f;
  write_file = λ f text. some text;
  marshal = λ d. 9 ∷ entries_text d;
  unmarshal = read_map;
}

chain_value-chain_with :
    (k : Option (Dict Text Text)) (key value : Text) (after : Option (Dict Text Text))
    → chain_with k key value ≡ some after
    → chain_value after key ≡ found_value value
unfolding chain_value chain_with value_read
chain_value-chain_with none key value after e = absurd (cc e)
chain_value-chain_with (some d) key value after e =
    subst (λ k. chain_value k key ≡ found_value value) (some-injective _ _ e)
      (ap value_read (lookup-insert_self key value d))

chain_value-chain_with_ne :
    (k : Option (Dict Text Text)) (key value other : Text) (after : Option (Dict Text Text))
    → (other ≡ key → ⊥)
    → chain_with k key value ≡ some after
    → chain_value after other ≡ chain_value k other
unfolding chain_value chain_with value_read
chain_value-chain_with_ne none key value other after ne e = absurd (cc e)
chain_value-chain_with_ne (some d) key value other after ne e =
    subst (λ k. chain_value k other ≡ chain_value (some d) other) (some-injective _ _ e)
      (ap value_read (lookup-insert_ne key other value d (λ same. ne (sym same))))

pub toy_host-IsReliable : IsReliable toy_host
unfolding read_map
toy_host-IsReliable = record {
  chain_get-chain_set = chain_value-chain_with;
  chain_get-chain_set_ne = chain_value-chain_with_ne;
  read_file-write_file = λ f text after e. ap file_contents (sym (some-injective _ _ e));
  marshal-full = λ d. (9, entries_text d, refl);
  unmarshal-marshal = λ d. (d, ap some (read_entries-entries_text d), λ key. refl);
}

-- There is no keychain, and the file does not parse before a key is set.
abbrev pub without_chain : Manager (Option (Dict Text Text)) Text
without_chain = new_manager toy_host none []

pub github_token_set :
    (set_secret toy_host without_chain (codes "github-token") (codes "t0")).0 ≡ none
unfolding set_secret new_manager chain_value write_fallback read_fallback write_fallback_map
github_token_set = refl

get_secret-set_secret_example :
    (get_secret toy_host
      (set_secret toy_host without_chain (codes "github-token") (codes "t0")).1
      (codes "github-token")).0
    ≡ success (codes "t0")
get_secret-set_secret_example =
    get_secret-set_secret toy_host toy_host-IsReliable without_chain (codes "github-token")
      (codes "t0") (λ e. cc) github_token_set

-- The key is listed, the index is not.
listed :
    (list_secrets toy_host (set_secret toy_host without_chain (codes "b") (codes "t0")).1).0
    ≡ codes "b" ∷ []
unfolding list_secrets get_secret set_secret new_manager chain_value write_fallback read_fallback
    write_fallback_map update_index get_raw set_raw key_set remove_key split text_beq contains
    read_map lookup entries_text insert join sort
listed = refl

after_deletion :
    Option (Dict Text Text) → ChainDelete (Option (Dict Text Text)) → Option (Dict Text Text)
after_deletion d (key_deleted k) = k
after_deletion d was_absent = d
after_deletion d not_deleted = d

chain_value-chain_without :
    (k : Option (Dict Text Text)) (key : Text) (after : Option (Dict Text Text))
    → chain_without k key ≡ key_deleted after
    → chain_value after key ≡ not_found
unfolding chain_value chain_without value_read after_deletion
chain_value-chain_without none key after e = absurd (cc e)
chain_value-chain_without (some d) key after e =
    subst (λ k. chain_value k key ≡ not_found) (ap (after_deletion none) e)
      (ap value_read (lookup-delete key key d ∙ if_true _ _ _ ((text_beq_iff key key).1 refl)))

was_absent_never :
    (k : Option (Dict Text Text)) (key : Text)
    → chain_without k key ≡ was_absent
    → chain_value k key ≡ not_found
unfolding chain_without
was_absent_never none key e = absurd (cc e)
was_absent_never (some d) key e = absurd (cc e)

toy_host-IsRemoving : IsRemoving toy_host
toy_host-IsRemoving = record {
  chain_get-chain_delete = chain_value-chain_without;
  chain_get-was_absent = was_absent_never;
  read_file-keep_corrupt = λ f. inr refl;
}

-- A keychain with a token, of which an older copy stands in the file.
abbrev with_token : Manager (Option (Dict Text Text)) Text
with_token =
    new_manager toy_host (some ((codes "github-token", codes "t1") ∷ []))
      (9 ∷ entries_text ((codes "github-token", codes "t0") ∷ []))

token_deleted : (delete_secret toy_host with_token (codes "github-token")).0 ≡ none
unfolding delete_secret new_manager chain_value chain_without write_fallback read_fallback
    write_fallback_map value_read lookup text_beq read_map entries_text
token_deleted = refl

get_secret-delete_secret_example :
    (get_secret toy_host
      (delete_secret toy_host with_token (codes "github-token")).1
      (codes "github-token")).0
    ≢ success (codes "t0")
get_secret-delete_secret_example =
    get_secret-delete_secret toy_host toy_host-IsReliable toy_host-IsRemoving with_token
      (codes "github-token") (codes "t0") (λ e. cc) token_deleted
