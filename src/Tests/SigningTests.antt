-- ===== src/Tests/SigningTests.antt =====
-- The theorems of Signing at a concrete key.
use aeroflare.Base.{
  ℕ, ◌+◌, ◌-◌, ◌≡◌, refl, ap, ◌≢◌, true, false, none, some, [], ◌∷◌, ◌++◌, arith, text_beq,
  text_beq_refl, All, Text, codes, is_space, trim_space, cut, dir, join, sort, success, text_eq,
  nat_eq,
}
use aeroflare.Signing.Verified.{verify_narinfo-sign_narinfo}
use aeroflare.Decimal.{format_int, pos}
use aeroflare.Signing.{
  Suite, IsSound, PrivateKey, PublicKey, parse_private_key, public_key, fingerprint, sign,
  sign_narinfo, verify_narinfo,
}
use mathlib.Core.List.Perm

-- Bytes are written above those of white space.
unfoldable pub raise : Text → Text
raise [] = []
raise (c ∷ s) = (c + 33) ∷ raise s

unfoldable pub lower_back : Text → Text
lower_back [] = []
lower_back (c ∷ s) = (c - 33) ∷ lower_back s

-- A toy in place of the libraries: a byte is put in front of a seed and of a public key, and a
-- signature is the public key with the message.
abbrev pub toy : Suite
toy = record {
  new_key_from_seed = λ seed. 7 ∷ seed;
  public = λ key. 9 ∷ key;
  ed25519_sign = λ key message. (9 ∷ key) ++ message;
  ed25519_verify = λ key message signature. text_beq (key ++ message) signature;
  encode = raise;
  decode = λ s. some (lower_back s);
}

lower_back-raise : (s : Text) → lower_back (raise s) ≡ s
unfolding raise lower_back
lower_back-raise [] = refl
lower_back-raise (c ∷ s) = ground (arith, lower_back-raise s)

not_space : (c : ℕ) → is_space (c + 33) ≡ false
unfolding is_space
not_space c = ground arith

raise_solid : (s : Text) → All (λ c. is_space c ≡ false) (raise s)
unfolding raise
raise_solid [] = tt
raise_solid (c ∷ s) = (not_space c, raise_solid s)

pub toy-IsSound : IsSound toy
toy-IsSound = record {
  decode-encode = λ s. ap some (lower_back-raise s);
  verify-sign = λ seed message full. text_beq_refl _;
  encode-IsSolid = raise_solid;
}

abbrev pub test_seed : Text
test_seed = codes "0123456789abcdef0123456789abcdef"

abbrev pub test_key : PrivateKey
test_key = record { name = codes "cache-1"; key = 7 ∷ test_seed }

abbrev test_public : PublicKey
test_public = record { name = codes "cache-1"; key = test_seed }

abbrev pub key_file : Text
key_file = (codes "cache-1" ++ (b':' ∷ raise test_seed)) ++ codes "\n"

pub key_read : parse_private_key toy key_file ≡ success test_key
unfolding parse_private_key raise lower_back trim_space cut is_space
key_read = refl

two_refs_signed :
    sign_narinfo toy test_key
      (codes "/nix/store/a-x")
      (codes "h")
      (pos 120)
      (codes "b-y" ∷ codes "/nix/store/a-x" ∷ [])
    ≡ codes "cache-1:"
      ++ raise ((9 ∷ 7 ∷ test_seed) ++ codes "1;/nix/store/a-x;h;120;/nix/store/a-x,/nix/store/b-y")
unfolding sign_narinfo sign fingerprint raise sort join format_int dir
two_refs_signed = refl

verify_narinfo-sign_narinfo_example :
    verify_narinfo toy
      (public_key toy test_key)
      (codes "/nix/store/a-x")
      (codes "h")
      (pos 120)
      (codes "/nix/store/a-x" ∷ codes "b-y" ∷ [])
      (sign_narinfo toy test_key
        (codes "/nix/store/a-x")
        (codes "h")
        (pos 120)
        (codes "b-y" ∷ codes "/nix/store/a-x" ∷ []))
    ≡ none
verify_narinfo-sign_narinfo_example =
    verify_narinfo-sign_narinfo toy toy-IsSound key_file test_key key_read test_seed refl refl
      (codes "/nix/store/a-x") (codes "h") (pos 120)
      (Perm.swap (codes "/nix/store/a-x") (codes "b-y") [])

name_solid : All (λ c. is_space c ≡ false) (codes "cache-1")
unfolding is_space
name_solid = (refl, (refl, (refl, (refl, (refl, (refl, (refl, tt)))))))

name_clean : All (λ c. c ≢ b':') (codes "cache-1")
name_clean = ground arith

end_of_line : All (λ c. is_space c ≡ true) (codes "\n")
unfolding is_space
end_of_line = (refl, tt)
