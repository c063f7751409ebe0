-- ===== src/Tests/NarinfoTests.antt =====
-- The theorems of Narinfo and Decimal at concrete values.
use aeroflare.Base.{
  ◌≡◌, refl, sym, ◌∙◌, inl, inr, Bool, true, false, some, [], ◌∷◌, arith, if◌then◌else◌, Bool-cases,
  text_beq, if_true, if_false, All, Text, codes, is_space, join, text_eq,
}
use aeroflare.Narinfo.{to_string, parse, Narinfo, drop_cr}
use aeroflare.Decimal.{format_int, parse_int, pos, negsuc}
use aeroflare.Decimal.RoundTrip.{parse_int-format_int}
use aeroflare.Narinfo.RoundTrip.{parse-to_string, IsWellFormed, is_clean, clean_IsValue}

parse_int-format_int_example : parse_int (format_int (negsuc 41)) ≡ negsuc 41
parse_int-format_int_example = parse_int-format_int (negsuc 41) (omega arith)

abbrev hello : Narinfo
hello = record {
  store_path = codes "/nix/store/aaa-hello";
  url = codes "nar/x.nar.zst";
  compression = codes "zstd";
  file_hash = codes "sha256:f";
  file_size = pos 120;
  nar_hash = codes "sha256:n";
  nar_size = pos 4096;
  references = codes "aaa-hello" ∷ codes "bbb-glibc" ∷ [];
  deriver = [];
  system = codes "x86_64-linux";
  sig = codes "key:s==";
}

hello_text : parse (to_string hello) ≡ some hello
unfolding parse to_string text_beq drop_cr is_space
hello_text = refl

unfoldable pub has_no_space : Text → Bool
has_no_space [] = true
has_no_space (c ∷ s) = if is_space c then false else has_no_space s

pub no_space_All : (s : Text) → has_no_space s ≡ true → All (λ c. is_space c ≡ false) s
unfolding has_no_space
no_space_All [] h = tt
no_space_All (c ∷ s) h = elim (Bool-cases (is_space c)) [
  | inl space ↦ absurd (cc (sym (if_true (is_space c) false (has_no_space s) space) ∙ h))
  | inr none_here ↦
      (none_here, no_space_All s (sym (if_false (is_space c) false (has_no_space s) none_here) ∙ h))
]

hello-IsWellFormed : IsWellFormed hello
unfolding is_clean drop_cr join has_no_space is_space
hello-IsWellFormed = record {
  store_path = clean_IsValue hello.store_path refl refl (omega arith);
  url = clean_IsValue hello.url refl refl (omega arith);
  compression = clean_IsValue hello.compression refl refl (omega arith);
  file_hash = clean_IsValue hello.file_hash refl refl (omega arith);
  file_size = omega arith;
  nar_hash = clean_IsValue hello.nar_hash refl refl (omega arith);
  nar_size = omega arith;
  words = (
    ((λ e. cc e), no_space_All (codes "aaa-hello") refl),
    (((λ e. cc e), no_space_All (codes "bbb-glibc") refl), tt),
  );
  references = clean_IsValue (join (codes " ") hello.references) refl refl (omega arith);
  deriver = clean_IsValue [] refl refl (omega arith);
  system = clean_IsValue hello.system refl refl (omega arith);
  sig = clean_IsValue hello.sig refl refl (omega arith);
}

parse-to_string_example : parse (to_string hello) ≡ some hello
parse-to_string_example = parse-to_string hello hello-IsWellFormed
