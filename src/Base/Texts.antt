-- ===== src/Base/Texts.antt =====
-- Go strings as lists of bytes, and the functions of package `strings` that the program calls.
-- White space is the ASCII white space of `unicode.IsSpace`: the texts that are trimmed or split
-- into fields are taken to be ASCII.
use Prim.Native.Nat.{ℕ, ◌+◌, ◌-◌}
use Prim.Native.Char.{code}
use Prim.Native.String.{String}
use mathlib.Core.Path.{◌≡◌, refl}
use mathlib.Core.Bool.{Bool, true, false, ◌&&◌, ◌||◌}
use mathlib.Core.List.{List, [], ◌∷◌, ◌++◌, reverse}
use mathlib.Core.Option.{Option, none, some}
use aeroflare.Base.Tests.{nat_eq, ◌==◌, if◌then◌else◌, leb}

abbrev pub Text : Type 0
Text = List ℕ

abbrev pub codes : String → Text
codes String.[] = []
codes (String.◌∷◌ c s) = code c ∷ codes s

unfoldable pub is_space : ℕ → Bool
is_space c = c == b' ' || (leb 9 c && leb c 13)

-- strings.TrimLeft and TrimRight by a set of bytes.
unfoldable pub trim_left : (ℕ → Bool) → Text → Text
trim_left p [] = []
trim_left p (c ∷ s) = let rest = trim_left p s in if p c then rest else c ∷ s

-- The bytes of the set at the end are dropped, those in front of another byte kept.
abbrev pub keep_end : (ℕ → Bool) → ℕ → Text → Text
keep_end p c [] = if p c then [] else c ∷ []
keep_end p c (d ∷ t) = c ∷ d ∷ t

unfoldable pub trim_right : (ℕ → Bool) → Text → Text
trim_right p [] = []
trim_right p (c ∷ s) = keep_end p c (trim_right p s)

unfoldable pub trim_space : Text → Text
unfolding trim_left trim_right is_space
trim_space s = trim_right is_space (trim_left is_space s)

unfoldable pub has_prefix : Text → Text → Bool
has_prefix s [] = true
has_prefix [] (p ∷ ps) = false
has_prefix (c ∷ s) (p ∷ ps) = c == p && has_prefix s ps

-- The rest behind a prefix, if it is there.
unfoldable pub strip_prefix : Text → Text → Option Text
strip_prefix s [] = some s
strip_prefix [] (p ∷ ps) = none
strip_prefix (c ∷ s) (p ∷ ps) = let rest = strip_prefix s ps in if c == p then rest else none

unfoldable pub trim_prefix : Text → Text → Text
unfolding strip_prefix
trim_prefix s p = elim (strip_prefix s p) [ none ↦ s | some rest ↦ rest ]

unfoldable pub has_suffix : Text → Text → Bool
unfolding has_prefix
has_suffix s p = has_prefix (reverse s) (reverse p)

abbrev pub kept_front : Text → Option Text → Text
kept_front s none = s
kept_front s (some front) = reverse front

unfoldable pub trim_suffix : Text → Text → Text
unfolding strip_prefix
trim_suffix s p = kept_front s (strip_prefix (reverse s) (reverse p))

-- strings.Cut at the first occurrence of one byte: the texts before and behind it.
unfoldable pub cut : ℕ → Text → Option (Text × Text)
cut b [] = none
cut b (c ∷ s) =
    let rest = cut b s in
    if c == b then some ([], s) else elim rest [ none ↦ none | some (h, t) ↦ some (c ∷ h, t) ]

-- filepath.Dir of a path without "//", "." and ".." in it: what stands before its last slash.
before_slash : Text → Option Text
before_slash [] = none
before_slash (c ∷ s) = elim (before_slash s) [
  | none ↦ if c == b'/' then some [] else none
  | some d ↦ some (c ∷ d)
]

unfoldable pub dir : Text → Text
unfolding before_slash
dir path = elim (before_slash path) [
  | none ↦ b'.' ∷ []
  | some [] ↦ b'/' ∷ []
  | some (c ∷ d) ↦ c ∷ d
]

-- strings.Split by one byte: there is always a part.
cons_first : ℕ → List Text → List Text
cons_first c [] = (c ∷ []) ∷ []
cons_first c (p ∷ ps) = (c ∷ p) ∷ ps

unfoldable pub split : ℕ → Text → List Text
unfolding cons_first
split b [] = [] ∷ []
split b (c ∷ s) = let rest = split b s in if c == b then [] ∷ rest else cons_first c rest

unfoldable pub join : Text → List Text → Text
join sep [] = []
join sep (p ∷ []) = p
join sep (p ∷ q ∷ ps) = p ++ (sep ++ join sep (q ∷ ps))

-- strings.Fields: the runs of bytes that are no white space.
unfoldable pub add_field : Text → List Text → List Text
add_field [] fs = fs
add_field (c ∷ w) fs = (c ∷ w) ∷ fs

unfoldable pub fields_from : Text → Text → List Text
unfolding is_space add_field
fields_from word [] = add_field word []
fields_from word (c ∷ s) =
    let ended = add_field word (fields_from [] s) in
    let longer = fields_from (word ++ c ∷ []) s in if is_space c then ended else longer

unfoldable pub fields : Text → List Text
unfolding fields_from
fields s = fields_from [] s

unfoldable pub lower : ℕ → ℕ
lower c = if leb b'A' c && leb c b'Z' then c + 32 else c

unfoldable pub upper : ℕ → ℕ
upper c = if leb b'a' c && leb c b'z' then c - 32 else c

unfoldable pub to_lower : Text → Text
unfolding lower
to_lower [] = []
to_lower (c ∷ s) = lower c ∷ to_lower s

unfoldable pub to_upper : Text → Text
unfolding upper
to_upper [] = []
to_upper (c ∷ s) = upper c ∷ to_upper s

-- path/filepath.Base: the last element; trailing slashes are dropped, an empty path is `.`.
after_last_slash : Text → Text → Text
after_last_slash acc [] = acc
after_last_slash acc (c ∷ s) = after_last_slash (if c == b'/' then [] else acc ++ c ∷ []) s

is_slash : ℕ → Bool
is_slash c = c == b'/'

unfoldable pub base : Text → Text
unfolding after_last_slash is_slash trim_right
base [] = codes "."
base (c ∷ s) = elim (trim_right is_slash (c ∷ s)) [
  | [] ↦ codes "/"
  | d ∷ t ↦ after_last_slash [] (d ∷ t)
]

trimmed : trim_space (codes " a b ") ≡ codes "a b"
unfolding trim_space
trimmed = refl

split_parts : split b',' (codes "a,,b") ≡ codes "a" ∷ [] ∷ codes "b" ∷ []
unfolding split
split_parts = refl

field_words : fields (codes "  ab c ") ≡ codes "ab" ∷ codes "c" ∷ []
unfolding fields
field_words = refl

base_name : base (codes "/nix/store/abc-hello/") ≡ codes "abc-hello"
unfolding base
base_name = refl

-- strings.Index by a text, as the texts before and behind its first occurrence.
abbrev pub keep_byte : ℕ → Option (Text × Text) → Option (Text × Text)
keep_byte c none = none
keep_byte c (some (before, behind)) = some (c ∷ before, behind)

abbrev pub found_or : Option Text → Option (Text × Text) → Option (Text × Text)
found_or (some behind) later = some ([], behind)
found_or none later = later

unfoldable pub cut_at : Text → Text → Option (Text × Text)
unfolding strip_prefix
cut_at sep [] = found_or (strip_prefix [] sep) none
cut_at sep (c ∷ s) = found_or (strip_prefix (c ∷ s) sep) (keep_byte c (cut_at sep s))
