-- ===== src/Narinfo.antt =====
-- pkg/prepare/narinfo/narinfo.go: the narinfo text of a NAR, written and parsed.
pub mod Lines
pub mod Fields
pub mod RoundTrip
use aeroflare.Base.{
  ℕ, Option, none, some, List, [], ◌∷◌, ◌++◌, leb, if◌then◌else◌, ◌==◌, length, Text, codes, split,
  join, fields, cut_at, text_eq, nat_eq,
}
use aeroflare.Decimal.{ℤ, format_int, parse_int, pos}
use Prim.Native.String.{String}
use mathlib.Core.Option

-- `Narinfo`.
pub record Narinfo : Type 0 where
  pub store_path : Text
  pub url : Text
  pub compression : Text
  pub file_hash : Text
  pub file_size : ℤ
  pub nar_hash : Text
  pub nar_size : ℤ
  pub references : List Text
  pub deriver : Text
  pub system : Text
  pub sig : Text

-- The zero value.
abbrev pub empty : Narinfo
empty = record {
  store_path = [];
  url = [];
  compression = [];
  file_hash = [];
  file_size = pos 0;
  nar_hash = [];
  nar_size = pos 0;
  references = [];
  deriver = [];
  system = [];
  sig = [];
}

-- A line that is written only if its value is not empty.
abbrev pub optional_line : String → Text → List Text
optional_line key [] = []
optional_line key (c ∷ value) = (codes key ++ (c ∷ value)) ∷ []

-- The lines that `String` writes. An empty list of references keeps the space behind its colon.
unfoldable pub lines_of : Narinfo → List Text
unfolding format_int join
lines_of n =
    (codes "StorePath: " ++ n.store_path)
    ∷ (codes "URL: " ++ n.url)
    ∷ (codes "Compression: " ++ n.compression)
    ∷ (codes "FileHash: " ++ n.file_hash)
    ∷ (codes "FileSize: " ++ format_int n.file_size)
    ∷ (codes "NarHash: " ++ n.nar_hash)
    ∷ (codes "NarSize: " ++ format_int n.nar_size)
    ∷ (codes "References: " ++ join (codes " ") n.references)
    ∷ (optional_line "Deriver: " n.deriver
        ++ (optional_line "System: " n.system ++ optional_line "Sig: " n.sig))

-- Each line with the newline behind it.
unfoldable pub unlines : List Text → Text
unlines [] = []
unlines (l ∷ ls) = l ++ (b'\n' ∷ unlines ls)

-- `String`.
unfoldable pub to_string : Narinfo → Text
unfolding lines_of unlines
to_string n = unlines (lines_of n)

-- The `switch` of `Parse` on the key of a line.
unfoldable pub set_field : Narinfo → Text → Text → Narinfo
unfolding fields parse_int
set_field n key value =
    if key == codes "StorePath"
    then record n { store_path = value }
    else if key == codes "URL"
    then record n { url = value }
    else if key == codes "Compression"
    then record n { compression = value }
    else if key == codes "FileHash"
    then record n { file_hash = value }
    else if key == codes "FileSize"
    then record n { file_size = parse_int value }
    else if key == codes "NarHash"
    then record n { nar_hash = value }
    else if key == codes "NarSize"
    then record n { nar_size = parse_int value }
    else if key == codes "References"
    then (if value == [] then n else record n { references = fields value })
    else if key == codes "Deriver"
    then (if value == [] then n else record n { deriver = value })
    else if key == codes "System"
    then record n { system = value }
    else if key == codes "Sig"
    then record n { sig = value }
    else n

-- One round of the loop of `Parse`: lines without ": " are skipped.
abbrev pub set_cut : Narinfo → Option (Text × Text) → Narinfo
set_cut n none = n
set_cut n (some (key, value)) = set_field n key value

unfoldable pub parse_line : Narinfo → Text → Narinfo
unfolding cut_at set_field
parse_line n line = set_cut n (cut_at (codes ": ") line)

unfoldable pub parse_lines : Narinfo → List Text → Narinfo
unfolding parse_line
parse_lines n [] = n
parse_lines n (l ∷ ls) = parse_lines (parse_line n l) ls

-- bufio.Scanner over lines: no line of 64 KiB or more, its newline not counted.
abbrev pub max_token : ℕ
max_token = 65536

-- The newline that ends a line is cut off, and one carriage return in front of it.
unfoldable pub drop_cr : Text → Text
drop_cr [] = []
drop_cr (c ∷ []) = if c == b'\r' then [] else c ∷ []
drop_cr (c ∷ d ∷ s) = c ∷ drop_cr (d ∷ s)

-- Text behind the last newline is a line only if it is not empty.
unfoldable pub without_empty_last : List Text → List Text
without_empty_last [] = []
without_empty_last ([] ∷ []) = []
without_empty_last ((c ∷ l) ∷ []) = (c ∷ l) ∷ []
without_empty_last (l ∷ m ∷ ls) = l ∷ without_empty_last (m ∷ ls)

-- The tokens of the scanner, or the error that a token is too long.
unfoldable pub scan_tokens : List Text → Option (List Text)
unfolding drop_cr
scan_tokens [] = some []
scan_tokens (l ∷ ls) =
    if leb max_token (length l) then none else Option.map (λ ts. drop_cr l ∷ ts) (scan_tokens ls)

unfoldable pub scan_lines : Text → Option (List Text)
unfolding split without_empty_last scan_tokens
scan_lines s = scan_tokens (without_empty_last (split b'\n' s))

-- `Parse`: `none` is the scanner's error, on which every caller drops the value.
unfoldable pub parse : Text → Option Narinfo
unfolding scan_lines parse_lines
parse s = Option.map (parse_lines empty) (scan_lines s)
