-- ===== src/Narinfo/RoundTrip.antt =====
-- What `String` writes, `Parse` reads back.
use aeroflare.Base.{
  ◌≤◌, ◌<◌, ◌≡◌, refl, ap, ◌∙◌, ◌≢◌, true, some, List, [], ◌∷◌, ◌++◌, arith, leb, text_beq, length,
  All, All-append, Text, codes, join, cut_at, nat_eq, text_eq,
}
use aeroflare.Decimal.RoundTrip.{parse_int-format_int, format_int-length, format_int-AtLeastMinus}
use aeroflare.Narinfo.Fields.{IsWord, fields-join}
use aeroflare.Decimal.{IsInt64, format_int, ℤ}
use aeroflare.Narinfo.{Narinfo, optional_line, lines_of, parse_lines, drop_cr, to_string, parse}
use aeroflare.Narinfo.Lines.{IsLine, value_IsLine, IsValue, scan_lines-unlines}
use Prim.Native.String.{String}
use mathlib.Core.Option
use mathlib.Core.Bool.{Bool, ◌&&◌}
use aeroflare.Narinfo.{empty, parse_line, set_field}

-- Fields that the format can hold.
pub record IsWellFormed (n : Narinfo) : Type 0 where
  pub store_path : IsValue n.store_path
  pub url : IsValue n.url
  pub compression : IsValue n.compression
  pub file_hash : IsValue n.file_hash
  pub file_size : IsInt64 n.file_size
  pub nar_hash : IsValue n.nar_hash
  pub nar_size : IsInt64 n.nar_size
  pub words : All IsWord n.references
  pub references : IsValue (join (codes " ") n.references)
  pub deriver : IsValue n.deriver
  pub system : IsValue n.system
  pub sig : IsValue n.sig

drop_cr_id : (v : Text) → All (λ c. b'-' ≤ c) v → drop_cr v ≡ v
unfolding drop_cr
drop_cr_id [] h = refl
drop_cr_id (c ∷ []) (h, _) = ground arith
drop_cr_id (c ∷ d ∷ v) (_, h) = ap (λ s. c ∷ s) (drop_cr_id (d ∷ v) h)

no_newline_of_AtLeastMinus : (v : Text) → All (λ c. b'-' ≤ c) v → All (λ c. c ≢ b'\n') v
no_newline_of_AtLeastMinus [] h = tt
no_newline_of_AtLeastMinus (c ∷ v) (h, hs) = (omega arith, no_newline_of_AtLeastMinus v hs)

-- A decimal print makes a line.
format_int-IsValue : (z : ℤ) → IsInt64 z → IsValue (format_int z)
format_int-IsValue z fits = record {
  no_newline = no_newline_of_AtLeastMinus (format_int z) (format_int-AtLeastMinus z);
  no_cr = drop_cr_id (format_int z) (format_int-AtLeastMinus z);
  short = omega (arith, format_int-length z fits);
}

-- The keys of the format, tested.
unfoldable pub is_clean : Text → Bool
is_clean [] = true
is_clean (c ∷ s) = leb b' ' c && is_clean s

clean_no_newline : (s : Text) → is_clean s ≡ true → All (λ c. c ≢ b'\n') s
unfolding is_clean
clean_no_newline [] h = tt
clean_no_newline (c ∷ s) h = (ground arith, clean_no_newline s (ground arith))

pub clean_IsValue : (v : Text) → is_clean v ≡ true → drop_cr v ≡ v → length v < 65000 → IsValue v
clean_IsValue v clean cr small = record {
  no_newline = clean_no_newline v clean;
  no_cr = cr;
  short = small;
}

-- A line of a key and a value.
key-IsLine :
    (k v : Text) → is_clean k ≡ true → drop_cr k ≡ k → length k < 100 → IsValue v → IsLine (k ++ v)
key-IsLine k v clean = value_IsLine k v (clean_no_newline k clean)

optional_lines :
    (key : String) (value : Text)
    → is_clean (codes key) ≡ true
    → drop_cr (codes key) ≡ codes key
    → length (codes key) < 100
    → IsValue value
    → All IsLine (optional_line key value)
optional_lines key [] clean cr small h = tt
optional_lines key (c ∷ v) clean cr small h = (key-IsLine (codes key) (c ∷ v) clean cr small h, tt)

required_lines :
    (n : Narinfo)
    → IsWellFormed n
    → (rest : List Text) → All IsLine rest
    → All IsLine (
        (codes "StorePath: " ++ n.store_path)
        ∷ (codes "URL: " ++ n.url)
        ∷ (codes "Compression: " ++ n.compression)
        ∷ (codes "FileHash: " ++ n.file_hash)
        ∷ (codes "FileSize: " ++ format_int n.file_size)
        ∷ (codes "NarHash: " ++ n.nar_hash)
        ∷ (codes "NarSize: " ++ format_int n.nar_size)
        ∷ (codes "References: " ++ join (codes " ") n.references)
        ∷ rest)
unfolding is_clean drop_cr
required_lines n h rest hs = (
  key-IsLine (codes "StorePath: ") n.store_path refl refl (omega arith) h.store_path,
  (
    key-IsLine (codes "URL: ") n.url refl refl (omega arith) h.url,
    (
      key-IsLine (codes "Compression: ") n.compression refl refl (omega arith) h.compression,
      (
        key-IsLine (codes "FileHash: ") n.file_hash refl refl (omega arith) h.file_hash,
        (
          key-IsLine (codes "FileSize: ") (format_int n.file_size) refl refl (omega arith)
              (format_int-IsValue n.file_size h.file_size),
          (
            key-IsLine (codes "NarHash: ") n.nar_hash refl refl (omega arith) h.nar_hash,
            (
              key-IsLine (codes "NarSize: ") (format_int n.nar_size) refl refl (omega arith)
                  (format_int-IsValue n.nar_size h.nar_size),
              (
                key-IsLine (codes "References: ") (join (codes " ") n.references) refl refl
                    (omega arith) h.references,
                hs,
              ),
            ),
          ),
        ),
      ),
    ),
  ),
)

pub lines_of-IsLine : (n : Narinfo) → IsWellFormed n → All IsLine (lines_of n)
unfolding lines_of is_clean drop_cr
lines_of-IsLine n h =
    required_lines n h
      (optional_line "Deriver: " n.deriver
        ++ (optional_line "System: " n.system ++ optional_line "Sig: " n.sig))
      (All-append IsLine (optional_line "Deriver: " n.deriver)
        (optional_line "System: " n.system ++ optional_line "Sig: " n.sig)
        (optional_lines "Deriver: " n.deriver refl refl (omega arith) h.deriver)
        (All-append IsLine (optional_line "System: " n.system) (optional_line "Sig: " n.sig)
          (optional_lines "System: " n.system refl refl (omega arith) h.system)
          (optional_lines "Sig: " n.sig refl refl (omega arith) h.sig)))

-- A field whose line is left out keeps its zero value.
read_deriver :
    (n : Narinfo) (deriver : Text) (rest : List Text)
    → n.deriver ≡ []
    → parse_lines n (optional_line "Deriver: " deriver ++ rest)
      ≡ parse_lines (record n { deriver = deriver }) rest
unfolding parse_lines parse_line cut_at set_field text_beq
read_deriver n [] rest e = ap (λ d. parse_lines (record n { deriver = d }) rest) e
read_deriver n (c ∷ v) rest e = refl

read_system :
    (n : Narinfo) (system : Text) (rest : List Text)
    → n.system ≡ []
    → parse_lines n (optional_line "System: " system ++ rest)
      ≡ parse_lines (record n { system = system }) rest
unfolding parse_lines parse_line cut_at set_field text_beq
read_system n [] rest e = ap (λ d. parse_lines (record n { system = d }) rest) e
read_system n (c ∷ v) rest e = refl

read_sig :
    (n : Narinfo) (sig : Text)
    → n.sig ≡ []
    → parse_lines n (optional_line "Sig: " sig) ≡ record n { sig = sig }
unfolding parse_lines parse_line cut_at set_field text_beq
read_sig n [] e = ap (λ d. record n { sig = d }) e
read_sig n (c ∷ v) e = refl

-- The line of the references, empty or not.
read_references :
    (n : Narinfo) (references : List Text) (rest : List Text)
    → n.references ≡ []
    → All IsWord references
    → parse_lines n ((codes "References: " ++ join (codes " ") references) ∷ rest)
      ≡ parse_lines (record n { references = references }) rest
unfolding parse_lines parse_line cut_at set_field text_beq
read_references n [] rest e words =
    unfold join in ap (λ rs. parse_lines (record n { references = rs }) rest) e
read_references n ([] ∷ ws) rest e (h, _) = absurd (h.0 refl)
read_references n ((c ∷ w) ∷ []) rest e words =
    unfold join in
    ap (λ rs. parse_lines (record n { references = rs }) rest) (fields-join ((c ∷ w) ∷ []) words)
read_references n ((c ∷ w) ∷ v ∷ ws) rest e words =
    unfold join in
    ap (λ rs. parse_lines (record n { references = rs }) rest)
      (fields-join ((c ∷ w) ∷ v ∷ ws) words)

-- The lines that are always written set their fields.
read_required :
    (n : Narinfo) (rest : List Text)
    → IsInt64 n.file_size
    → IsInt64 n.nar_size
    → parse_lines empty (
        (codes "StorePath: " ++ n.store_path)
        ∷ (codes "URL: " ++ n.url)
        ∷ (codes "Compression: " ++ n.compression)
        ∷ (codes "FileHash: " ++ n.file_hash)
        ∷ (codes "FileSize: " ++ format_int n.file_size)
        ∷ (codes "NarHash: " ++ n.nar_hash)
        ∷ (codes "NarSize: " ++ format_int n.nar_size)
        ∷ rest)
      ≡ parse_lines (record n { references = []; deriver = []; system = []; sig = [] }) rest
unfolding parse_lines parse_line cut_at set_field text_beq
read_required n rest fits fits' =
    rw (parse_int-format_int n.file_size fits, parse_int-format_int n.nar_size fits') refl

read_optional :
    (n : Narinfo) (deriver system sig : Text)
    → n.deriver ≡ []
    → n.system ≡ []
    → n.sig ≡ []
    → parse_lines n (
        optional_line "Deriver: " deriver
        ++ (optional_line "System: " system ++ optional_line "Sig: " sig))
      ≡ record n { deriver = deriver; system = system; sig = sig }
read_optional n deriver system sig d s g =
    read_deriver n deriver (optional_line "System: " system ++ optional_line "Sig: " sig) d
    ∙ read_system (record n { deriver = deriver }) system (optional_line "Sig: " sig) s
    ∙ read_sig (record n { deriver = deriver; system = system }) sig g

read_lines : (n : Narinfo) → IsWellFormed n → parse_lines empty (lines_of n) ≡ n
unfolding lines_of
read_lines n h =
    let optional =
      optional_line "Deriver: " n.deriver
      ++ (optional_line "System: " n.system ++ optional_line "Sig: " n.sig) in
    read_required n ((codes "References: " ++ join (codes " ") n.references) ∷ optional) h.file_size
      h.nar_size
    ∙ read_references (record n { references = []; deriver = []; system = []; sig = [] })
        n.references optional refl h.words
    ∙ read_optional (record n { deriver = []; system = []; sig = [] }) n.deriver n.system n.sig refl
        refl refl

-- For a narinfo whose text fields hold no newline, end in no carriage return and are shorter than
-- 65000 bytes, whose references are words and whose sizes are in the range of int64, `Parse` of
-- what `String` writes gives the narinfo back.
pub parse-to_string : (n : Narinfo) → IsWellFormed n → parse (to_string n) ≡ some n
unfolding parse to_string
parse-to_string n h =
    ap (Option.map (parse_lines empty)) (scan_lines-unlines (lines_of n) (lines_of-IsLine n h))
    ∙ ap some (read_lines n h)
