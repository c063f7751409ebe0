-- ===== src/Narinfo/Lines.antt =====
-- The scanner reads back the lines that are written.
use aeroflare.Base.{
  ◌<◌, ◌≡◌, refl, ap, ◌∙◌, ◌≢◌, false, some, List, [], ◌∷◌, ◌++◌, arith, leb, ◌==◌, leb-false,
  length, length-append, All, All-append, Text, split, nat_eq,
}
use mathlib.Core.List.{tail}
use aeroflare.Narinfo.{max_token, drop_cr, unlines, without_empty_last, scan_tokens, scan_lines}

-- Lines that the scanner gives back as they are: they hold no newline, end in no carriage return
-- and are shorter than the scanner's limit.
pub record IsLine (l : Text) : Type 0 where
  pub no_newline : All (λ c. c ≢ b'\n') l
  pub no_cr : drop_cr l ≡ l
  pub short : length l < max_token

split_cons :
    (l : Text) (rest : Text)
    → All (λ c. c ≢ b'\n') l
    → split b'\n' (l ++ (b'\n' ∷ rest)) ≡ l ∷ split b'\n' rest
unfolding split
split_cons [] rest h = refl
split_cons (c ∷ l) rest (h, hs) =
    let other : (c == b'\n') ≡ false = ground arith in rw (other, split_cons l rest hs) refl

split-ne-nil : (s : Text) → split b'\n' s ≢ []
unfolding split
split-ne-nil [] e = cc e
split-ne-nil (c ∷ s) e = ground (arith, split-ne-nil s)

without_empty_last_cons :
    (l : Text) (ls : List Text) → ls ≢ [] → without_empty_last (l ∷ ls) ≡ l ∷ without_empty_last ls
unfolding without_empty_last
without_empty_last_cons l [] h = absurd (h refl)
without_empty_last_cons [] (m ∷ ls) h = refl
without_empty_last_cons (c ∷ l) (m ∷ ls) h = refl

raw_lines : (ls : List Text) → All IsLine ls → without_empty_last (split b'\n' (unlines ls)) ≡ ls
unfolding unlines
raw_lines [] h = unfold split without_empty_last in refl
raw_lines (l ∷ ls) (h, hs) =
    ap without_empty_last (split_cons l (unlines ls) h.no_newline)
    ∙ without_empty_last_cons l (split b'\n' (unlines ls)) (split-ne-nil (unlines ls))
    ∙ ap (λ ms. l ∷ ms) (raw_lines ls hs)

scan_tokens_lines : (ls : List Text) → All IsLine ls → scan_tokens ls ≡ some ls
unfolding scan_tokens
scan_tokens_lines [] h = refl
scan_tokens_lines (l ∷ ls) (h, hs) =
    let fits : leb max_token (length l) ≡ false = leb-false (length l) max_token h.short in
    rw (fits, scan_tokens_lines ls hs, h.no_cr) refl

-- The scanner gives back the lines that were written.
pub scan_lines-unlines : (ls : List Text) → All IsLine ls → scan_lines (unlines ls) ≡ some ls
unfolding scan_lines
scan_lines-unlines ls h = ap scan_tokens (raw_lines ls h) ∙ scan_tokens_lines ls h

-- Values that make a line behind any key of the format.
pub record IsValue (v : Text) : Type 0 where
  pub no_newline : All (λ c. c ≢ b'\n') v
  pub no_cr : drop_cr v ≡ v
  pub short : length v < 65000

drop_cr-append : (k v : Text) → drop_cr k ≡ k → drop_cr v ≡ v → drop_cr (k ++ v) ≡ k ++ v
unfolding drop_cr
drop_cr-append [] v hk hv = hv
drop_cr-append (c ∷ []) [] hk hv = hk
drop_cr-append (c ∷ []) (d ∷ v) hk hv = ap (λ s. c ∷ s) hv
drop_cr-append (c ∷ d ∷ k) v hk hv = ap (λ s. c ∷ s) (drop_cr-append (d ∷ k) v (ap tail hk) hv)

pub value_IsLine :
    (k v : Text)
    → All (λ c. c ≢ b'\n') k
    → drop_cr k ≡ k
    → length k < 100
    → IsValue v
    → IsLine (k ++ v)
value_IsLine k v clean cr small h = record {
  no_newline = All-append (λ c. c ≢ b'\n') k v clean h.no_newline;
  no_cr = drop_cr-append k v cr h.no_cr;
  short = omega (arith, length-append k v, h.short);
}
