-- ===== src/Base/Spaces.antt =====
-- Facts about trimming and cutting.
use Prim.Native.Nat.{ℕ}
use mathlib.Core.Path.{◌≡◌, refl, ap, sym, ◌∙◌}
use mathlib.Core.Logic.{◌≢◌}
use mathlib.Core.Bool.{true, false}
use mathlib.Core.Option.{none, some}
use native.Mathlib.Omega.{arith}
use mathlib.Core.List.{[], ◌∷◌, ◌++◌, append-nil, reverse, reverse-append, reverse-reverse}
use aeroflare.Base.Tests.{not_same, if_true, if_false}
use aeroflare.Base.Lists.{All}
use aeroflare.Base.Texts.{
  trim_prefix, Text, is_space, keep_end, trim_left, trim_right, trim_space, cut, strip_prefix,
  has_prefix, has_suffix, trim_suffix, kept_front, keep_byte, found_or, cut_at,
}

abbrev pub IsSolid : Text → Type 0
IsSolid s = All (λ c. is_space c ≡ false) s

abbrev pub IsWhite : Text → Type 0
IsWhite s = All (λ c. is_space c ≡ true) s

pub trim_right-IsWhite : (s : Text) → IsWhite s → trim_right is_space s ≡ []
unfolding trim_right
trim_right-IsWhite [] h = refl
trim_right-IsWhite (c ∷ s) (first, h) =
    ap (keep_end is_space c) (trim_right-IsWhite s h) ∙ if_true _ _ _ first

pub trim_right-append :
    (s white : Text) → IsSolid s → IsWhite white → trim_right is_space (s ++ white) ≡ s
unfolding trim_right
trim_right-append [] white solid h = trim_right-IsWhite white h
trim_right-append (c ∷ []) white (first, solid) h =
    ap (keep_end is_space c) (trim_right-IsWhite white h) ∙ if_false _ _ _ first
trim_right-append (c ∷ d ∷ s) white (first, solid) h =
    ap (keep_end is_space c) (trim_right-append (d ∷ s) white solid h)

-- Texts that trimming leaves as they are.
pub record IsTrimmed (s : Text) : Type 0 where
  pub front : trim_left is_space s ≡ s
  pub end : trim_right is_space s ≡ s

pub IsTrimmed-of_solid : (s : Text) → IsSolid s → IsTrimmed s
unfolding trim_left
IsTrimmed-of_solid [] h = record { front = refl; end = trim_right-IsWhite [] tt }
IsTrimmed-of_solid (c ∷ s) (first, h) = record {
  front = if_false _ _ _ first;
  end =
      ap (trim_right is_space) (sym (append-nil (c ∷ s)))
      ∙ trim_right-append (c ∷ s) [] (first, h) tt;
}

pub trim_space-IsTrimmed : (s : Text) → IsTrimmed s → trim_space s ≡ s
unfolding trim_space
trim_space-IsTrimmed s h = ap (trim_right is_space) h.front ∙ h.end

-- A text that ends in no space keeps what stands in front of it.
pub trim_right-keep :
    (s : Text) (c : ℕ) (t : Text)
    → trim_right is_space (c ∷ t) ≡ c ∷ t
    → trim_right is_space (s ++ (c ∷ t)) ≡ s ++ (c ∷ t)
unfolding trim_right
trim_right-keep [] c t h = h
trim_right-keep (d ∷ []) c t h = ap (keep_end is_space d) h
trim_right-keep (d ∷ e ∷ s) c t h = ap (keep_end is_space d) (trim_right-keep (e ∷ s) c t h)

pub cut-append : (b : ℕ) (h t : Text) → All (λ c. c ≢ b) h → cut b (h ++ (b ∷ t)) ≡ some (h, t)
unfolding cut
cut-append b [] t clean = ground arith
cut-append b (c ∷ h) t (other, clean) = ground (arith, cut-append b h t clean)

pub strip_prefix-append : (p s : Text) → strip_prefix (p ++ s) p ≡ some s
unfolding strip_prefix
strip_prefix-append [] s = refl
strip_prefix-append (c ∷ p) s = ground (arith, strip_prefix-append p s)

pub has_prefix-append : (p s : Text) → has_prefix (p ++ s) p ≡ true
unfolding has_prefix
has_prefix-append [] [] = refl
has_prefix-append [] (c ∷ s) = refl
has_prefix-append (c ∷ p) s = ground (arith, has_prefix-append p s)

pub trim_suffix-append : (s p : Text) → trim_suffix (s ++ p) p ≡ s
unfolding trim_suffix
trim_suffix-append s p =
    ap (λ r. kept_front (s ++ p) (strip_prefix r (reverse p))) (reverse-append s p)
    ∙ ap (kept_front (s ++ p)) (strip_prefix-append (reverse p) (reverse s))
    ∙ reverse-reverse s

pub has_suffix-append : (s p : Text) → has_suffix (s ++ p) p ≡ true
unfolding has_suffix
has_suffix-append s p =
    ap (λ r. has_prefix r (reverse p)) (reverse-append s p)
    ∙ has_prefix-append (reverse p) (reverse s)

-- A text is found behind one that lacks its first byte.
pub cut_at-append :
    (c : ℕ) (sep s t : Text)
    → All (λ d. d ≢ c) s
    → cut_at (c ∷ sep) (s ++ ((c ∷ sep) ++ t)) ≡ some (s, t)
unfolding cut_at strip_prefix
cut_at-append c sep [] t h =
    ap (λ o. found_or o (keep_byte c (cut_at (c ∷ sep) (sep ++ t))))
      (strip_prefix-append (c ∷ sep) t)
cut_at-append c sep (d ∷ s) t (other, h) =
    ap (λ o. found_or o (keep_byte d (cut_at (c ∷ sep) (s ++ ((c ∷ sep) ++ t)))))
      (if_false _ _ _ (not_same d c other))
    ∙ ap (keep_byte d) (cut_at-append c sep s t h)

pub trim_prefix-append : (p s : Text) → trim_prefix (p ++ s) p ≡ s
unfolding trim_prefix
trim_prefix-append p s =
    ap (λ o. elim o [ none ↦ p ++ s | some rest ↦ rest ]) (strip_prefix-append p s)
