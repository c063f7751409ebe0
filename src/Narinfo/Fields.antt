-- ===== src/Narinfo/Fields.antt =====
-- `strings.Fields` reads back the references that `strings.Join` puts on one line.
use aeroflare.Base.{
  ◌≡◌, refl, sym, ap, ◌∙◌, ◌≢◌, false, List, [], ◌∷◌, ◌++◌, append_assoc, append-nil, All, Text,
  codes, is_space, join, add_field, fields_from, fields, nat_eq,
}

-- A word: not empty, and no white space in it.
abbrev pub IsWord : Text → Type 0
IsWord w = (w ≢ []) × All (λ c. is_space c ≡ false) w

fields_from-append :
    (w s rest : Text)
    → All (λ c. is_space c ≡ false) s
    → fields_from w (s ++ rest) ≡ fields_from (w ++ s) rest
unfolding fields_from
fields_from-append w [] rest h = ap (λ v. fields_from v rest) (sym (append-nil w))
fields_from-append w (c ∷ s) rest (h, hs) =
    rw (h, fields_from-append (w ++ c ∷ []) s rest hs, append_assoc w (c ∷ []) s) refl

fields_from_word : (w : Text) → IsWord w → fields_from w [] ≡ w ∷ []
unfolding fields_from add_field
fields_from_word [] (h, _) = absurd (h refl)
fields_from_word (c ∷ w) h = refl

fields_from_space :
    (w rest : Text) → IsWord w → fields_from w (b' ' ∷ rest) ≡ w ∷ fields_from [] rest
unfolding fields_from add_field
fields_from_space [] rest (h, _) = absurd (h refl)
fields_from_space (c ∷ w) rest h = refl

pub fields-join : (ws : List Text) → All IsWord ws → fields (join (codes " ") ws) ≡ ws
unfolding fields join
fields-join [] h = unfold fields_from add_field in refl
fields-join (w ∷ []) (h, _) =
    ap (fields_from []) (sym (append-nil w)) ∙ fields_from-append [] w [] h.1 ∙ fields_from_word w h
fields-join (w ∷ v ∷ ws) (h, hs) =
    fields_from-append [] w (b' ' ∷ join (codes " ") (v ∷ ws)) h.1
    ∙ fields_from_space w (join (codes " ") (v ∷ ws)) h
    ∙ ap (λ us. w ∷ us) (fields-join (v ∷ ws) hs)
