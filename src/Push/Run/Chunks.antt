-- ===== src/Push/Run/Chunks.antt =====
-- The chunks of a run: they are its paths in their order, and different if the paths are.
use aeroflare.Base.{
  ℕ, zero, suc, ◌≤◌, ◌<◌, ◌≡◌, refl, sym, ap, ◌∙◌, subst, inl, inr, Bool, true, false, Option, none,
  some, List, [], ◌∷◌, ◌++◌, arith, le_refl, Bool-cases, if_true, if_false, length, take, drop,
  take-append-drop, length-drop, length-take, All, In, Distinct, Distinct-append_left,
  Distinct-append_right, Text, Dict, text_eq,
}
use aeroflare.Push.Run.{
  chunk_size, chunks, hashes_of, held_upstream, truly_filtered, filter_paths, PushConfig, World,
  filter_found, filter_with,
}

unfoldable pub concat : List (List Text) → List Text
concat [] = []
concat (c ∷ cs) = c ++ concat cs

-- The chunks are the paths in their order.
pub concat-chunks :
    (fuel : ℕ) (paths : List Text) → length paths ≤ fuel → concat (chunks fuel paths) ≡ paths
unfolding chunks concat
concat-chunks zero [] fits = refl
concat-chunks zero (p ∷ ps) fits = absurd (omega arith)
concat-chunks (suc fuel) [] fits = refl
concat-chunks (suc fuel) (p ∷ ps) fits =
    ap (λ rest. take chunk_size (p ∷ ps) ++ rest)
      (concat-chunks fuel (drop chunk_size (p ∷ ps))
        (omega (arith, length-drop chunk_size (p ∷ ps))))
    ∙ take-append-drop chunk_size (p ∷ ps)

-- No chunk is empty or larger than the limit.
pub chunks-All :
    (fuel : ℕ) (paths : List Text)
    → All (λ c. (0 < length c) × (length c ≤ chunk_size)) (chunks fuel paths)
unfolding chunks
chunks-All zero paths = tt
chunks-All (suc fuel) [] = tt
chunks-All (suc fuel) (p ∷ ps) = (
  (omega (arith, length-take chunk_size (p ∷ ps)), omega (arith, length-take chunk_size (p ∷ ps))),
  chunks-All fuel (drop chunk_size (p ∷ ps)),
)

Distinct-concat : (cs : List (List Text)) → Distinct (concat cs) → All Distinct cs
unfolding concat
Distinct-concat [] d = tt
Distinct-concat (c ∷ cs) d = (
  Distinct-append_left c (concat cs) d,
  Distinct-concat cs (Distinct-append_right c (concat cs) d),
)

pub chunks-Distinct :
    (paths : List Text) → Distinct paths → All Distinct (chunks (length paths) paths)
chunks-Distinct paths d =
    Distinct-concat (chunks (length paths) paths)
      (subst Distinct (sym (concat-chunks (length paths) paths (le_refl (length paths)))) d)

-- What is left of different paths is different.
truly_filtered-In :
    (exists : Dict Text Bool) (paths : List Text) (p : Text)
    → In p (truly_filtered exists paths)
    → In p paths
unfolding truly_filtered
truly_filtered-In exists [] p m = m
truly_filtered-In exists (q ∷ qs) p m = elim (Bool-cases (held_upstream exists q)) [
  | inl held ↦
      inr
        (truly_filtered-In exists qs p (subst (In p) (if_true (held_upstream exists q) _ _ held) m))
  | inr new ↦ elim (subst (In p) (if_false (held_upstream exists q) _ _ new) m) [
    | inl e ↦ inl e
    | inr m' ↦ inr (truly_filtered-In exists qs p m')
  ]
]

truly_filtered-Distinct :
    (exists : Dict Text Bool) (paths : List Text)
    → Distinct paths
    → Distinct (truly_filtered exists paths)
unfolding truly_filtered
truly_filtered-Distinct exists [] d = tt
truly_filtered-Distinct exists (q ∷ qs) (fresh, d) = elim (Bool-cases (held_upstream exists q)) [
  | inl held ↦ rw held (truly_filtered-Distinct exists qs d)
  | inr new ↦
      rw new ((λ m. fresh (truly_filtered-In exists qs q m)), truly_filtered-Distinct exists qs d)
]

filter_found-Distinct :
    (found : Option (Dict Text Bool)) (paths : List Text)
    → Distinct paths
    → Distinct (filter_found found paths)
filter_found-Distinct none paths d = d
filter_found-Distinct (some exists) paths d = truly_filtered-Distinct exists paths d

filter_with-Distinct :
    (w : World) (force_push : Bool) (url : Text) (paths : List Text)
    → Distinct paths
    → Distinct (filter_with w force_push url paths)
filter_with-Distinct w force_push [] paths d = d
filter_with-Distinct w true (c ∷ url) paths d = d
filter_with-Distinct w false (c ∷ url) paths d =
    filter_found-Distinct (w.exists_batch (hashes_of paths)) paths d

pub filter_paths-Distinct :
    (w : World) (cfg : PushConfig) → Distinct cfg.target_paths → Distinct (filter_paths w cfg)
unfolding filter_paths
filter_paths-Distinct w cfg d =
    filter_with-Distinct w cfg.force_push cfg.cache_url cfg.target_paths d
