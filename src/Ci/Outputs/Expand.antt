-- ===== src/Ci/Outputs/Expand.antt =====
-- The expanded build list.
use aeroflare.Base.{
  refl, sym, subst, ◌↔◌, ◌⊎◌, inl, inr, List, [], ◌∷◌, ◌++◌, Bool-cases, if_true, if_false, In,
  Distinct, In-append_left, In-append_right, In-append, Distinct-append_one, contains,
  In-of_contains, not-In_of_contains, Text, Dict, text_eq,
}
use aeroflare.Ci.Outputs.{add_entries, entries_of, expand_from, expand_builds}

-- The set `seen` and the list are the same entries, each once.
record IsSeen (seen out : List Text) : Type 0 where
  distinct : Distinct out
  listed : (e : Text) → In e seen → In e out
  is_seen : (e : Text) → In e out → In e seen

add_entries-IsSeen :
    (es seen out : List Text)
    → IsSeen seen out
    → IsSeen (add_entries es seen out).0 (add_entries es seen out).1
unfolding add_entries
add_entries-IsSeen [] seen out h = h
add_entries-IsSeen (e ∷ es) seen out h = elim (Bool-cases (contains seen e)) [
  | inl old ↦ rw old (add_entries-IsSeen es seen out h)
  | inr new ↦ rw new (
      add_entries-IsSeen es (e ∷ seen) (out ++ e ∷ []) (record {
        distinct =
            Distinct-append_one out e h.distinct
              (λ m. not-In_of_contains seen e new (h.is_seen e m));
        listed = λ f m. elim m [
          | inl same ↦ In-append_right f out (e ∷ []) (inl same)
          | inr m' ↦ In-append_left f out (e ∷ []) (h.listed f m')
        ];
        is_seen = λ f m. elim (In-append f out (e ∷ []) m) [
          | inl m' ↦ inr (h.is_seen f m')
          | inr m' ↦ elim m' [ inl same ↦ inl same | inr none_left ↦ absurd none_left ]
        ];
      }))
]

-- The entries of the build list.
abbrev pub Asked : Dict Text (List Text) → List Text → Text → Type 0
Asked expansions builds e = (b : Text) × In b builds × In e (entries_of expansions b)

add_entries-grows :
    (es seen out : List Text) (e : Text) → In e seen → In e (add_entries es seen out).0
unfolding add_entries
add_entries-grows [] seen out e m = m
add_entries-grows (f ∷ fs) seen out e m = elim (Bool-cases (contains seen f)) [
  | inl old ↦ rw old (add_entries-grows fs seen out e m)
  | inr new ↦ rw new (add_entries-grows fs (f ∷ seen) (out ++ f ∷ []) e (inr m))
]

add_entries-In : (es seen out : List Text) (e : Text) → In e es → In e (add_entries es seen out).0
unfolding add_entries
add_entries-In [] seen out e m = absurd m
add_entries-In (f ∷ fs) seen out e (inl same) = elim (Bool-cases (contains seen f)) [
  | inl old ↦ rw old (
      add_entries-grows fs seen out e
        (subst (λ g. In g seen) (sym same) (In-of_contains seen f old)))
  | inr new ↦ rw new (add_entries-grows fs (f ∷ seen) (out ++ f ∷ []) e (inl same))
]
add_entries-In (f ∷ fs) seen out e (inr m) = elim (Bool-cases (contains seen f)) [
  | inl old ↦ rw old (add_entries-In fs seen out e m)
  | inr new ↦ rw new (add_entries-In fs (f ∷ seen) (out ++ f ∷ []) e m)
]

add_entries_origin :
    (es seen out : List Text) (e : Text) → In e (add_entries es seen out).0 → In e es ⊎ In e seen
unfolding add_entries
add_entries_origin [] seen out e m = inr m
add_entries_origin (f ∷ fs) seen out e m = elim (Bool-cases (contains seen f)) [
  | inl old ↦
      elim (add_entries_origin fs seen out e
        (subst (λ (s : List Text × List Text). In e s.0) (if_true (contains seen f) _ _ old) m)) [
          | inl m' ↦ inl (inr m')
          | inr m' ↦ inr m'
        ]
  | inr new ↦
      elim (add_entries_origin fs (f ∷ seen) (out ++ f ∷ []) e
        (subst (λ (s : List Text × List Text). In e s.0) (if_false (contains seen f) _ _ new) m)) [
          | inl m' ↦ inl (inr m')
          | inr (inl same) ↦ inl (inl same)
          | inr (inr m') ↦ inr m'
        ]
]

module _ (expansions : Dict Text (List Text)) where
  expand_from-IsSeen :
      (bs seen out : List Text)
      → IsSeen seen out
      → IsSeen (expand_from bs expansions (seen, out)).0 (expand_from bs expansions (seen, out)).1
  unfolding expand_from
  expand_from-IsSeen [] seen out h = h
  expand_from-IsSeen (b ∷ bs) seen out h =
      let next = add_entries (entries_of expansions b) seen out in
      expand_from-IsSeen bs next.0 next.1 (add_entries-IsSeen (entries_of expansions b) seen out h)

  expand_from-grows :
      (bs seen out : List Text) (e : Text)
      → In e seen
      → In e (expand_from bs expansions (seen, out)).0
  unfolding expand_from
  expand_from-grows [] seen out e m = m
  expand_from-grows (b ∷ bs) seen out e m =
      let next = add_entries (entries_of expansions b) seen out in
      expand_from-grows bs next.0 next.1 e
        (add_entries-grows (entries_of expansions b) seen out e m)

  expand_from-In :
      (bs seen out : List Text) (b e : Text)
      → In b bs
      → In e (entries_of expansions b)
      → In e (expand_from bs expansions (seen, out)).0
  unfolding expand_from
  expand_from-In [] seen out b e mb m = absurd mb
  expand_from-In (c ∷ bs) seen out b e (inl same) m =
      let next = add_entries (entries_of expansions c) seen out in
      expand_from-grows bs next.0 next.1 e (
        add_entries-In (entries_of expansions c) seen out e
          (subst (λ d. In e (entries_of expansions d)) same m))
  expand_from-In (c ∷ bs) seen out b e (inr mb) m =
      let next = add_entries (entries_of expansions c) seen out in
      expand_from-In bs next.0 next.1 b e mb m

  expand_from_origin :
      (bs seen out : List Text) (e : Text)
      → In e (expand_from bs expansions (seen, out)).0
      → Asked expansions bs e ⊎ In e seen
  unfolding expand_from
  expand_from_origin [] seen out e m = inr m
  expand_from_origin (c ∷ bs) seen out e m =
      let next = add_entries (entries_of expansions c) seen out in
      elim (expand_from_origin bs next.0 next.1 e m) [
        | inl (b, mb, me) ↦ inl (b, inr mb, me)
        | inr m' ↦ elim (add_entries_origin (entries_of expansions c) seen out e m') [
          | inl me ↦ inl (c, inl refl, me)
          | inr old ↦ inr old
        ]
      ]

  whole :
      (builds : List Text)
      → IsSeen (expand_from builds expansions ([], [])).0 (expand_builds builds expansions)
  unfolding expand_builds
  whole builds =
      expand_from-IsSeen builds [] []
        (record { distinct = tt; listed = λ e m. m; is_seen = λ e m. m })

  -- The expanded build list names each installable once, and it names exactly those that an entry
  -- of the list stands for: those of its expansion if the trimmed entry has one, itself if not.
  pub expand_builds_lem :
      (builds : List Text)
      → Distinct (expand_builds builds expansions)
        × ((e : Text) → In e (expand_builds builds expansions) ↔ Asked expansions builds e)
  unfolding expand_builds
  expand_builds_lem builds =
      let w = whole builds in
      (
        w.distinct,
        λ e. (
          λ m. elim (expand_from_origin builds [] [] e (w.is_seen e m)) [
            | inl asked ↦ asked
            | inr none_seen ↦ absurd none_seen
          ],
          λ (b, mb, me). w.listed e (expand_from-In builds [] [] b e mb me),
        ),
      )
