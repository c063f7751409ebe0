-- ===== src/Upstream/Group/Union.antt =====
-- What the group answers is the union of what its members hold.
use mathlib.Core.Option.{some-injective}
use aeroflare.Base.{
  ◌≡◌, refl, sym, ap, ◌∙◌, subst, ◌↔◌, ◌⊎◌, inl, inr, Bool, true, false, Option, none, some, List,
  [], ◌∷◌, arith, Option-cases, In, Text, Dict, lookup, insert, lookup-nil, lookup-insert,
  lookup-insert_self, lookup-insert_cases, text_eq,
}
use aeroflare.Prepare.Refs.{is_upstream}
use aeroflare.Upstream.Group.{add_held, merge_members, group_exists_batch}

-- A member that answered holds the hash.
abbrev pub HeldByAny : List (Option (Dict Text Bool)) → Text → Type 0
HeldByAny ms h = (m : Dict Text Bool) × In (some m) ms × In (h, true) m

add_held-lookup :
    (m merged : Dict Text Bool) (h : Text) (v : Bool)
    → lookup h (add_held m merged) ≡ some v
    → (In (h, true) m × (v ≡ true)) ⊎ (lookup h merged ≡ some v)
unfolding add_held
add_held-lookup [] merged h v e = inr e
add_held-lookup ((k, true) ∷ m) merged h v e =
    elim (add_held-lookup m (insert k true merged) h v e) [
      | inl (n, t) ↦ inl (inr n, t)
      | inr later ↦ elim (lookup-insert_cases k h true v merged later) [
        | inl (same, t) ↦ inl (inl (ap (λ x. (x, true)) (sym same)), sym t)
        | inr (_, old) ↦ inr old
      ]
    ]
add_held-lookup ((k, false) ∷ m) merged h v e = elim (add_held-lookup m merged h v e) [
  | inl (n, t) ↦ inl (inr n, t)
  | inr old ↦ inr old
]

lookup-add_held :
    (m merged : Dict Text Bool) (h : Text)
    → In (h, true) m ⊎ (lookup h merged ≡ some true)
    → lookup h (add_held m merged) ≡ some true
unfolding add_held
lookup-add_held [] merged h (inl n) = absurd n
lookup-add_held [] merged h (inr e) = e
lookup-add_held ((k, true) ∷ m) merged h (inl (inl same)) =
    lookup-add_held m (insert k true merged) h (
      inr (
        subst (λ (x : Text × Bool). lookup x.0 (insert k true merged) ≡ some true) (sym same)
          (lookup-insert_self k true merged)))
lookup-add_held ((k, true) ∷ m) merged h (inl (inr n)) =
    lookup-add_held m (insert k true merged) h (inl n)
lookup-add_held ((k, true) ∷ m) merged h (inr e) =
    lookup-add_held m (insert k true merged) h
      (inr (ground (arith, lookup-insert k h true merged, e)))
lookup-add_held ((k, false) ∷ m) merged h (inl (inl same)) =
    absurd (cc (ap (λ (x : Text × Bool). x.1) same))
lookup-add_held ((k, false) ∷ m) merged h (inl (inr n)) = lookup-add_held m merged h (inl n)
lookup-add_held ((k, false) ∷ m) merged h (inr e) = lookup-add_held m merged h (inr e)

merge_members-lookup :
    (ms : List (Option (Dict Text Bool))) (merged : Dict Text Bool) (h : Text) (v : Bool)
    → lookup h (merge_members ms merged) ≡ some v
    → (HeldByAny ms h × (v ≡ true)) ⊎ (lookup h merged ≡ some v)
unfolding merge_members
merge_members-lookup [] merged h v e = inr e
merge_members-lookup (none ∷ ms) merged h v e = elim (merge_members-lookup ms merged h v e) [
  | inl ((m, mm, n), t) ↦ inl ((m, inr mm, n), t)
  | inr old ↦ inr old
]
merge_members-lookup (some m ∷ ms) merged h v e =
    elim (merge_members-lookup ms (add_held m merged) h v e) [
      | inl ((m', mm, n), t) ↦ inl ((m', inr mm, n), t)
      | inr later ↦ elim (add_held-lookup m merged h v later) [
        | inl (n, t) ↦ inl ((m, inl refl, n), t)
        | inr old ↦ inr old
      ]
    ]

lookup-merge_members :
    (ms : List (Option (Dict Text Bool))) (merged : Dict Text Bool) (h : Text)
    → HeldByAny ms h ⊎ (lookup h merged ≡ some true)
    → lookup h (merge_members ms merged) ≡ some true
unfolding merge_members
lookup-merge_members [] merged h (inl (m, mm, n)) = absurd mm
lookup-merge_members [] merged h (inr e) = e
lookup-merge_members (none ∷ ms) merged h (inl (m, inl same, n)) = absurd (cc same)
lookup-merge_members (none ∷ ms) merged h (inl (m, inr mm, n)) =
    lookup-merge_members ms merged h (inl (m, mm, n))
lookup-merge_members (none ∷ ms) merged h (inr e) = lookup-merge_members ms merged h (inr e)
lookup-merge_members (some m ∷ ms) merged h (inl (m', inl same, n)) =
    lookup-merge_members ms (add_held m merged) h (
      inr (
        lookup-add_held m merged h
          (inl (subst (λ d. In (h, true) d) (some-injective m' m same) n))))
lookup-merge_members (some m ∷ ms) merged h (inl (m', inr mm, n)) =
    lookup-merge_members ms (add_held m merged) h (inl (m', mm, n))
lookup-merge_members (some m ∷ ms) merged h (inr e) =
    lookup-merge_members ms (add_held m merged) h (inr (lookup-add_held m merged h (inr e)))

is_upstream-some :
    (exists : Dict Text Bool) (h : Text) → is_upstream exists h ≡ true → lookup h exists ≡ some true
is_upstream-some exists h e = elim (Option-cases (lookup h exists)) [
  | inl miss ↦ absurd (cc (sym e ∙ ap (λ o. elim o [ none ↦ false | some held ↦ held ]) miss))
  | inr (v, hit) ↦
      hit ∙ ap some (sym (ap (λ o. elim o [ none ↦ false | some held ↦ held ]) hit) ∙ e)
]

-- When hashes are asked for, the group answers that a hash is held exactly if a member that
-- answered holds it, in whatever order the members answer and whichever of them fail.
pub group_exists_batch_iff :
    (ms : List (Option (Dict Text Bool))) (asked : Text) (hashes : List Text) (h : Text)
    → (is_upstream (group_exists_batch ms (asked ∷ hashes)) h ≡ true) ↔ HeldByAny ms h
unfolding group_exists_batch
group_exists_batch_iff [] asked hashes h =
    (λ e. absurd (cc (sym (is_upstream-some [] h e) ∙ lookup-nil h)), λ (m, mm, n). absurd mm)
group_exists_batch_iff (m ∷ ms) asked hashes h = (
  λ e.
      elim (merge_members-lookup (m ∷ ms) [] h true
        (is_upstream-some (merge_members (m ∷ ms) []) h e)) [
          | inl (held, _) ↦ held
          | inr none_there ↦ absurd (cc (sym none_there ∙ lookup-nil h))
        ],
  λ held.
      ap (λ o. elim o [ none ↦ false | some v ↦ v ])
        (lookup-merge_members (m ∷ ms) [] h (inl held)),
)
