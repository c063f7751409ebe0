-- ===== src/Base/Dicts.antt =====
-- Go's `map[K]V` as an association list: a write to a key that is there replaces its value, and
-- a read of one that is not there gives `none`, where Go gives the zero value.
use mathlib.Core.Path.{◌≡◌, refl}
use mathlib.Core.Logic.{◌⊎◌, inl, inr, ◌≢◌}
use mathlib.Core.List.{List, [], ◌∷◌}
use mathlib.Core.Option.{Option, none, some}
use native.Mathlib.Omega.{arith}
use aeroflare.Base.Tests.{Comparable, ◌==◌, if◌then◌else◌, Bool-cases}

abbrev pub Dict : Type 0 → Type 0 → Type 0
Dict K V = List (K × V)

module _ {K V : Type 0} ⦃eq : Comparable K⦄ where
  unfoldable pub lookup : K → Dict K V → Option V
  lookup k [] = none
  lookup k ((key, v) ∷ d) = if key == k then some v else lookup k d

  unfoldable pub insert : K → V → Dict K V → Dict K V
  insert k v [] = (k, v) ∷ []
  insert k v ((key, w) ∷ d) = if key == k then (k, v) ∷ d else (key, w) ∷ insert k v d

  unfoldable pub delete : K → Dict K V → Dict K V
  delete k [] = []
  delete k ((key, w) ∷ d) = let rest = delete k d in if key == k then rest else (key, w) ∷ rest

  pub lookup-nil : (k : K) → ◌≡◌ {A = Option V} (lookup k []) none
  unfolding lookup
  lookup-nil k = refl

  pub lookup-insert :
      (k key : K) (v : V) (d : Dict K V)
      → lookup key (insert k v d) ≡ (if k == key then some v else lookup key d)
  unfolding lookup insert
  lookup-insert k key v [] = refl
  lookup-insert k key v ((i, w) ∷ d) = ground (
    arith,
    eq.is_same_iff k key,
    eq.is_same_iff i k,
    eq.is_same_iff i key,
    lookup-insert k key v d,
  )

  pub lookup-insert_self : (k : K) (v : V) (d : Dict K V) → lookup k (insert k v d) ≡ some v
  lookup-insert_self k v d = rw (lookup-insert, (eq.is_same_iff k k).1 refl)

  pub lookup-insert_ne :
      (k key : K) (v : V) (d : Dict K V) → k ≢ key → lookup key (insert k v d) ≡ lookup key d
  lookup-insert_ne k key v d h = elim (Bool-cases (k == key)) [
    | inl same ↦ absurd (h ((eq.is_same_iff k key).0 same))
    | inr other ↦ rw (lookup-insert, other)
  ]

  pub lookup-delete :
      (k key : K) (d : Dict K V)
      → lookup key (delete k d) ≡ (if k == key then none else lookup key d)
  unfolding lookup delete
  lookup-delete k key [] = ground arith
  lookup-delete k key ((i, w) ∷ d) =
      ground (
        arith,
        eq.is_same_iff k key,
        eq.is_same_iff i k,
        eq.is_same_iff i key,
        lookup-delete k key d,
      )

  -- What an entry of a grown dictionary may be.
  pub lookup-insert_cases :
      (k key : K) (v w : V) (d : Dict K V)
      → lookup key (insert k v d) ≡ some w
      → ((k ≡ key) × (v ≡ w)) ⊎ ((k ≢ key) × (lookup key d ≡ some w))
  lookup-insert_cases k key v w d h = elim (Bool-cases (k == key)) [
    | inl same ↦ inl ((eq.is_same_iff k key).0 same, ground (arith, lookup-insert k key v d))
    | inr other ↦
        inr (λ p. cc ((eq.is_same_iff k key).1 p), ground (arith, lookup-insert k key v d))
  ]
