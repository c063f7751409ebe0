-- ===== src/Base/Sort.antt =====
-- `sort.Strings`: the strings in the order of their bytes. Strings that the order does not tell
-- apart are equal, so the sorted list is the same for every sorting algorithm.
use mathlib.Core.Path.{◌≡◌, refl, ap, sym, ◌∙◌, subst}
use mathlib.Core.Logic.{◌⊎◌, inl, inr}
use mathlib.Core.Bool.{Bool, true, false, ◌&&◌, ◌||◌}
use mathlib.Core.List.{List, [], ◌∷◌, Perm, foldr}
use mathlib.Core.List.Perm
use native.Mathlib.Omega.{arith}
use aeroflare.Base.Tests.{ltb, nat_beq, if◌then◌else◌, Bool-cases, if_true, if_false}
use aeroflare.Base.Texts.{Text}
use aeroflare.Base.Lists.{In}

-- `s <= t` on strings.
unfoldable pub text_leb : Text → Text → Bool
text_leb [] t = true
text_leb (a ∷ s) [] = false
text_leb (a ∷ s) (b ∷ t) = ltb a b || (nat_beq a b && text_leb s t)

pub text_leb_total : (s t : Text) → (text_leb s t ≡ true) ⊎ (text_leb t s ≡ true)
unfolding text_leb
text_leb_total [] t = inl refl
text_leb_total (a ∷ s) [] = inr refl
text_leb_total (a ∷ s) (b ∷ t) = ground (arith, text_leb_total s t)

pub text_leb_trans :
    (s t u : Text) → text_leb s t ≡ true → text_leb t u ≡ true → text_leb s u ≡ true
unfolding text_leb
text_leb_trans [] t u h k = refl
text_leb_trans (a ∷ s) [] u h k = cc
text_leb_trans (a ∷ s) (b ∷ t) [] h k = cc
text_leb_trans (a ∷ s) (b ∷ t) (c ∷ u) h k = ground (arith, text_leb_trans s t u)

insert_sorted : Text → List Text → List Text
insert_sorted x [] = x ∷ []
insert_sorted x (y ∷ ys) =
    let later = y ∷ insert_sorted x ys in if text_leb x y then x ∷ y ∷ ys else later

unfoldable pub sort : List Text → List Text
unfolding insert_sorted text_leb
sort [] = []
sort (x ∷ xs) = insert_sorted x (sort xs)

-- Every element is at most each one behind it.
abbrev pub AtMostAll : Text → List Text → Type 0
AtMostAll x [] = Unit
AtMostAll x (y ∷ ys) = (text_leb x y ≡ true) × AtMostAll x ys

abbrev pub IsSorted : List Text → Type 0
IsSorted [] = Unit
IsSorted (x ∷ xs) = AtMostAll x xs × IsSorted xs

AtMostAll-trans :
    (x y : Text) (ys : List Text) → text_leb x y ≡ true → AtMostAll y ys → AtMostAll x ys
AtMostAll-trans x y [] h k = tt
AtMostAll-trans x y (z ∷ zs) h (k, ks) = (text_leb_trans x y z h k, AtMostAll-trans x y zs h ks)

insert_sorted-AtMostAll :
    (x y : Text) (ys : List Text)
    → text_leb y x ≡ true
    → AtMostAll y ys
    → AtMostAll y (insert_sorted x ys)
unfolding insert_sorted
insert_sorted-AtMostAll x y [] h k = (h, tt)
insert_sorted-AtMostAll x y (z ∷ zs) h (k, ks) = elim (Bool-cases (text_leb x z)) [
  | inl here ↦ rw here (h, (k, ks))
  | inr later ↦ rw later (k, insert_sorted-AtMostAll x y zs h ks)
]

insert_sorted-IsSorted : (x : Text) (ys : List Text) → IsSorted ys → IsSorted (insert_sorted x ys)
unfolding insert_sorted
insert_sorted-IsSorted x [] s = (tt, tt)
insert_sorted-IsSorted x (y ∷ ys) (a, s) = elim (Bool-cases (text_leb x y)) [
  | inl here ↦ rw here ((here, AtMostAll-trans x y ys here a), (a, s))
  | inr later ↦
      let back : text_leb y x ≡ true = elim (text_leb_total x y) [ inl h ↦ cc | inr h ↦ h ] in
      rw later (insert_sorted-AtMostAll x y ys back a, insert_sorted-IsSorted x ys s)
]

pub sort-IsSorted : (xs : List Text) → IsSorted (sort xs)
unfolding sort
sort-IsSorted [] = tt
sort-IsSorted (x ∷ xs) = insert_sorted-IsSorted x (sort xs) (sort-IsSorted xs)

insert_sorted-perm : (x : Text) (ys : List Text) → Perm (insert_sorted x ys) (x ∷ ys)
unfolding insert_sorted
insert_sorted-perm x [] = Perm.refl (x ∷ [])
insert_sorted-perm x (y ∷ ys) = elim (Bool-cases (text_leb x y)) [
  | inl here ↦ rw here (Perm.refl (x ∷ y ∷ ys))
  | inr later ↦ rw later (Perm.trans (Perm.cons y (insert_sorted-perm x ys)) (Perm.swap x y ys))
]

pub sort-perm : (xs : List Text) → Perm (sort xs) xs
unfolding sort
sort-perm [] = Perm.refl []
sort-perm (x ∷ xs) = Perm.trans (insert_sorted-perm x (sort xs)) (Perm.cons x (sort-perm xs))

text_leb_antisym : (s t : Text) → text_leb s t ≡ true → text_leb t s ≡ true → s ≡ t
unfolding text_leb
text_leb_antisym [] [] h k = refl
text_leb_antisym [] (b ∷ t) h k = cc
text_leb_antisym (a ∷ s) [] h k = cc
text_leb_antisym (a ∷ s) (b ∷ t) h k = ground (arith, text_leb_antisym s t)

insert_sorted_comm :
    (x y : Text) (zs : List Text)
    → insert_sorted x (insert_sorted y zs) ≡ insert_sorted y (insert_sorted x zs)
unfolding insert_sorted
insert_sorted_comm x y [] = ground (arith, text_leb_total x y, text_leb_antisym x y)
insert_sorted_comm x y (z ∷ zs) = ground (
  arith,
  text_leb_total x y,
  text_leb_antisym x y,
  text_leb_trans x y z,
  text_leb_trans y x z,
  insert_sorted_comm x y zs,
)

sort-foldr : (xs : List Text) → sort xs ≡ foldr insert_sorted [] xs
unfolding sort
sort-foldr [] = refl
sort-foldr (x ∷ xs) = ap (insert_sorted x) (sort-foldr xs)

-- The order of a slice is lost when it is sorted.
pub sort_of_perm : {xs ys : List Text} → Perm xs ys → sort xs ≡ sort ys
sort_of_perm {xs} {ys} p =
    sort-foldr xs
    ∙ Perm.foldr-eq (hlevel) insert_sorted insert_sorted_comm p []
    ∙ sym (sort-foldr ys)

insert_sorted-In : (p x : Text) (ys : List Text) → (p ≡ x) ⊎ In p ys → In p (insert_sorted x ys)
unfolding insert_sorted
insert_sorted-In p x [] (inl e) = inl e
insert_sorted-In p x [] (inr m) = absurd m
insert_sorted-In p x (y ∷ ys) h = elim (Bool-cases (text_leb x y)) [
  | inl here ↦ rw here h
  | inr later ↦ rw later (elim h [
    | inl e ↦ inr (insert_sorted-In p x ys (inl e))
    | inr (inl e) ↦ inl e
    | inr (inr m) ↦ inr (insert_sorted-In p x ys (inr m))
  ])
]

In-insert_sorted : (p x : Text) (ys : List Text) → In p (insert_sorted x ys) → (p ≡ x) ⊎ In p ys
unfolding insert_sorted
In-insert_sorted p x [] m = m
In-insert_sorted p x (y ∷ ys) m = elim (Bool-cases (text_leb x y)) [
  | inl here ↦ subst (In p) (if_true (text_leb x y) _ _ here) m
  | inr later ↦ elim (subst (In p) (if_false (text_leb x y) _ _ later) m) [
    | inl e ↦ inr (inl e)
    | inr m' ↦ elim (In-insert_sorted p x ys m') [ inl e ↦ inl e | inr m'' ↦ inr (inr m'') ]
  ]
]

-- A sorted list has the elements of the list.
pub sort-In : (p : Text) (xs : List Text) → In p xs → In p (sort xs)
unfolding sort
sort-In p [] m = m
sort-In p (x ∷ xs) (inl e) = insert_sorted-In p x (sort xs) (inl e)
sort-In p (x ∷ xs) (inr m) = insert_sorted-In p x (sort xs) (inr (sort-In p xs m))

pub In-sort : (p : Text) (xs : List Text) → In p (sort xs) → In p xs
unfolding sort
In-sort p [] m = m
In-sort p (x ∷ xs) m = elim (In-insert_sorted p x (sort xs) m) [
  | inl e ↦ inl e
  | inr m' ↦ inr (In-sort p xs m')
]
