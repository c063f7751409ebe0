-- ===== src/Prepare/Refs/Terminates.antt =====
-- `prepareRefsRecursive` ends: on fuel above the number of unvisited paths it never runs out.
use aeroflare.Base.{
  ℕ, zero, suc, ◌≤◌, ◌<◌, ◌≡◌, refl, sym, ap, subst, ◌≢◌, inl, inr, Bool, Option, none, some, List,
  [], ◌∷◌, arith, if◌then◌else◌, Bool-cases, In, contains, In-of_contains, contains_of_In, Text,
  Dict, lookup, insert, lookup-nil, lookup-insert_cases, ◌>>=◌, >>=-eq-success, success-injective,
  or_fail, or_fail-success, Outcome, success, failure, text_eq,
}
use aeroflare.Push.Complete.Closed.{closed}
use aeroflare.Prepare.Refs.Parts.{
  write_nars_from_infos_cons, visit_new_lem, In-all_missing, VisitsNew,
}
use aeroflare.Prepare.Store.{PathInfo}
use aeroflare.Prepare.Tree.{Info, Result}
use aeroflare.Prepare.Refs.{
  Env, gather_path_infos, compute_missing_refs, write_nars_from_infos, Config, not_upstream,
  no_path_info, collect_reference_hashes, check_ref_batch, is_missing, visit_new, new_info,
  all_missing, write_level, prepare_level, attach_level, prepare_missing, prepare_new,
  prepare_refs_recursive, PrepareError, write_failed, nil_info, out_of_fuel,
}

-- The paths of the list that are not visited.
unfoldable pub unvisited : List Text → List Text → ℕ
unvisited [] visited = 0
unvisited (p ∷ ps) visited =
    if contains visited p then unvisited ps visited else suc (unvisited ps visited)

unvisited-le :
    (universe visited visited' : List Text)
    → ((p : Text) → In p visited → In p visited')
    → unvisited universe visited' ≤ unvisited universe visited
unfolding unvisited
unvisited-le [] visited visited' grown = omega arith
unvisited-le (p ∷ ps) visited visited' grown = elim (Bool-cases (contains visited p)) [
  | inl old ↦
      rw (old, contains_of_In visited' p (grown p (In-of_contains visited p old)))
        (unvisited-le ps visited visited' grown)
  | inr new ↦ rw new (ground (arith, unvisited-le ps visited visited' grown))
]

unvisited-lt :
    (universe visited visited' : List Text) (p : Text)
    → ((q : Text) → In q visited → In q visited')
    → In p universe
    → ¬ In p visited
    → In p visited'
    → unvisited universe visited' < unvisited universe visited
unfolding unvisited
unvisited-lt [] visited visited' p grown m unseen seen = absurd m
unvisited-lt (q ∷ qs) visited visited' p grown (inl e) unseen seen =
    elim (Bool-cases (contains visited q)) [
      | inl old ↦ absurd (unseen (rw e (In-of_contains visited q old)))
      | inr new ↦
          rw (new, contains_of_In visited' q (rw (← e) seen))
            (omega (arith, unvisited-le qs visited visited' grown))
    ]
unvisited-lt (q ∷ qs) visited visited' p grown (inr m) unseen seen =
    let later = unvisited-lt qs visited visited' p grown m unseen seen in
    elim (Bool-cases (contains visited q)) [
      | inl old ↦ rw (old, contains_of_In visited' q (grown q (In-of_contains visited q old))) later
      | inr new ↦ rw new (ground (arith, later))
    ]

-- The paths of the store are closed under references.
abbrev pub IsUniverse : Env → List Text → Type 0
IsUniverse env universe =
    (p : Text) (found : PathInfo)
    → In p universe
    → env.get_path_info p ≡ some found
    → (q : Text) → In q found.references
    → In q universe

gather_path_infos-lookup :
    (env : Env) (paths : List Text) (infos : Dict Text PathInfo) (p : Text) (found : PathInfo)
    → gather_path_infos env paths ≡ success infos
    → lookup p infos ≡ some found
    → env.get_path_info p ≡ some found
unfolding gather_path_infos
gather_path_infos-lookup env [] infos p found h hit =
    absurd (cc (hit, lookup-nil {V = PathInfo} p, ap (lookup p) (success-injective h)))
gather_path_infos-lookup env (q ∷ qs) infos p found h hit =
    let (here, got, h₁) =
      >>=-eq-success (or_fail no_path_info (env.get_path_info q))
        (λ found. gather_path_infos env qs >>= λ infos. success (insert q found infos)) h in
    let (rest, gathered, h₂) =
      >>=-eq-success (gather_path_infos env qs) (λ infos. success (insert q here infos)) h₁ in
    elim (lookup-insert_cases q p here found rest (rw (success-injective h₂) hit)) [
      | inl (same, value) ↦
          rw (← same, ← value) (or_fail-success no_path_info (env.get_path_info q) got)
      | inr (_, later) ↦ gather_path_infos-lookup env qs rest p found gathered later
    ]

not_upstream-In :
    (references : List Text) (exists : Dict Text Bool) (q : Text)
    → In q (not_upstream exists references)
    → In q references
unfolding not_upstream
not_upstream-In [] exists q h = h
not_upstream-In (r ∷ rs) exists q h = elim (Bool-cases (is_missing exists r)) [
  | inl missing ↦ elim (rw missing at h) [
    | inl e ↦ inl e
    | inr later ↦ inr (not_upstream-In rs exists q later)
  ]
  | inr held ↦ inr (not_upstream-In rs exists q (rw held at h))
]

compute_missing_refs-In :
    (references : List Text) (exists : Dict Text Bool) (q : Text)
    → In q (compute_missing_refs references exists)
    → In q references
unfolding compute_missing_refs
compute_missing_refs-In references [] q h = h
compute_missing_refs-In references (e ∷ es) q h = not_upstream-In references (e ∷ es) q h

write_nars_from_infos-refs :
    (env : Env) (cfg : Config) (infos : Dict Text PathInfo) (exists : Dict Text Bool)
    (paths : List Text) (level : List Info) (i : Info)
    → write_nars_from_infos env cfg infos exists paths ≡ success level
    → In i level
    → (p : Text) × (found : PathInfo) × In p paths
      × (lookup p infos ≡ some found)
      × (i.missing_refs ≡ compute_missing_refs found.references exists)
unfolding write_nars_from_infos
write_nars_from_infos-refs env cfg infos exists [] level i h m =
    absurd (subst (In i) (sym (success-injective h)) m)
write_nars_from_infos-refs env cfg infos exists (p ∷ ps) level i h m =
    let (found, files, rest, hit, written, e) =
      write_nars_from_infos_cons env cfg infos exists p ps level h in
    elim (subst (In i) e m) [
      | inl same ↦ (p, found, inl refl, hit, ap (λ j. j.missing_refs) same)
      | inr later ↦
          let (q, f, mq, hq, eq) =
            write_nars_from_infos-refs env cfg infos exists ps rest i written later in
          (q, f, inr mq, hq, eq)
    ]

-- The call did not run out of fuel.
abbrev pub Ends : {A : Type 0} → Outcome PrepareError A → Type 0
Ends r = r ≢ failure out_of_fuel

Ends-bind :
    {A B : Type 0} (m : Outcome PrepareError A) (f : A → Outcome PrepareError B)
    → Ends m
    → ((a : A) → m ≡ success a → Ends (f a))
    → Ends (m >>= f)
Ends-bind (success a) f h k = k a refl
Ends-bind (failure e) f h k = λ p. h (cc p)

Ends-success : {A : Type 0} (a : A) → Ends (success a)
Ends-success a p = cc p

Ends-or_fail : {A : Type 0} (e : PrepareError) (o : Option A) → e ≢ out_of_fuel → Ends (or_fail e o)
Ends-or_fail e none h p = h (cc p)
Ends-or_fail e (some a) h p = cc p

gather_path_infos-Ends : (env : Env) (paths : List Text) → Ends (gather_path_infos env paths)
unfolding gather_path_infos
gather_path_infos-Ends env [] = Ends-success []
gather_path_infos-Ends env (p ∷ ps) =
    Ends-bind _ _ (Ends-or_fail no_path_info (env.get_path_info p) (λ e. cc e)) λ found _.
      Ends-bind _ _ (gather_path_infos-Ends env ps) λ infos _. Ends-success (insert p found infos)

write_nars_from_infos-Ends :
    (env : Env) (cfg : Config) (infos : Dict Text PathInfo) (exists : Dict Text Bool)
    (paths : List Text)
    → Ends (write_nars_from_infos env cfg infos exists paths)
unfolding write_nars_from_infos
write_nars_from_infos-Ends env cfg infos exists [] = Ends-success []
write_nars_from_infos-Ends env cfg infos exists (p ∷ ps) =
    Ends-bind _ _ (Ends-or_fail nil_info (lookup p infos) (λ e. cc e)) λ found _.
      Ends-bind _ _ (Ends-or_fail write_failed (env.write_nar p found) (λ e. cc e)) λ files _.
        Ends-bind _ _ (write_nars_from_infos-Ends env cfg infos exists ps)
          λ rest _. Ends-success (new_info cfg exists p found files ∷ rest)

prepare_level-Ends :
    (env : Env) (cfg : Config) (paths : List Text) → Ends (prepare_level env cfg paths)
unfolding prepare_level write_level
prepare_level-Ends env cfg paths =
    Ends-bind (gather_path_infos env paths) (write_level env cfg paths)
      (gather_path_infos-Ends env paths) λ infos _. write_nars_from_infos-Ends env cfg infos _ paths

-- Every missing reference of a level lies in the universe.
prepare_level-In :
    (env : Env) (cfg : Config) (universe paths : List Text) (level : List Info) (q : Text)
    → IsUniverse env universe
    → ((p : Text) → In p paths → In p universe)
    → prepare_level env cfg paths ≡ success level
    → In q (all_missing level [])
    → In q universe
unfolding prepare_level write_level
prepare_level-In env cfg universe paths level q closed inside h m =
    let (i, mi, mq) = In-all_missing q level [] m in
    let (infos, gathered, written) =
      >>=-eq-success (gather_path_infos env paths) (write_level env cfg paths) h in
    let (p, found, mp, hit, e) =
      write_nars_from_infos-refs env cfg infos
        (check_ref_batch env cfg (collect_reference_hashes infos [])) paths level i written mi in
    closed p found (inside p mp) (gather_path_infos-lookup env paths infos p found gathered hit) q
      (compute_missing_refs-In found.references _ q (subst (In q) e mq))

prepare_missing-Ends :
    (recurse : List Text → List Text → Outcome PrepareError (List Result × List Text))
    (level : List Info) (visited missing : List Text)
    → Ends (recurse missing visited)
    → Ends (prepare_missing recurse level visited missing)
unfolding prepare_missing attach_level
prepare_missing-Ends recurse level visited [] h = λ p. cc p
prepare_missing-Ends recurse level visited (m ∷ ms) h =
    Ends-bind (recurse (m ∷ ms) visited) (attach_level level) h λ out _. λ p. cc p

prepare_new-Ends :
    (recurse : List Text → List Text → Outcome PrepareError (List Result × List Text)) (fuel : ℕ)
    (env : Env) (cfg : Config) (universe refs visited new visited' : List Text)
    → IsUniverse env universe
    → ((p : Text) → In p refs → In p universe)
    → unvisited universe visited < suc fuel
    → VisitsNew refs visited new visited'
    → ((refs' visited'' : List Text)
        → ((p : Text) → In p refs' → In p universe)
        → unvisited universe visited'' < fuel
        → Ends (recurse refs' visited''))
    → Ends (prepare_new recurse env cfg (new, visited'))
unfolding prepare_new
prepare_new-Ends recurse fuel env cfg universe refs visited [] visited' closed inside small v ends =
    λ p. cc p
prepare_new-Ends recurse fuel env cfg universe refs visited (p ∷ ps) visited' closed inside small v
      ends =
    let inside_new = λ (q : Text) (m : In q (p ∷ ps)). inside q (v.asked q m) in
    Ends-bind (prepare_level env cfg (p ∷ ps))
      (λ level. prepare_missing recurse level visited' (all_missing level []))
      (prepare_level-Ends env cfg (p ∷ ps))
      λ level prepared. prepare_missing-Ends recurse level visited' (all_missing level []) (
        ends (all_missing level []) visited'
          (λ q m. prepare_level-In env cfg universe (p ∷ ps) level q closed inside_new prepared m)
          (omega (
            arith,
            unvisited-lt universe visited visited' p v.grown (inside_new p (inl refl))
                (v.fresh p (inl refl)) (v.added p (inl refl)),
          )))

-- On more fuel than the universe has unvisited paths, the recursion ends.
pub prepare_refs_recursive-Ends :
    (fuel : ℕ) (env : Env) (cfg : Config) (universe refs visited : List Text)
    → IsUniverse env universe
    → ((p : Text) → In p refs → In p universe)
    → unvisited universe visited < fuel
    → prepare_refs_recursive fuel env cfg refs visited ≢ failure out_of_fuel
unfolding prepare_refs_recursive
prepare_refs_recursive-Ends zero env cfg universe refs visited closed inside small =
    absurd (omega arith)
prepare_refs_recursive-Ends (suc fuel) env cfg universe refs visited closed inside small =
    prepare_new-Ends (prepare_refs_recursive fuel env cfg) fuel env cfg universe refs visited
      (visit_new refs visited).0 (visit_new refs visited).1 closed inside small
      (visit_new_lem refs visited)
      (λ refs' visited' inside' small'.
        prepare_refs_recursive-Ends fuel env cfg universe refs' visited' closed inside' small')
