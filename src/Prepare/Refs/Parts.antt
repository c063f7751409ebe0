-- ===== src/Prepare/Refs/Parts.antt =====
-- The passes of `prepareRefsRecursive`, one by one.
use aeroflare.Base.{
  ◌≡◌, refl, sym, ap, ◌∙◌, subst, ◌⊎◌, inl, inr, Bool, some, List, [], ◌∷◌, map, Bool-cases, In,
  Distinct, In-append_left, In-append_right, In-append, In-map, contains, In-of_contains,
  not-In_of_contains, Text, Dict, lookup, lookup-nil, lookup-insert_self, lookup-insert_ne,
  lookup-insert_cases, ◌>>=◌, >>=-eq-success, success-injective, or_fail, or_fail-success, success,
  text_eq,
}
use aeroflare.Prepare.Store.{PathInfo}
use aeroflare.Prepare.Tree.{Result, path_of, Info}
use aeroflare.Prepare.Refs.{
  Env, visit_new, write_nars_from_infos, all_missing, result_map, Config, prepare_level,
  gather_path_infos, collect_reference_hashes, check_ref_batch, write_level, new_info, write_failed,
  nil_info,
}

-- What the loop over `refPaths` leaves.
pub record VisitsNew (refs visited new visited' : List Text) : Type 0 where
  pub distinct : Distinct new
  pub fresh : (p : Text) → In p new → ¬ In p visited
  pub asked : (p : Text) → In p new → In p refs
  pub grown : (p : Text) → In p visited → In p visited'
  pub added : (p : Text) → In p new → In p visited'
  pub origin : (p : Text) → In p visited' → In p visited ⊎ In p new
  pub done : (p : Text) → In p refs → In p visited'

pub visit_new_lem :
    (refs visited : List Text)
    → VisitsNew refs visited (visit_new refs visited).0 (visit_new refs visited).1
unfolding visit_new
visit_new_lem [] visited = record {
  distinct = tt;
  fresh = λ p h. absurd h;
  asked = λ p h. h;
  grown = λ p h. h;
  added = λ p h. absurd h;
  origin = λ p h. inl h;
  done = λ p h. absurd h;
}
visit_new_lem (p ∷ ps) visited = elim (Bool-cases (contains visited p)) [
  | inl old ↦
      let v = visit_new_lem ps visited in
      rw old (record {
        distinct = v.distinct;
        fresh = v.fresh;
        asked = λ q h. inr (v.asked q h);
        grown = v.grown;
        added = v.added;
        origin = v.origin;
        done = λ q h. elim h [
          | inl e ↦ v.grown q (rw e (In-of_contains visited p old))
          | inr m ↦ v.done q m
        ];
      })
  | inr new ↦
      let v = visit_new_lem ps (p ∷ visited) in
      rw new (record {
        distinct = (λ h. v.fresh p h (inl refl), v.distinct);
        fresh = λ q h. elim h [
          | inl e ↦ rw e (not-In_of_contains visited p new)
          | inr m ↦ λ old. v.fresh q m (inr old)
        ];
        asked = λ q h. elim h [ inl e ↦ inl e | inr m ↦ inr (v.asked q m) ];
        grown = λ q h. v.grown q (inr h);
        added = λ q h. elim h [ inl e ↦ v.grown q (inl e) | inr m ↦ v.added q m ];
        origin = λ q h. elim (v.origin q h) [
          | inl (inl e) ↦ inr (inl e)
          | inl (inr old) ↦ inl old
          | inr m ↦ inr (inr m)
        ];
        done = λ q h. elim h [ inl e ↦ v.grown q (inl e) | inr m ↦ v.done q m ];
      })
]

-- Files are written for the paths asked for, in their order.
-- The first path's step, and the rest of the list.
pub write_nars_from_infos_cons :
    (env : Env) (cfg : Config) (infos : Dict Text PathInfo) (exists : Dict Text Bool) (p : Text)
    (ps : List Text) (level : List Info)
    → write_nars_from_infos env cfg infos exists (p ∷ ps) ≡ success level
    → (found : PathInfo) × (files : Text × Text) × (rest : List Info) × (lookup p infos
        ≡ some found)
      × (write_nars_from_infos env cfg infos exists ps ≡ success rest)
      × (level ≡ new_info cfg exists p found files ∷ rest)
unfolding write_nars_from_infos
write_nars_from_infos_cons env cfg infos exists p ps level h =
    let (found, hit, h₁) =
      >>=-eq-success (or_fail nil_info (lookup p infos))
        (λ found. or_fail write_failed (env.write_nar p found) >>= λ files.
          write_nars_from_infos env cfg infos exists ps >>= λ rest.
          success (new_info cfg exists p found files ∷ rest))
        h in
    let (files, _, h₂) =
      >>=-eq-success (or_fail write_failed (env.write_nar p found))
        (λ files. write_nars_from_infos env cfg infos exists ps >>= λ rest.
          success (new_info cfg exists p found files ∷ rest))
        h₁ in
    let (rest, written, h₃) =
      >>=-eq-success (write_nars_from_infos env cfg infos exists ps)
        (λ rest. success (new_info cfg exists p found files ∷ rest)) h₂ in
    (
      found,
      files,
      rest,
      or_fail-success nil_info (lookup p infos) hit,
      written,
      sym (success-injective h₃),
    )

pub write_nars_from_infos-paths :
    (env : Env) (cfg : Config) (infos : Dict Text PathInfo) (exists : Dict Text Bool)
    (paths : List Text) (level : List Info)
    → write_nars_from_infos env cfg infos exists paths ≡ success level
    → map (λ i. i.store_path) level ≡ paths
unfolding write_nars_from_infos
write_nars_from_infos-paths env cfg infos exists [] level h =
    ap (map (λ i. i.store_path)) (sym (success-injective h))
write_nars_from_infos-paths env cfg infos exists (p ∷ ps) level h =
    let (found, files, rest, _, written, e) =
      write_nars_from_infos_cons env cfg infos exists p ps level h in
    ap (map (λ i. i.store_path)) e
    ∙ ap (λ qs. p ∷ qs) (write_nars_from_infos-paths env cfg infos exists ps rest written)

pub prepare_level-paths :
    (env : Env) (cfg : Config) (paths : List Text) (level : List Info)
    → prepare_level env cfg paths ≡ success level
    → map (λ i. i.store_path) level ≡ paths
unfolding prepare_level write_level
prepare_level-paths env cfg paths level h =
    let (infos, _, written) =
      >>=-eq-success (gather_path_infos env paths) (write_level env cfg paths) h in
    write_nars_from_infos-paths env cfg infos
      (check_ref_batch env cfg (collect_reference_hashes infos [])) paths level written

-- Every missing reference of a level is asked for.
pub all_missing-In :
    (p : Text) (i : Info) (level : List Info) (seen : List Text)
    → In i level
    → In p i.missing_refs
    → In p seen ⊎ In p (all_missing level seen)
unfolding all_missing
all_missing-In p i [] seen m h = absurd m
all_missing-In p i (j ∷ js) seen (inl e) h =
    let v = visit_new_lem j.missing_refs seen in
    elim (v.origin p (v.done p (subst (λ k. In p k.missing_refs) e h))) [
      | inl old ↦ inl old
      | inr new ↦ inr (In-append_left p _ _ new)
    ]
all_missing-In p i (j ∷ js) seen (inr m) h =
    let v = visit_new_lem j.missing_refs seen in
    elim (all_missing-In p i js (visit_new j.missing_refs seen).1 m h) [
      | inr later ↦ inr (In-append_right p (visit_new j.missing_refs seen).0 _ later)
      | inl seen_now ↦ elim (v.origin p seen_now) [
        | inl old ↦ inl old
        | inr new ↦ inr (In-append_left p _ _ new)
      ]
    ]

-- A missing reference that is asked for is one of some path of the level.
pub In-all_missing :
    (p : Text) (level : List Info) (seen : List Text)
    → In p (all_missing level seen)
    → (i : Info) × In i level × In p i.missing_refs
unfolding all_missing
In-all_missing p [] seen h = absurd h
In-all_missing p (j ∷ js) seen h = elim (In-append p (visit_new j.missing_refs seen).0 _ h) [
  | inl here ↦ (j, inl refl, (visit_new_lem j.missing_refs seen).asked p here)
  | inr later ↦
      let (i, m, k) = In-all_missing p js (visit_new j.missing_refs seen).1 later in (i, inr m, k)
]

-- The map of results finds each of them by its path, if the paths differ.
pub lookup-result_map :
    (r : Result) (rs : List Result)
    → Distinct (map path_of rs)
    → In r rs
    → lookup (path_of r) (result_map rs) ≡ some r
unfolding result_map
lookup-result_map r [] d m = absurd m
lookup-result_map r (s ∷ rs) (new, d) (inl e) =
    rw e (lookup-insert_self (path_of s) s (result_map rs))
lookup-result_map r (s ∷ rs) (new, d) (inr m) =
    lookup-insert_ne (path_of s) (path_of r) s (result_map rs)
      (λ e. new (rw e (In-map (λ t. path_of t) r rs m)))
    ∙ lookup-result_map r rs d m

pub result_map-In :
    (p : Text) (r : Result) (rs : List Result)
    → lookup p (result_map rs) ≡ some r
    → (path_of r ≡ p) × In r rs
unfolding result_map
result_map-In p r [] h = absurd (cc (h, lookup-nil {V = Result} p))
result_map-In p r (s ∷ rs) h = elim (lookup-insert_cases (path_of s) p s r (result_map rs) h) [
  | inl (same, e) ↦ (rw (← e) same, inl (sym e))
  | inr (_, later) ↦ let (e, m) = result_map-In p r rs later in (e, inr m)
]
