-- ===== src/Ci/Settings/Resolved.antt =====
-- What holds of resolved settings.
use aeroflare.Ci.Settings.{no_builds, no_caches}
use aeroflare.Base.{
  suc, ◌<◌, ◌≡◌, refl, sym, ap, ◌∙◌, subst, ◌≢◌, ◌⊎◌, inl, inr, true, false, ◌||◌, Option, none,
  some, List, [], ◌∷◌, ◌++◌, arith, ◌==◌, Bool-cases, text_beq, text_beq_iff, if_true, if_false,
  length, All, Text, codes, trim_space, cut, ◌>>=◌, >>=-eq-success, success-injective, success,
  text_eq,
}
use aeroflare.Ci.Outputs.{has_sentinel}
use aeroflare.Ci.Changed.{changed_sentinel}
use aeroflare.Ci.Settings.{
  action_input_names, is_action_input, validate_builds, checked_spec, without_scheme, spec_of_parts,
  parse_cache_spec, resolve_upstreams, validate_changed_settings, parse_caches, some_list,
  CacheSpec, SettingsError, Inputs, RunSpec, merge, run_spec, resolve_caches, resolve_destinations,
  resolve_policy, parse_policy, resolve_changed_settings, resolve_checked, resolve_merged, resolve,
}

-- No entry is a setting of the action that was indented too far.
abbrev pub IsClean : Text → Type 0
IsClean b = is_action_input action_input_names (trim_space b) ≡ false

validate_builds-All :
    (builds : List Text) (u : Unit {0}) → validate_builds builds ≡ success u → All IsClean builds
unfolding validate_builds
validate_builds-All [] u h = tt
validate_builds-All (b ∷ bs) u h =
    elim (Bool-cases (is_action_input action_input_names (trim_space b))) [
      | inl bad ↦
          absurd
            (cc (sym (if_true (is_action_input action_input_names (trim_space b)) _ _ bad) ∙ h))
      | inr clean ↦ (
        clean,
        validate_builds-All bs u
            (sym (if_false (is_action_input action_input_names (trim_space b)) _ _ clean) ∙ h),
      )
    ]

-- A cache with a registry and a repository.
pub record IsCache (c : CacheSpec) : Type 0 where
  pub registry : c.registry ≢ []
  pub repository : c.repository ≢ []
  pub raw : c.raw ≡ c.registry ++ codes ";" ++ c.repository

ne-nil_of_beq : (s : Text) → text_beq s [] ≡ false → s ≢ []
unfolding text_beq
ne-nil_of_beq s h e = cc (sym (ap (λ t. text_beq t []) e) ∙ h)

checked_spec-IsCache :
    (registry repository : Text) (c : CacheSpec)
    → checked_spec registry repository ≡ success c
    → IsCache c
checked_spec-IsCache registry repository c h = elim (Bool-cases (registry == [])) [
  | inl e ↦ absurd (ground (arith, e, h))
  | inr full ↦ elim (Bool-cases (repository == [])) [
    | inl e ↦ absurd (ground (arith, e, full, h))
    | inr full' ↦
        let test : (registry == [] || repository == []) ≡ false = rw (full, full') refl in
        subst IsCache
          (success-injective (sym (if_false (registry == [] || repository == []) _ _ test) ∙ h))
          (record {
            registry = ne-nil_of_beq registry full;
            repository = ne-nil_of_beq repository full';
            raw = refl;
          })
  ]
]

spec_of_parts-IsCache :
    (parts : Option (Text × Text)) (c : CacheSpec) → spec_of_parts parts ≡ success c → IsCache c
spec_of_parts-IsCache none c h = absurd (cc h)
spec_of_parts-IsCache (some (registry, repository)) c h =
    checked_spec-IsCache (without_scheme registry) (trim_space repository) c h

parse_caches-IsCache :
    (raw : List Text) (specs : List CacheSpec)
    → parse_caches raw ≡ success specs
    → All IsCache specs × (length specs ≡ length raw)
unfolding parse_caches parse_cache_spec
parse_caches-IsCache [] specs h =
    subst (λ (cs : List CacheSpec). All IsCache cs × (length cs ≡ 0)) (success-injective h)
      (tt, refl)
parse_caches-IsCache (r ∷ rs) specs h =
    let (c, hc, h1) =
      >>=-eq-success (parse_cache_spec r)
        (λ spec. parse_caches rs >>= λ specs'. success (spec ∷ specs')) h in
    let (cs, hcs, h2) = >>=-eq-success (parse_caches rs) (λ specs'. success (c ∷ specs')) h1 in
    let (good, same) = parse_caches-IsCache rs cs hcs in
    subst (λ (ds : List CacheSpec). All IsCache ds × (length ds ≡ suc (length rs)))
      (success-injective h2)
      ((spec_of_parts-IsCache (cut b';' (trim_space r)) c hc, good), ap suc same)

length-positive : (xs : List Text) → xs ≢ [] → 0 < length xs
length-positive [] h = absurd (h refl)
length-positive (x ∷ xs) h = omega arith

-- Settings that a run may start from.
pub record IsResolved (m : Inputs) (spec : RunSpec) : Type 0 where
  pub builds : spec.builds ≡ m.builds
  pub some_build : spec.builds ≢ []
  pub clean : All IsClean spec.builds
  -- A base or a policy is set only if an entry reads it.
  pub is_read :
      (trim_space m.base_ref ≢ []) ⊎ (trim_space m.on_missing_base ≢ [])
      → has_sentinel m.builds changed_sentinel ≡ true
  pub caches : All IsCache spec.caches
  pub some_cache : 0 < length spec.caches
  pub all_caches : length spec.caches ≡ length m.caches
  pub upstreams : resolve_upstreams m.upstream_caches ≡ success spec.upstream_caches

some_list-success :
    (e : SettingsError) (xs ys : List Text) → some_list e xs ≡ success ys → (xs ≡ ys) × (ys ≢ [])
some_list-success e [] ys h = absurd (cc h)
some_list-success e (x ∷ xs) ys h = (success-injective h, λ gone. cc (success-injective h ∙ gone))

validate_changed_settings-read :
    (builds : List Text) (base_ref on_missing_base : Text) (u : Unit {0})
    → validate_changed_settings builds base_ref on_missing_base ≡ success u
    → (trim_space base_ref ≢ []) ⊎ (trim_space on_missing_base ≢ [])
    → has_sentinel builds changed_sentinel ≡ true
unfolding validate_changed_settings
validate_changed_settings-read builds base_ref on_missing_base u h used = ground (
  arith,
  h,
  used,
  text_beq_iff (trim_space base_ref) [],
  text_beq_iff (trim_space on_missing_base) [],
)

-- Settings that `Resolve` accepts have builds, none of which is a misplaced input of the action,
-- and caches, each with a registry and a repository; a base or a policy for a missing base is
-- given only if an entry asks for the changed outputs.
pub resolve-IsResolved :
    (fc over : Inputs) (spec : RunSpec)
    → resolve fc over ≡ success spec
    → IsResolved (merge fc over) spec
unfolding resolve resolve_merged resolve_checked resolve_changed_settings resolve_policy
    resolve_destinations resolve_caches
resolve-IsResolved fc over spec h =
    let m = merge fc over in
    let (builds, hb, h1) = >>=-eq-success (some_list no_builds m.builds) (resolve_checked m) h in
    let (u, hv, h2) =
      >>=-eq-success (validate_builds builds) (resolve_changed_settings m builds) h1 in
    let (policy, hp, h3) =
      >>=-eq-success
        (validate_changed_settings builds m.base_ref m.on_missing_base >>= parse_policy m)
        (resolve_policy m builds) h2 in
    let (u', hu, _) =
      >>=-eq-success (validate_changed_settings builds m.base_ref m.on_missing_base)
        (parse_policy m) hp in
    let (raw, hr, h4) =
      >>=-eq-success (some_list no_caches m.caches) (resolve_destinations m builds policy) h3 in
    let (ups, hups, h5) =
      >>=-eq-success (resolve_upstreams m.upstream_caches) (resolve_caches m builds policy raw)
        h4 in
    let (caches, hc, h6) =
      >>=-eq-success (parse_caches raw) (λ cs. success (run_spec m builds policy ups cs)) h5 in
    let (same_builds, any_build) = some_list-success no_builds m.builds builds hb in
    let (same_caches, any_cache) = some_list-success no_caches m.caches raw hr in
    let (good, same_length) = parse_caches-IsCache raw caches hc in
    subst (IsResolved m) (success-injective h6) (record {
      builds = sym same_builds;
      some_build = any_build;
      clean = validate_builds-All builds u hv;
      is_read = λ used.
          subst (λ bs. has_sentinel bs changed_sentinel ≡ true) (sym same_builds)
            (validate_changed_settings-read builds m.base_ref m.on_missing_base u' hu used);
      caches = good;
      some_cache = subst (λ n. 0 < n) (sym same_length) (length-positive raw any_cache);
      all_caches = same_length ∙ ap length (sym same_caches);
      upstreams = hups;
    })
