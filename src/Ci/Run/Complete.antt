-- ===== src/Ci/Run/Complete.antt =====
-- A run that succeeds has built and pushed everything.
use mathlib.Core.Option.{some-injective}
use aeroflare.Base.{
  ℕ, suc, ◌≤◌, ◌≡◌, refl, sym, ap, ◌∙◌, ◌≢◌, ◌⊎◌, inl, inr, Bool, true, false, Option, none, some,
  List, [], ◌∷◌, arith, Bool-cases, Option-cases, if_true, if_false, length, All, Text, Outcome,
  success, failure, text_eq, nat_eq,
}
use aeroflare.Ci.Run.{
  add_built, build_all, push_cache, is_pushed, count_pushed, push_all, config_of, push_roots,
  after_builds, run_builds, with_auth, with_primary, with_key_path, with_builds, run, CiWorld,
}
use aeroflare.Ci.Settings.{resolve_auth, CacheSpec, RunSpec}
use aeroflare.Push.Prepared.{prepare_set, SetupError, PreparedSet, PushError, Pushed}
use aeroflare.Ci.Builds.{built_paths, dedup_paths, filter_roots}

-- A build that printed store paths.
abbrev pub IsBuilt : CiWorld → Text → Type 0
IsBuilt w b = (paths : List Text) × (built_paths (w.nix_build b) ≡ some paths)

-- A push that was made without an error.
abbrev pub IsPushed : CiWorld → PreparedSet → CacheSpec → Type 0
IsPushed w set c = (pushed : Pushed) × (push_cache w set c ≡ some pushed) × (pushed.error ≡ none)

build_all-le : (build : Text → Option Text) (bs : List Text) → (build_all build bs).0 ≤ length bs
unfolding build_all
build_all-le build [] = omega arith
build_all-le build (b ∷ bs) =
    elim (built_paths (build b)) as (λ o. (add_built o (build_all build bs)).0 ≤ suc (length bs)) [
      | none ↦ omega (arith, build_all-le build bs)
      | some paths ↦ omega (arith, build_all-le build bs)
    ]

build_all-All :
    (w : CiWorld) (bs : List Text) → (build_all w.nix_build bs).0 ≡ length bs → All (IsBuilt w) bs
unfolding build_all
build_all-All w [] h = tt
build_all-All w (b ∷ bs) h = elim (Option-cases (built_paths (w.nix_build b))) [
  | inl failed ↦
      let short = build_all-le w.nix_build bs in
      let same : (build_all w.nix_build bs).0 ≡ suc (length bs) =
        ap (λ o. (add_built o (build_all w.nix_build bs)).0) (sym failed) ∙ h in
      absurd (omega arith)
  | inr (paths, built) ↦
      let same : suc (build_all w.nix_build bs).0 ≡ suc (length bs) =
        ap (λ o. (add_built o (build_all w.nix_build bs)).0) (sym built) ∙ h in
      ((paths, built), build_all-All w bs (omega arith))
]

is_pushed-IsPushed :
    (o : Option Pushed)
    → is_pushed o ≡ true
    → (pushed : Pushed) × (o ≡ some pushed) × (pushed.error ≡ none)
is_pushed-IsPushed none h = absurd (cc h)
is_pushed-IsPushed (some pushed) h = (pushed, refl, no_error pushed.error h)
  where
    no_error :
        (e : Option PushError)
        → ◌≡◌ {A = Bool} (elim e [ none ↦ true | some x ↦ false ]) true
        → e ≡ none
    no_error none h = refl
    no_error (some e) h = absurd (cc h)

count_pushed-le :
    (w : CiWorld) (set : PreparedSet) (cs : List CacheSpec) → count_pushed w set cs ≤ length cs
unfolding count_pushed
count_pushed-le w set [] = omega arith
count_pushed-le w set (c ∷ cs) = ground (arith, count_pushed-le w set cs)

count_pushed-All :
    (w : CiWorld) (set : PreparedSet) (cs : List CacheSpec)
    → count_pushed w set cs ≡ length cs
    → All (IsPushed w set) cs
unfolding count_pushed
count_pushed-All w set [] h = tt
count_pushed-All w set (c ∷ cs) h = elim (Bool-cases (is_pushed (push_cache w set c))) [
  | inl pushed ↦
      let same : suc (count_pushed w set cs) ≡ suc (length cs) =
        sym (if_true (is_pushed (push_cache w set c)) _ _ pushed) ∙ h in
      (is_pushed-IsPushed (push_cache w set c) pushed, count_pushed-All w set cs (omega arith))
  | inr failed ↦
      let short = count_pushed-le w set cs in
      let same : count_pushed w set cs ≡ suc (length cs) =
        sym (if_false (is_pushed (push_cache w set c)) _ _ failed) ∙ h in
      absurd (omega arith)
]

-- The different store paths that the builds printed.
abbrev pub built_roots : CiWorld → RunSpec → List Text
built_roots w spec = dedup_paths (build_all w.nix_build spec.builds).1

-- Every cache has the roots that no upstream cache holds, with their closures.
pub record IsDone (w : CiWorld) (spec : RunSpec) (key : Text) : Type 0 where
  pub built : All (IsBuilt w) spec.builds
  pub roots : List Text
  pub skipped : ℕ
  pub filtered : filter_roots w.checker (built_roots w spec) ≡ some (roots, skipped)
  pub pushed :
      (roots ≡ [])
      ⊎ ((set : PreparedSet) × (prepare_set w.setup roots (config_of spec key) ≡ success set)
          × All (IsPushed w set) spec.caches)

push_all-IsPushed :
    (w : CiWorld) (spec : RunSpec) (n : ℕ) (made : Outcome SetupError PreparedSet)
    → push_all w spec n made ≡ true
    → (n ≡ length spec.builds)
      × ((set : PreparedSet) × (made ≡ success set) × All (IsPushed w set) spec.caches)
push_all-IsPushed w spec n (failure e) h = absurd (cc h)
push_all-IsPushed w spec n (success set) h =
    let all : count_pushed w set spec.caches ≡ length spec.caches = ground (arith, h) in
    (ground (arith, h), (set, refl, count_pushed-All w set spec.caches all))

push_roots-IsDone :
    (w : CiWorld) (spec : RunSpec) (key : Text) (found : Option (List Text × ℕ))
    → filter_roots w.checker (built_roots w spec) ≡ found
    → push_roots w spec key (build_all w.nix_build spec.builds).0 found ≡ true
    → IsDone w spec key
push_roots-IsDone w spec key none e h = absurd (cc h)
push_roots-IsDone w spec key (some ([], skipped)) e h = record {
  built = build_all-All w spec.builds (ground (arith, h));
  roots = [];
  skipped = skipped;
  filtered = e;
  pushed = inl refl;
}
push_roots-IsDone w spec key (some (p ∷ ps, skipped)) e h =
    let (all, pushed) =
      push_all-IsPushed w spec (build_all w.nix_build spec.builds).0
        (prepare_set w.setup (p ∷ ps) (config_of spec key)) h in
    record {
      built = build_all-All w spec.builds all;
      roots = p ∷ ps;
      skipped = skipped;
      filtered = e;
      pushed = inr pushed;
    }

after_builds-IsDone :
    (w : CiWorld) (spec : RunSpec) (key : Text) (paths : List Text)
    → built_roots w spec ≡ paths
    → after_builds w spec key (build_all w.nix_build spec.builds).0 paths ≡ true
    → IsDone w spec key
after_builds-IsDone w spec key [] e h = absurd (cc h)
after_builds-IsDone w spec key (p ∷ ps) e h =
    push_roots-IsDone w spec key (filter_roots w.checker (p ∷ ps)) (ap (filter_roots w.checker) e) h

run_builds-IsDone :
    (w : CiWorld) (spec : RunSpec) (key : Text) → run_builds w spec key ≡ true → IsDone w spec key
unfolding run_builds
run_builds-IsDone w spec key h = elim (Bool-cases w.proxy_starts) [
  | inl up ↦
      after_builds-IsDone w spec key (built_roots w spec) refl
        (sym (if_true w.proxy_starts _ _ up) ∙ h)
  | inr down ↦ absurd (cc (sym (if_false w.proxy_starts _ _ down) ∙ h))
]

with_auth-IsDone :
    (w : CiWorld) (spec : RunSpec) (key : Text) (auth : Option (Text × Text))
    → with_auth w spec key auth ≡ true
    → IsDone w spec key
with_auth-IsDone w spec key none h = absurd (cc h)
with_auth-IsDone w spec key (some auth) h = run_builds-IsDone w spec key h

with_primary-IsDone :
    (w : CiWorld) (spec : RunSpec) (key : Text) (caches : List CacheSpec)
    → with_primary w spec key caches ≡ some true
    → IsDone w spec key
with_primary-IsDone w spec key [] h = absurd (cc h)
with_primary-IsDone w spec key (c ∷ cs) h =
    with_auth-IsDone w spec key (resolve_auth w.environment c.registry) (some-injective _ _ h)

with_key_path-IsDone :
    (w : CiWorld) (spec : RunSpec) (key : Option Text)
    → with_key_path w spec key ≡ some true
    → (k : Text) × (key ≡ some k) × IsDone w spec k
with_key_path-IsDone w spec none h = absurd (cc (some-injective _ _ h))
with_key_path-IsDone w spec (some key) h = (key, refl, with_primary-IsDone w spec key spec.caches h)

with_builds-IsDone :
    (w : CiWorld) (spec : RunSpec) (builds : List Text)
    → builds ≢ []
    → with_builds w spec builds ≡ some true
    → (k : Text) × (w.key_path spec.signing_key ≡ some k) × IsDone w spec k
with_builds-IsDone w spec [] ne h = absurd (ne refl)
with_builds-IsDone w spec (b ∷ bs) ne h =
    with_key_path-IsDone w spec (w.key_path spec.signing_key) h

pub run-IsDone :
    (w : CiWorld) (spec : RunSpec)
    → spec.builds ≢ []
    → run w spec ≡ some true
    → (k : Text) × (w.key_path spec.signing_key ≡ some k) × IsDone w spec k
unfolding run
run-IsDone w spec ne h = with_builds-IsDone w spec spec.builds ne h
