-- ===== src/Ci/Run/Whole.antt =====
-- From the builds of a run to the receipts of its caches.
use aeroflare.Base.{
  ℕ, ◌≡◌, refl, sym, ap, ◌∙◌, subst, ◌⊎◌, inl, inr, Bool, true, Option, none, some, List, [], ◌∷◌,
  In, Distinct, In-append_left, In-append_right, In-All, Text, Dict, success, text_eq,
}
use aeroflare.Ci.Run.Complete.{IsPushed, built_roots, run-IsDone}
use aeroflare.Push.Prepared.Whole.{push_to_whole, prepare_set-task, upload-path}
use aeroflare.Push.Complete.{complete}
use aeroflare.Prepare.Tree.{forest}
use aeroflare.Ci.Run.{
  add_built, build_all, target_of, push_cache, run, CiWorld, push_with, config_of,
}
use aeroflare.Ci.Settings.{CacheSpec, RunSpec, resolve_auth}
use aeroflare.Ci.Builds.{
  dedup_paths, built_paths, Checker, root_hashes, is_held, kept_by, filter_roots,
}
use aeroflare.Push.Prepared.{push_to, PreparedSet, Pushed, prepare_set, PrepareConfig, Setup}
use aeroflare.Push.Tasks.{task_paths, PreparedTask}
use aeroflare.Backend.{PushReceipt}
use aeroflare.Ci.Builds.Roots.{kept_roots-In, dedup_paths_lem, filter_roots-Distinct}
use aeroflare.Push.Upload.Answers.{IsOrderOf}
use mathlib.Core.Option.{some-injective}
use aeroflare.Push.Prepared.Sound.{prepare_set-results}
use aeroflare.Push.Tasks.Cover.{flatten_tasks-Distinct}

build_all-In :
    (build : Text → Option Text) (bs : List Text) (b : Text) (paths : List Text) (p : Text)
    → In b bs
    → built_paths (build b) ≡ some paths
    → In p paths
    → In p (build_all build bs).1
unfolding build_all
build_all-In build [] b paths p mb h m = absurd mb
build_all-In build (c ∷ bs) b paths p (inl e) h m =
    let printed : built_paths (build c) ≡ some paths =
      ap (λ d. built_paths (build d)) (sym e) ∙ h in
    subst (λ o. In p (add_built o (build_all build bs)).1) (sym printed)
      (In-append_left p paths (build_all build bs).1 m)
build_all-In build (c ∷ bs) b paths p (inr mb) h m =
    added (built_paths (build c)) (build_all-In build bs b paths p mb h m)
  where
    added :
        (o : Option (List Text))
        → In p (build_all build bs).1
        → In p (add_built o (build_all build bs)).1
    added none n = n
    added (some qs) n = In-append_right p qs (build_all build bs).1 n

-- An upstream cache holds the path.
pub record IsHeld (checker : Checker) (roots : List Text) (p : Text) : Type 0 where
  pub batch : List Text → Option (Dict Text Bool)
  pub exists : Dict Text Bool
  pub is_asked : checker ≡ some batch
  pub answer : batch (root_hashes roots) ≡ some exists
  pub held : is_held exists p ≡ true

kept_by-In :
    (batch : List Text → Option (Dict Text Bool)) (roots : List Text)
    (found : Option (Dict Text Bool)) (kept : List Text) (skipped : ℕ) (p : Text)
    → batch (root_hashes roots) ≡ found
    → kept_by roots found ≡ some (kept, skipped)
    → In p roots
    → In p kept ⊎ IsHeld (some batch) roots p
kept_by-In batch roots none kept skipped p e h m = absurd (cc h)
kept_by-In batch roots (some exists) kept skipped p e h m = elim (kept_roots-In exists roots p m) [
  | inl n ↦ inl (subst (λ (k : List Text × ℕ). In p k.0) (some-injective _ _ h) n)
  | inr held ↦
      inr (record { batch = batch; exists = exists; is_asked = refl; answer = e; held = held })
]

filter_roots-In :
    (checker : Checker) (roots kept : List Text) (skipped : ℕ) (p : Text)
    → filter_roots checker roots ≡ some (kept, skipped)
    → In p roots
    → In p kept ⊎ IsHeld checker roots p
unfolding filter_roots
filter_roots-In none roots kept skipped p h m =
    inl (subst (λ (k : List Text × ℕ). In p k.0) (some-injective _ _ h) m)
filter_roots-In (some batch) [] kept skipped p h m = absurd m
filter_roots-In (some batch) (q ∷ qs) kept skipped p h m =
    kept_by-In batch (q ∷ qs) (batch (root_hashes (q ∷ qs))) kept skipped p refl h m

-- The receipt of a store path is given to the backend of a cache, by a push without an error.
pub record IsShown (w : CiWorld) (c : CacheSpec) (p : Text) : Type 0 where
  pub set : PreparedSet
  pub pushed : Pushed
  pub receipt : PushReceipt
  pub was_pushed : push_cache w set c ≡ some pushed
  pub no_error : pushed.error ≡ none
  pub published : In receipt pushed.published
  pub names : receipt.store_path ≡ p

push_with-pushed :
    (w : CiWorld) (set : PreparedSet) (c : CacheSpec) (auth : Option (Text × Text))
    (pushed : Pushed)
    → push_with w set c auth ≡ some pushed
    → push_to set (target_of w c) (w.schedule c set.tasks) ≡ pushed
push_with-pushed w set c none pushed h = cc
push_with-pushed w set c (some auth) pushed h = some-injective _ _ h

push_cache-pushed :
    (w : CiWorld) (set : PreparedSet) (c : CacheSpec) (pushed : Pushed)
    → push_cache w set c ≡ some pushed
    → push_to set (target_of w c) (w.schedule c set.tasks) ≡ pushed
unfolding push_cache
push_cache-pushed w set c pushed h =
    push_with-pushed w set c (resolve_auth w.environment c.registry) pushed h

set-Distinct :
    (setup : Setup) (paths : List Text) (cfg : PrepareConfig) (set : PreparedSet)
    → Distinct paths
    → prepare_set setup paths cfg ≡ success set
    → Distinct (task_paths set.tasks)
set-Distinct setup paths cfg set d made =
    subst (λ ts. Distinct (task_paths ts)) (sym (prepare_set-results setup paths cfg set d made).0)
      (flatten_tasks-Distinct (forest set.results))

shown :
    (w : CiWorld) (spec : RunSpec) (k : Text) (roots : List Text) (set : PreparedSet) (p : Text)
    (c : CacheSpec)
    → Distinct roots
    → prepare_set w.setup roots (config_of spec k) ≡ success set
    → In p roots
    → IsOrderOf (w.schedule c set.tasks) set.tasks
    → IsPushed w set c
    → IsShown w c p
shown w spec k roots set p c d made kept order (pushed, was_pushed, fine) =
    let (t, mt, e) = prepare_set-task w.setup roots (config_of spec k) set p d made kept in
    let same = push_cache-pushed w set c pushed was_pushed in
    let (receipt, sent, published) =
      push_to_whole w.setup roots (config_of spec k) set (target_of w c) (w.schedule c set.tasks) t
        d made order (ap (λ (q : Pushed). q.error) same ∙ fine) mt in
    record {
      set = set;
      pushed = pushed;
      receipt = receipt;
      was_pushed = was_pushed;
      no_error = fine;
      published = subst (λ (q : Pushed). In receipt q.published) same published;
      names = upload-path (w.host c) t receipt sent ∙ e;
    }

-- If the uploads to a cache end in some order, each once, and `Run` answers that it succeeded,
-- then every store path that a build printed is held by an upstream cache, or its receipt is
-- given to the backend of every cache by a push without an error.
pub run-IsShown :
    (w : CiWorld) (spec : RunSpec) (b : Text) (paths : List Text) (p : Text) (c : CacheSpec)
    → ((d : CacheSpec) (tasks : List PreparedTask)
        → Distinct (task_paths tasks)
        → IsOrderOf (w.schedule d tasks) tasks)
    → run w spec ≡ some true
    → In b spec.builds
    → built_paths (w.nix_build b) ≡ some paths
    → In p paths
    → In c spec.caches
    → IsHeld w.checker (dedup_paths (build_all w.nix_build spec.builds).1) p ⊎ IsShown w c p
run-IsShown w spec b paths p c runs h mb printed mp mc =
    let roots = built_roots w spec in
    let (k, _, done) = run-IsDone w spec (λ e. subst (In b) e mb) h in
    let (different, complete) = dedup_paths_lem (build_all w.nix_build spec.builds).1 in
    let root = complete p (build_all-In w.nix_build spec.builds b paths p mb printed mp) in
    elim (filter_roots-In w.checker roots done.roots done.skipped p done.filtered root) [
      | inr held ↦ inl held
      | inl kept ↦ elim done.pushed [
        | inl nothing ↦ absurd (subst (In p) nothing kept)
        | inr (set, made, all) ↦
            let d =
              filter_roots-Distinct w.checker roots done.roots done.skipped different
                done.filtered in
            inr (
              shown w spec k done.roots set p c d made kept
                (runs c set.tasks (set-Distinct w.setup done.roots (config_of spec k) set d made))
                (In-All (IsPushed w set) c spec.caches all mc))
      ]
    ]
