-- ===== src/Push/Prepared/Sound.antt =====
-- What `PushTo` publishes of a set that `Prepare` made.
use aeroflare.Prepare.Batch.Single.{prepare-path}
use aeroflare.Prepare.Batch.Roots.{prepare_batch-paths}
use aeroflare.Base.{
  ℕ, ◌≡◌, refl, sym, ap, ◌∙◌, subst, inl, inr, Bool, true, false, none, some, List, [], ◌∷◌, map,
  arith, Option-cases, In, Distinct, In-All, Text, dir, lookup, >>=-eq-success, success-injective,
  or_fail, Outcome, success, failure, text_eq,
}
use aeroflare.Compress.{parse_type}
use aeroflare.Push.Upload.{upload, upload_task_set, Stage, Host, Uploads}
use aeroflare.Push.Complete.{Receipts, complete_receipts, is_uploaded}
use aeroflare.Push.Prepared.{
  prepare_paths, prepare_set, publish, push_to, PrepareConfig, Setup, PreparedSet, Target, load_key,
  lift_prepare, made_set, set_in, set_with_key, set_compressed, push_checked, Pushed,
  unknown_compression, no_directory,
}
use aeroflare.Push.Tasks.{flatten_tasks, task_paths, PreparedTask}
use aeroflare.Prepare.Refs.{Config, Env, PrepareError}
use aeroflare.Prepare.Batch.{prepare}
use aeroflare.Prepare.Tree.{
  path_of, Under, UnderAny, AgreeAll, EachAll-subtree, forest, Result, Results,
}
use aeroflare.Backend.{PushReceipt}
use mathlib.Core.Option.{some-injective}
use aeroflare.Push.Upload.Answers.{IsOrderOf, receipt_of, upload_task_set-lookup}
use aeroflare.Push.Complete.Refines.{complete_receipts_task}
use aeroflare.Push.Tasks.Cover.{flatten_tasks-UnderAny, flatten_tasks-All}
use aeroflare.Prepare.Batch.Single.{prepare-AgreeAll, prepare_batch-AgreeAll}

pub prepare_paths-AgreeAll :
    (fuel : ℕ) (env : Env) (cfg : Config) (paths : List Text) (results : List Result)
    → Distinct paths
    → prepare_paths fuel env cfg paths ≡ success results
    → (at : Text → Result) × AgreeAll at (forest results)
unfolding prepare_paths
prepare_paths-AgreeAll fuel env cfg [] results d h =
    prepare_batch-AgreeAll fuel env cfg [] results d h
prepare_paths-AgreeAll fuel env cfg (p ∷ []) results d h =
    let (r, made, rest) = >>=-eq-success (prepare fuel env cfg p) (λ r. success (r ∷ [])) h in
    subst (λ rs. (at : Text → Result) × AgreeAll at (forest rs)) (success-injective rest)
      (prepare-AgreeAll fuel env cfg p r made)
prepare_paths-AgreeAll fuel env cfg (p ∷ q ∷ ps) results d h =
    prepare_batch-AgreeAll fuel env cfg (p ∷ q ∷ ps) results d h

-- The results are those of the paths, in their order.
pub prepare_paths-paths :
    (fuel : ℕ) (env : Env) (cfg : Config) (paths : List Text) (results : List Result)
    → cfg.prepare_missing_refs ≡ true
    → prepare_paths fuel env cfg paths ≡ success results
    → map path_of results ≡ paths
unfolding prepare_paths
prepare_paths-paths fuel env cfg [] results follows h =
    prepare_batch-paths fuel env cfg [] results follows h
prepare_paths-paths fuel env cfg (p ∷ []) results follows h =
    let (r, made, rest) = >>=-eq-success (prepare fuel env cfg p) (λ r. success (r ∷ [])) h in
    ap (map path_of) (sym (success-injective rest))
    ∙ ap (λ q. q ∷ []) (prepare-path fuel env cfg p r made)
prepare_paths-paths fuel env cfg (p ∷ q ∷ ps) results follows h =
    prepare_batch-paths fuel env cfg (p ∷ q ∷ ps) results follows h

-- A store path that a task has uploaded.
abbrev pub IsStored : Host → List PreparedTask → Text → Type 0
IsStored host tasks q =
    (t : PreparedTask) × In t tasks
    × (path_of t.r ≡ q)
    × ((receipt : PushReceipt) × (upload host t ≡ success receipt))

-- A receipt that may be indexed: it is that of a task that is uploaded, and every store path
-- under the task's result is.
pub record IsIndexable (host : Host) (tasks : List PreparedTask) (receipt : PushReceipt)
    : Type 0 where
  pub task : PreparedTask
  pub is_task : In task tasks
  pub was_uploaded : upload host task ≡ success receipt
  pub below : (q : Text) → Under q task.r → IsStored host tasks q

receipt_of-some :
    (answer : Outcome Stage PushReceipt) (receipt : PushReceipt)
    → receipt_of answer ≡ some receipt
    → answer ≡ success receipt
receipt_of-some (success r) receipt h = ap success (some-injective r receipt h)
receipt_of-some (failure stage) receipt h = cc

is_uploaded-some :
    (by_path : Receipts) (q : Text)
    → is_uploaded by_path q ≡ true
    → (receipt : PushReceipt) × (lookup q by_path ≡ some receipt)
is_uploaded-some by_path q h = elim (Option-cases (lookup q by_path)) [
  | inl miss ↦ absurd (cc (sym h ∙ ap (λ o. elim o [ none ↦ false | some _ ↦ true ]) miss))
  | inr (receipt, hit) ↦ (receipt, hit)
]

pub In-path :
    (q : Text) (tasks : List PreparedTask)
    → In q (task_paths tasks)
    → (t : PreparedTask) × In t tasks × (path_of t.r ≡ q)
In-path q [] m = absurd m
In-path q (t ∷ ts) (inl e) = (t, inl refl, sym e)
In-path q (t ∷ ts) (inr m) = let (u, mu, e) = In-path q ts m in (u, inr mu, e)

module _ (host : Host) (results : Results) (at : Text → Result) (agree : AgreeAll at results)
    (order : List PreparedTask) (runs : IsOrderOf order (flatten_tasks results)) where
  abbrev by_path : Receipts
  by_path = (upload_task_set host order).receipts_by_path

  abbrev tasks : List PreparedTask
  tasks = flatten_tasks results

  stored : (q : Text) → UnderAny q results → is_uploaded by_path q ≡ true → IsStored host tasks q
  stored q u h =
      let (receipt, hit) = is_uploaded-some by_path q h in
      let (t, m, e) = In-path q tasks (flatten_tasks-UnderAny at results q agree u) in
      (
        t,
        m,
        e,
        (
          receipt,
          receipt_of-some (upload host t) receipt (
              sym (upload_task_set-lookup host order tasks t runs m)
              ∙ ap (λ p. lookup p by_path) e
              ∙ hit),
        ),
      )

  -- Whatever the order in which the uploads end, the receipts that are complete are those of
  -- uploaded tasks under which every store path is uploaded.
  pub complete_receipts-IsIndexable :
      (receipt : PushReceipt)
      → In receipt (complete_receipts by_path results).0
      → IsIndexable host tasks receipt
  complete_receipts-IsIndexable receipt h =
      let (t, m, hit, whole) = complete_receipts_task by_path at results receipt agree h in
      let inside =
        In-All (λ u. (q : Text) → Under q u.r → UnderAny q results) t tasks
          (flatten_tasks-All (λ r. (q : Text) → Under q r → UnderAny q results) results
            (EachAll-subtree (λ q. UnderAny q results) results (λ q u. u)))
          m in
      record {
        task = t;
        is_task = m;
        was_uploaded =
            receipt_of-some (upload host t) receipt
              (sym (upload_task_set-lookup host order tasks t runs m) ∙ hit);
        below = λ q u. stored q (inside q u) (whole q u);
      }

pub publish-published :
    (target : Target) (out : Uploads) (receipts : List PushReceipt)
    → (publish target out receipts).published ≡ receipts
unfolding publish
publish-published target out [] = refl
publish-published target out (r ∷ rs) = ground arith

push_checked-published :
    (has_auth has_pusher : Bool) (pushed : Pushed) (receipt : PushReceipt)
    → In receipt (push_checked has_auth has_pusher pushed).published
    → In receipt pushed.published
unfolding push_checked
push_checked-published false has_pusher pushed receipt m = absurd m
push_checked-published true false pushed receipt m = absurd m
push_checked-published true true pushed receipt m = m

push_to-published :
    (set : PreparedSet) (target : Target) (order : List PreparedTask) (receipt : PushReceipt)
    → In receipt (push_to set target order).published
    → In receipt
        (complete_receipts
          (upload_task_set target.host order).receipts_by_path
          (forest set.results)).0
unfolding push_to
push_to-published set target order receipt m =
    let out = upload_task_set target.host order in
    let receipts = (complete_receipts out.receipts_by_path (forest set.results)).0 in
    subst (In receipt) (publish-published target out receipts) (
      push_checked-published target.has_auth target.has_pusher (publish target out receipts) receipt
        m)

lift_prepare-success :
    {A : Type 0} (o : Outcome PrepareError A) (a : A) → lift_prepare o ≡ success a → o ≡ success a
lift_prepare-success (success b) a h = ap success (success-injective h)
lift_prepare-success (failure e) a h = cc

pub prepare_set-results :
    (setup : Setup) (paths : List Text) (cfg : PrepareConfig) (set : PreparedSet)
    → Distinct paths
    → prepare_set setup paths cfg ≡ success set
    → (set.tasks ≡ flatten_tasks (forest set.results))
      × ((at : Text → Result) × AgreeAll at (forest set.results))
      × (map path_of set.results ≡ paths)
unfolding prepare_set set_compressed set_with_key set_in
prepare_set-results setup paths cfg set d h =
    let (compression, _, h1) =
      >>=-eq-success (or_fail unknown_compression (parse_type cfg.compression))
        (set_compressed setup paths cfg) h in
    let (signs, _, h2) =
      >>=-eq-success (load_key setup cfg.signing_key) (set_with_key setup paths cfg compression)
        h1 in
    let (dir, _, h3) =
      >>=-eq-success (or_fail no_directory setup.mkdir_temp)
        (set_in setup paths cfg compression signs) h2 in
    let inner : Config = record {
      cache_urls = cfg.cache_urls;
      prepare_missing_refs = true;
      is_signing = signs;
    } in
    let env = setup.env dir compression in
    let (results, made, h4) =
      >>=-eq-success (lift_prepare (prepare_paths setup.fuel env inner paths))
        (λ results. success (made_set cfg dir results)) h3 in
    let prepared = lift_prepare-success (prepare_paths setup.fuel env inner paths) results made in
    let owned = prepare_paths-AgreeAll setup.fuel env inner paths results d prepared in
    let own_paths = prepare_paths-paths setup.fuel env inner paths results refl prepared in
    subst
      (λ (set : PreparedSet).
        (set.tasks ≡ flatten_tasks (forest set.results))
        × ((at : Text → Result) × AgreeAll at (forest set.results))
        × (map path_of set.results ≡ paths))
      (success-injective h4) (refl, owned, own_paths)

-- If `Prepare` makes a set of different paths, then `PushTo` gives the backend only receipts that
-- may be indexed, whatever the order in which the uploads end and whichever of them fail: the
-- receipt is that of an uploaded task of the set, and every store path under its result is
-- uploaded.
pub push_to-IsIndexable :
    (setup : Setup) (paths : List Text) (cfg : PrepareConfig) (set : PreparedSet) (target : Target)
    (order : List PreparedTask) (receipt : PushReceipt)
    → Distinct paths
    → prepare_set setup paths cfg ≡ success set
    → IsOrderOf order set.tasks
    → In receipt (push_to set target order).published
    → IsIndexable target.host set.tasks receipt
push_to-IsIndexable setup paths cfg set target order receipt d made runs m =
    let (same_tasks, (at, agree), _) = prepare_set-results setup paths cfg set d made in
    subst (λ ts. IsIndexable target.host ts receipt) (sym same_tasks)
      (complete_receipts-IsIndexable target.host (forest set.results) at agree order
        (subst (IsOrderOf order) same_tasks runs) receipt
        (push_to-published set target order receipt m))
