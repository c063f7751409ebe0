-- ===== src/Push/Prepared/Whole.antt =====
-- A push without an error publishes the whole set.
use aeroflare.Base.{
  ℕ, ◌≡◌, refl, sym, ap, ◌∙◌, subst, inl, inr, Bool, true, false, none, some, List, [], ◌∷◌, map,
  Bool-cases, if_true, if_false, In, Distinct, In-append_left, In-append_right, In-All, Text,
  lookup, >>=-eq-success, success-injective, or_fail, Outcome, success, failure, text_eq,
}
use aeroflare.Narinfo.{parse, Narinfo}
use aeroflare.Push.Upload.{
  upload, record_upload, upload_from, upload_task_set, Stage, Host, Uploads, layer_of,
  push_and_sign, create_and_push, parse_and_push, read_and_push, stat_nar, read_narinfo,
  parse_narinfo, create_layer,
}
use aeroflare.Push.Complete.{Receipts, is_uploaded, complete_receipts}
use aeroflare.Push.Prepared.{
  prepare_set, failed_error, publish, push_checked, push_to, PrepareConfig, Setup, PreparedSet,
  Target, Pushed,
}
use aeroflare.Push.Tasks.{flatten_tasks, PreparedTask, task_paths}
use aeroflare.Prepare.Tree.{
  path_of, Under, UnderAny, AgreeAll, EachAll-subtree, Under-self, forest, Result, Results, info,
  forest-UnderAny,
}
use aeroflare.Backend.{PushReceipt}
use aeroflare.Push.Prepared.Sound.{prepare_set-results, publish-published, In-path}
use aeroflare.Push.Upload.Answers.{IsOrderOf, upload_task_set-lookup, receipt_of}
use aeroflare.Push.Complete.Refines.{complete_receipts_complete}
use aeroflare.Push.Tasks.Cover.{flatten_tasks-UnderAny, flatten_tasks-All}

record_upload-failed :
    (p q : Text) (answer : Outcome Stage PushReceipt) (s : Uploads)
    → In q s.failed
    → In q (record_upload p answer s).failed
record_upload-failed p q (success receipt) s m = m
record_upload-failed p q (failure stage) s m = In-append_left q s.failed (p ∷ []) m

upload_from-failed :
    (host : Host) (order : List PreparedTask) (s : Uploads) (q : Text)
    → In q s.failed
    → In q (upload_from host order s).failed
unfolding upload_from
upload_from-failed host [] s q m = m
upload_from-failed host (t ∷ ts) s q m =
    upload_from-failed host ts (record_upload (path_of t.r) (upload host t) s) q
      (record_upload-failed (path_of t.r) q (upload host t) s m)

-- A task that fails is told.
upload_from_told :
    (host : Host) (order : List PreparedTask) (s : Uploads) (t : PreparedTask) (stage : Stage)
    → In t order
    → upload host t ≡ failure stage
    → In (path_of t.r) (upload_from host order s).failed
unfolding upload_from
upload_from_told host [] s t stage m h = absurd m
upload_from_told host (u ∷ us) s t stage (inl e) h =
    upload_from-failed host us (record_upload (path_of u.r) (upload host u) s) (path_of t.r) (
      subst
        (λ (v : PreparedTask).
          In (path_of t.r) (record_upload (path_of v.r) (upload host v) s).failed)
        e
        (subst (λ a. In (path_of t.r) (record_upload (path_of t.r) a s).failed) (sym h)
          (In-append_right (path_of t.r) s.failed (path_of t.r ∷ []) (inl refl))))
upload_from_told host (u ∷ us) s t stage (inr m) h =
    upload_from_told host us (record_upload (path_of u.r) (upload host u) s) t stage m h

-- If nothing fails, every task is uploaded.
all_uploaded :
    (host : Host) (order tasks : List PreparedTask) (t : PreparedTask)
    → IsOrderOf order tasks
    → (upload_task_set host order).failed ≡ []
    → In t tasks
    → (receipt : PushReceipt) × (upload host t ≡ success receipt)
unfolding upload_task_set
all_uploaded host order tasks t runs none_failed m = answered (upload host t) refl
  where
    answered :
        (answer : Outcome Stage PushReceipt)
        → upload host t ≡ answer
        → (receipt : PushReceipt) × (upload host t ≡ success receipt)
    answered (success receipt) e = (receipt, e)
    answered (failure stage) e = absurd (
        subst (In (path_of t.r)) none_failed (
          upload_from_told host order (record { receipts_by_path = []; failed = []; uploaded = 0 })
            t stage (runs.runs t m) e))

failed_error-none : (failed : List Text) → failed_error failed ≡ none → failed ≡ []
failed_error-none [] h = refl
failed_error-none (p ∷ ps) h = cc

publish_error :
    (target : Target) (out : Uploads) (receipts : List PushReceipt)
    → (publish target out receipts).error ≡ none
    → out.failed ≡ []
unfolding publish
publish_error target out [] h = failed_error-none out.failed h
publish_error target out (r ∷ rs) h = elim (Bool-cases (target.push_receipts (r ∷ rs))) [
  | inl indexed ↦
      failed_error-none out.failed (
        sym (ap (λ (p : Pushed). p.error) (if_true (target.push_receipts (r ∷ rs)) _ _ indexed))
        ∙ h)
  | inr refused ↦ absurd (
      cc (
        sym (ap (λ (p : Pushed). p.error) (if_false (target.push_receipts (r ∷ rs)) _ _ refused))
        ∙ h))
]

push_checked_error :
    (has_auth has_pusher : Bool) (pushed : Pushed)
    → (push_checked has_auth has_pusher pushed).error ≡ none
    → push_checked has_auth has_pusher pushed ≡ pushed
unfolding push_checked
push_checked_error false has_pusher pushed h = cc
push_checked_error true false pushed h = cc
push_checked_error true true pushed h = refl

module _ (host : Host) (results : Results) (at : Text → Result) (agree : AgreeAll at results)
    (order : List PreparedTask) (runs : IsOrderOf order (flatten_tasks results))
    (none_failed : (upload_task_set host order).failed ≡ []) where
  abbrev by_path : Receipts
  by_path = (upload_task_set host order).receipts_by_path

  uploaded_below : (q : Text) → UnderAny q results → is_uploaded by_path q ≡ true
  uploaded_below q u =
      let (t, m, e) =
        In-path q (flatten_tasks results) (flatten_tasks-UnderAny at results q agree u) in
      let (receipt, done) = all_uploaded host order (flatten_tasks results) t runs none_failed m in
      let hit : lookup q by_path ≡ some receipt =
        ap (λ p. lookup p by_path) (sym e)
        ∙ upload_task_set-lookup host order (flatten_tasks results) t runs m
        ∙ ap receipt_of done in
      ap (λ o. elim o [ none ↦ false | some _ ↦ true ]) hit

  indexed :
      (t : PreparedTask)
      → In t (flatten_tasks results)
      → (receipt : PushReceipt) × (upload host t ≡ success receipt)
        × In receipt (complete_receipts by_path results).0
  indexed t m =
      let (receipt, done) = all_uploaded host order (flatten_tasks results) t runs none_failed m in
      let nodes =
        In-All (λ u. (q : Text) → Under q u.r → UnderAny q results) t (flatten_tasks results)
          (flatten_tasks-All (λ r. (q : Text) → Under q r → UnderAny q results) results
            (EachAll-subtree (λ q. UnderAny q results) results (λ q u. u)))
          m in
      let own =
        In-All (λ u. at (path_of u.r) ≡ u.r) t (flatten_tasks results)
          (flatten_tasks-All (λ r. at (path_of r) ≡ r) results agree) m in
      (
        receipt,
        done,
        complete_receipts_complete by_path at results receipt (path_of t.r) agree
            (nodes (path_of t.r) (Under-self t.r))
            (upload_task_set-lookup host order (flatten_tasks results) t runs m
              ∙ ap receipt_of done)
            (λ q u. uploaded_below q (nodes q (subst (Under q) own u))),
      )

-- If `Prepare` makes a set of different paths and `PushTo` returns no error, then every task of
-- the set is uploaded and its receipt is given to the backend, whatever the order in which the
-- uploads end.
pub push_to_whole :
    (setup : Setup) (paths : List Text) (cfg : PrepareConfig) (set : PreparedSet) (target : Target)
    (order : List PreparedTask) (t : PreparedTask)
    → Distinct paths
    → prepare_set setup paths cfg ≡ success set
    → IsOrderOf order set.tasks
    → (push_to set target order).error ≡ none
    → In t set.tasks
    → (receipt : PushReceipt) × (upload target.host t ≡ success receipt)
      × In receipt (push_to set target order).published
unfolding push_to
push_to_whole setup paths cfg set target order t d made runs fine m =
    let (same_tasks, (at, agree), _) = prepare_set-results setup paths cfg set d made in
    let out = upload_task_set target.host order in
    let results = forest set.results in
    let receipts = (complete_receipts out.receipts_by_path results).0 in
    let checked =
      push_checked_error target.has_auth target.has_pusher (publish target out receipts) fine in
    let none_failed =
      publish_error target out receipts (ap (λ (p : Pushed). p.error) (sym checked) ∙ fine) in
    let (receipt, done, shown) =
      indexed target.host results at agree order (subst (IsOrderOf order) same_tasks runs)
        none_failed t (subst (In t) same_tasks m) in
    (
      receipt,
      done,
      subst (In receipt)
          (sym (ap (λ (p : Pushed). p.published) checked ∙ publish-published target out receipts))
          shown,
    )

In-result :
    (p : Text) (rs : List Result) → In p (map path_of rs) → (r : Result) × In r rs × (path_of r ≡ p)
In-result p [] m = absurd m
In-result p (r ∷ rs) (inl e) = (r, inl refl, sym e)
In-result p (r ∷ rs) (inr m) = let (s, ms, e) = In-result p rs m in (s, inr ms, e)

-- Every path that was asked for has a task.
pub prepare_set-task :
    (setup : Setup) (paths : List Text) (cfg : PrepareConfig) (set : PreparedSet) (p : Text)
    → Distinct paths
    → prepare_set setup paths cfg ≡ success set
    → In p paths
    → (t : PreparedTask) × In t set.tasks × (path_of t.r ≡ p)
prepare_set-task setup paths cfg set p d made m =
    let (same_tasks, (at, agree), own_paths) = prepare_set-results setup paths cfg set d made in
    let (r, mr, e) = In-result p set.results (subst (In p) (sym own_paths) m) in
    let node = forest-UnderAny p r set.results mr (subst (λ q. Under q r) e (Under-self r)) in
    In-path p set.tasks (
      subst (λ ts. In p (task_paths ts)) (sym same_tasks)
        (flatten_tasks-UnderAny at (forest set.results) p agree node))

push_and_sign-path :
    (host : Host) (t : PreparedTask) (size : ℕ) (ni : Narinfo) (digest : Text)
    (receipt : PushReceipt)
    → push_and_sign host t size ni digest ≡ success receipt
    → receipt.store_path ≡ path_of t.r
unfolding push_and_sign
push_and_sign-path host t size ni digest receipt h =
    elim (Bool-cases (host.push_layer (layer_of t.r ni))) [
      | inl sent ↦
          ap (λ (r : PushReceipt). r.store_path)
            (sym
              (success-injective (sym (if_true (host.push_layer (layer_of t.r ni)) _ _ sent) ∙ h)))
      | inr refused ↦
          absurd (cc (sym (if_false (host.push_layer (layer_of t.r ni)) _ _ refused) ∙ h))
    ]

-- A receipt names the store path of its task.
pub upload-path :
    (host : Host) (t : PreparedTask) (receipt : PushReceipt)
    → upload host t ≡ success receipt
    → receipt.store_path ≡ path_of t.r
unfolding upload read_and_push parse_and_push create_and_push
upload-path host t receipt h =
    let (size, _, h1) =
      >>=-eq-success (or_fail stat_nar (host.stat (info t.r).nar_path)) (read_and_push host t) h in
    let (content, _, h2) =
      >>=-eq-success (or_fail read_narinfo (host.read_file (info t.r).narinfo_path))
        (parse_and_push host t size) h1 in
    let (ni, _, h3) =
      >>=-eq-success (or_fail parse_narinfo (parse content)) (create_and_push host t size) h2 in
    let (digest, _, h4) =
      >>=-eq-success (or_fail create_layer (host.new_layer (layer_of t.r ni)))
        (push_and_sign host t size ni) h3 in
    push_and_sign-path host t size ni digest receipt h4
