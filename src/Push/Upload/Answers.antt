-- ===== src/Push/Upload/Answers.antt =====
-- The outcome of a run, whatever the order in which its tasks end.
use aeroflare.Base.{
  ℕ, suc, ◌+◌, ◌≡◌, refl, sym, ◌∙◌, subst, ◌≢◌, inl, inr, Option, none, some, List, [], ◌∷◌, arith,
  length, length-append, In, Distinct, In-map, Text, lookup, lookup-nil, lookup-insert_self,
  lookup-insert_ne, Outcome, success, failure, text_eq,
}
use aeroflare.Push.Tasks.{task_paths, PreparedTask}
use aeroflare.Prepare.Tree.{path_of}
use aeroflare.Backend.{PushReceipt}
use aeroflare.Push.Upload.{
  upload, record_upload, upload_from, Stage, Host, Uploads, upload_task_set,
}

-- An order in which tasks end: each of them once.
pub record IsOrderOf (order tasks : List PreparedTask) : Type 0 where
  pub runs : (t : PreparedTask) → In t tasks → In t order
  pub asked : (t : PreparedTask) → In t order → In t tasks
  pub once : Distinct (task_paths order)

-- The answer of a task as an entry of the map.
abbrev pub receipt_of : Outcome Stage PushReceipt → Option PushReceipt
receipt_of (success receipt) = some receipt
receipt_of (failure stage) = none

abbrev upload_path : PreparedTask → Text
upload_path t = path_of t.r

record_upload_ne :
    (p q : Text) (answer : Outcome Stage PushReceipt) (s : Uploads)
    → q ≢ p
    → lookup p (record_upload q answer s).receipts_by_path ≡ lookup p s.receipts_by_path
record_upload_ne p q (success receipt) s h = lookup-insert_ne q p receipt s.receipts_by_path h
record_upload_ne p q (failure stage) s h = refl

record_upload_self :
    (p : Text) (answer : Outcome Stage PushReceipt) (s : Uploads)
    → lookup p s.receipts_by_path ≡ none
    → lookup p (record_upload p answer s).receipts_by_path ≡ receipt_of answer
record_upload_self p (success receipt) s h = lookup-insert_self p receipt s.receipts_by_path
record_upload_self p (failure stage) s h = h

-- Tasks of other paths leave the entry of a path alone.
upload_from_other :
    (host : Host) (order : List PreparedTask) (s : Uploads) (p : Text)
    → ¬ In p (task_paths order)
    → lookup p (upload_from host order s).receipts_by_path ≡ lookup p s.receipts_by_path
unfolding upload_from
upload_from_other host [] s p h = refl
upload_from_other host (t ∷ ts) s p h =
    upload_from_other host ts (record_upload (upload_path t) (upload host t) s) p (λ m. h (inr m))
    ∙ record_upload_ne p (upload_path t) (upload host t) s (λ e. h (inl (sym e)))

In-task_paths :
    (t : PreparedTask) (ts : List PreparedTask) → In t ts → In (upload_path t) (task_paths ts)
In-task_paths t ts m = In-map upload_path t ts m

upload_from_head :
    (host : Host) (us : List PreparedTask) (s : Uploads) (u : PreparedTask)
    → ¬ In (upload_path u) (task_paths us)
    → lookup (upload_path u) s.receipts_by_path ≡ none
    → lookup (upload_path u) (upload_from host (u ∷ us) s).receipts_by_path
      ≡ receipt_of (upload host u)
unfolding upload_from
upload_from_head host us s u new h =
    upload_from_other host us (record_upload (upload_path u) (upload host u) s) (upload_path u) new
    ∙ record_upload_self (upload_path u) (upload host u) s h

upload_from-In :
    (host : Host) (order : List PreparedTask) (s : Uploads) (t : PreparedTask)
    → Distinct (task_paths order)
    → In t order
    → lookup (upload_path t) s.receipts_by_path ≡ none
    → lookup (upload_path t) (upload_from host order s).receipts_by_path
      ≡ receipt_of (upload host t)
unfolding upload_from
upload_from-In host [] s t d m h = absurd m
upload_from-In host (u ∷ us) s t (new, d) (inl e) h =
    subst
      (λ v.
        lookup (upload_path t) (upload_from host (v ∷ us) s).receipts_by_path
        ≡ receipt_of (upload host t))
      e
      (upload_from_head host us s t (λ m. new (subst (λ v. In (upload_path v) (task_paths us)) e m))
        h)
upload_from-In host (u ∷ us) s t (new, d) (inr m) h =
    upload_from-In host us (record_upload (upload_path u) (upload host u) s) t d m (
      record_upload_ne (upload_path t) (upload_path u) (upload host u) s
        (λ e. new (rw e (In-task_paths t us m)))
      ∙ h)

-- Whatever the order in which the tasks end, the map holds for the path of each task the receipt
-- of its upload if that succeeds, and nothing if it fails.
pub upload_task_set-lookup :
    (host : Host) (order tasks : List PreparedTask) (t : PreparedTask)
    → IsOrderOf order tasks
    → In t tasks
    → lookup (path_of t.r) (upload_task_set host order).receipts_by_path
      ≡ receipt_of (upload host t)
unfolding upload_task_set
upload_task_set-lookup host order tasks t runs m =
    upload_from-In host order (record { receipts_by_path = []; failed = []; uploaded = 0 }) t
      runs.once (runs.runs t m) (lookup-nil (upload_path t))

-- A path of no task has no receipt.
pub upload_task_set_other :
    (host : Host) (order : List PreparedTask) (p : Text)
    → ¬ In p (task_paths order)
    → lookup p (upload_task_set host order).receipts_by_path ≡ none
unfolding upload_task_set
upload_task_set_other host order p h =
    upload_from_other host order (record { receipts_by_path = []; failed = []; uploaded = 0 }) p h
    ∙ lookup-nil p

record_upload_count :
    (p : Text) (answer : Outcome Stage PushReceipt) (s : Uploads) (n : ℕ)
    → (record_upload p answer s).uploaded + length (record_upload p answer s).failed + n
      ≡ s.uploaded + length s.failed + suc n
record_upload_count p (success receipt) s n = omega arith
record_upload_count p (failure stage) s n = omega (arith, length-append s.failed (p ∷ []))

upload_from_count :
    (host : Host) (order : List PreparedTask) (s : Uploads)
    → (upload_from host order s).uploaded + length (upload_from host order s).failed
      ≡ s.uploaded + length s.failed + length order
unfolding upload_from
upload_from_count host [] s = omega arith
upload_from_count host (t ∷ ts) s =
    upload_from_count host ts (record_upload (upload_path t) (upload host t) s)
    ∙ record_upload_count (upload_path t) (upload host t) s (length ts)

-- Every task is counted once, as uploaded or as failed.
pub upload_task_set_count :
    (host : Host) (order : List PreparedTask)
    → (upload_task_set host order).uploaded + length (upload_task_set host order).failed
      ≡ length order
unfolding upload_task_set
upload_task_set_count host order = omega (
  arith,
  upload_from_count host order (record { receipts_by_path = []; failed = []; uploaded = 0 }),
)
