-- ===== src/Tests/UploadTests.antt =====
-- The theorems of Push.Upload, Push.Prepared and Push.Run at a set of three store paths.
use aeroflare.Base.{
  ◌≡◌, refl, inl, true, false, none, List, [], ◌∷◌, text_beq, All, In, Distinct, contains, codes,
  lookup, insert, success, text_eq,
}
use aeroflare.Push.Upload.{upload}
use aeroflare.Push.Run.{run_push_to, PushConfig, World}
use aeroflare.Push.Complete.{complete, classify}
use aeroflare.Push.Prepared.{made_set, prepare_set, push_to, PrepareConfig, PreparedSet, Target}
use aeroflare.Push.Tasks.{flatten_tasks, task_paths, PreparedTask}
use aeroflare.Prepare.Refs.{compute_missing_refs}
use aeroflare.Prepare.Tree.{forest, Result, result, nil, cons}
use aeroflare.Narinfo.{parse}
use aeroflare.Backend.{PushReceipt}
use aeroflare.Push.Upload.Answers.{IsOrderOf}
use aeroflare.Push.Prepared.Sound.{push_to-IsIndexable, IsIndexable}
use aeroflare.Push.Prepared.Whole.{push_to_whole}
use aeroflare.Push.Run.Sound.{run_push_to-IsOwned, IsOwned}
use aeroflare.Push.Tasks.Cover.{flatten_tasks-Distinct}
use aeroflare.Tests.{path_a, path_b, result_b, test_setup, test_host}

abbrev unsigned : PrepareConfig
unsigned = record {
  compression = codes "zst";
  signing_key = [];
  cache_urls = [];
  keep_files = false;
}

abbrev whole_a : Result
whole_a =
    result
      (record {
        store_path = path_a;
        hash = codes "a";
        nar_path = path_a;
        narinfo_path = path_a;
        references = path_b ∷ [];
        missing_refs = path_b ∷ [];
        signed = false;
      })
      (cons result_b nil)

abbrev set_a : PreparedSet
set_a = made_set unsigned (codes "/t") (whole_a ∷ [])

set_a_made : prepare_set test_setup (path_a ∷ []) unsigned ≡ success set_a
unfolding prepare_set compute_missing_refs contains lookup insert text_beq
set_a_made = refl

alone-Distinct : Distinct (path_a ∷ [])
alone-Distinct = ((λ m. m), tt)

set_a-IsOrderOf : IsOrderOf set_a.tasks set_a.tasks
set_a-IsOrderOf = record {
  runs = λ t m. m;
  asked = λ t m. m;
  once = flatten_tasks-Distinct (forest (whole_a ∷ []));
}

abbrev task_a : PreparedTask
task_a = record { r = whole_a; is_root = true }

task_a-In : In task_a set_a.tasks
unfolding flatten_tasks contains text_beq
task_a-In = inl refl

-- The receipt of `a`.
abbrev receipt_a : PushReceipt
receipt_a = record {
  store_path = path_a;
  narinfo_path = path_a;
  nar_digest = codes "sha256:d";
  nar_size = 7;
  nar_path = path_a;
  compression = codes "zstd";
  is_root = true;
}

uploaded_a : upload test_host task_a ≡ success receipt_a
unfolding upload parse text_beq
uploaded_a = refl

abbrev test_target : Target
test_target = record {
  has_auth = true;
  has_pusher = true;
  host = test_host;
  push_receipts = λ rs. true;
}

published_a : In receipt_a (push_to set_a test_target set_a.tasks).published
unfolding push_to flatten_tasks upload complete classify parse contains lookup insert text_beq
published_a = inl refl

push_to-IsIndexable_example : IsIndexable test_host set_a.tasks receipt_a
push_to-IsIndexable_example =
    push_to-IsIndexable test_setup (path_a ∷ []) unsigned set_a test_target set_a.tasks receipt_a
      alone-Distinct set_a_made set_a-IsOrderOf published_a

no_error : (push_to set_a test_target set_a.tasks).error ≡ none
unfolding push_to flatten_tasks upload complete classify parse contains lookup insert text_beq
no_error = refl

push_to_whole_example :
    (receipt : PushReceipt) × (upload test_host task_a ≡ success receipt)
    × In receipt (push_to set_a test_target set_a.tasks).published
push_to_whole_example =
    push_to_whole test_setup (path_a ∷ []) unsigned set_a test_target set_a.tasks task_a
      alone-Distinct set_a_made set_a-IsOrderOf no_error task_a-In

abbrev test_world : World
test_world = record {
  setup = test_setup;
  exists_batch = λ hashes. none;
  target = test_target;
  schedule = λ tasks. tasks;
}

abbrev test_push : PushConfig
test_push = record {
  target_paths = path_a ∷ [];
  force_push = true;
  cache_url = [];
  compression = codes "zstd";
  signing_key = [];
  prepare_refs = true;
}

in_order :
    (tasks : List PreparedTask)
    → Distinct (task_paths tasks)
    → IsOrderOf (test_world.schedule tasks) tasks
in_order tasks d = record { runs = λ t m. m; asked = λ t m. m; once = d }

run_push_to-IsOwned_example :
    All (IsOwned test_world test_push) (run_push_to test_world test_push).published
run_push_to-IsOwned_example = run_push_to-IsOwned test_world test_push alone-Distinct in_order
