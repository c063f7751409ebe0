-- ===== src/Push/Tasks.antt =====
-- `preparedTask` and `flattenTasks` of pkg/push/prepared.go; `RunPushTo` of pkg/push/push.go has
-- the same closure, `collect`, over its `pushTask`.
pub mod Cover
use aeroflare.Base.{
  Bool, true, false, List, [], ◌∷◌, ◌++◌, map, if◌then◌else◌, contains, Text, text_eq,
}
use aeroflare.Prepare.Tree.{Result, Results, result, nil, cons, path_of}

pub record PreparedTask : Type 0 where
  pub r : Result
  pub is_root : Bool

-- The map `seen` and the slice `tasks` that the closure `collect` writes.
pub record Collected : Type 0 where
  pub seen : List Text
  pub tasks : List PreparedTask

-- The first visit of a node.
abbrev pub push_task : Result → Bool → Collected → Collected
push_task r is_root s = record {
  seen = path_of r ∷ s.seen;
  tasks = s.tasks ++ record { r = r; is_root = is_root } ∷ [];
}

unfoldable mutual
  pub collect : Result → Bool → Collected → Collected
  collect (result i refs) is_root s =
      let fresh = collect_all refs false (push_task (result i refs) is_root s) in
      if contains s.seen i.store_path then s else fresh

  pub collect_all : Results → Bool → Collected → Collected
  collect_all nil is_root s = s
  collect_all (cons r rs) is_root s = collect_all rs is_root (collect r is_root s)

unfoldable pub flatten_tasks : Results → List PreparedTask
unfolding collect collect_all
flatten_tasks results = (collect_all results true (record { seen = []; tasks = [] })).tasks

abbrev pub task_paths : List PreparedTask → List Text
task_paths = map (λ t. path_of t.r)
