-- ===== src/Push/Run/Sound.antt =====
-- What a run gives to the backend, in whatever way it ends.
use aeroflare.Base.{
  ℕ, ◌-◌, ◌≡◌, refl, sym, subst, inl, inr, Bool, Option, none, some, List, [], ◌∷◌, Bool-cases,
  if_true, if_false, length, All, All-append, In, Distinct, In-All, All-of_In, Text, ◌>>=◌, Outcome,
  success, failure, text_eq,
}
use aeroflare.Push.Upload.{upload_task_set, Uploads}
use aeroflare.Push.Run.{
  filter_paths, chunks, Stop, every_upload_failed, index_chunk, finish_chunk, upload_chunk,
  run_chunk, run_chunks, empty_state, report, push_filtered, run_with, run_push_to, PushConfig,
  World, RunState, or_stop, upstream_urls, in_directory, with_key, compressed, RunReturn,
}
use aeroflare.Push.Complete.{complete_receipts}
use aeroflare.Push.Prepared.{load_key, prepare_paths, SetupError}
use aeroflare.Push.Tasks.{flatten_tasks, task_paths, PreparedTask}
use aeroflare.Prepare.Refs.{Config, Env, PrepareError}
use aeroflare.Prepare.Tree.{forest, Result, Results}
use aeroflare.Compress.{parse_type, CompressionType}
use aeroflare.Backend.{PushReceipt}
use aeroflare.Push.Prepared.Sound.{
  IsIndexable, complete_receipts-IsIndexable, prepare_paths-AgreeAll,
}
use aeroflare.Push.Run.Chunks.{filter_paths-Distinct, chunks-Distinct}
use aeroflare.Push.Tasks.Cover.{flatten_tasks-Distinct}
use aeroflare.Push.Upload.Answers.{IsOrderOf}

-- The receipts that the backend was given.
abbrev given : Outcome Stop RunState → List PushReceipt
given (success s) = s.total_receipts
given (failure (e, published)) = published

module _ (w : World) (P : PushReceipt → Type 0) where
  index_chunk-given :
      (s : RunState) (out : Uploads) (receipts : List PushReceipt) (excluded : List Text)
      → All P s.total_receipts
      → All P receipts
      → All P (given (index_chunk w s out (receipts, excluded)))
  unfolding index_chunk
  index_chunk-given s out [] excluded old new = All-append P s.total_receipts [] old tt
  index_chunk-given s out (r ∷ rs) excluded old new =
      let both = All-append P s.total_receipts (r ∷ rs) old new in
      elim (Bool-cases (w.target.push_receipts (r ∷ rs))) [
        | inl indexed ↦ rw indexed both
        | inr refused ↦ rw refused both
      ]

  finish_chunk-given :
      (s : RunState) (results : Results) (out : Uploads)
      → All P s.total_receipts
      → All P (complete_receipts out.receipts_by_path results).0
      → All P (given (finish_chunk w s results out))
  unfolding finish_chunk
  finish_chunk-given s results out old new =
      let indexed =
        index_chunk-given s out (complete_receipts out.receipts_by_path results).0
          (complete_receipts out.receipts_by_path results).1 old new in
      elim (Bool-cases (every_upload_failed out (flatten_tasks results))) [
        | inl every ↦ rw every old
        | inr some_done ↦ rw some_done indexed
      ]

  abbrev New : List Result → Type 0
  New results =
      All P
        (complete_receipts
          (upload_task_set w.target.host
            (w.schedule (flatten_tasks (forest results)))).receipts_by_path
          (forest results)).0

  upload_chunk-given :
      (s : RunState) (results : List Result)
      → All P s.total_receipts
      → New results
      → All P (given (upload_chunk w s results))
  unfolding upload_chunk
  upload_chunk-given s results old new =
      let finished =
        finish_chunk-given s (forest results)
          (upload_task_set w.target.host (w.schedule (flatten_tasks (forest results)))) old new in
      elim (Bool-cases w.target.has_pusher) [
        | inl ready ↦ rw ready finished
        | inr refused ↦ rw refused old
      ]

  prepared-given :
      (s : RunState) (prepared : Outcome PrepareError (List Result))
      → All P s.total_receipts
      → ((results : List Result) → prepared ≡ success results → New results)
      → All P (given (or_stop s prepared >>= upload_chunk w s))
  prepared-given s (success results) old new = upload_chunk-given s results old (new results refl)
  prepared-given s (failure e) old new = old

  then-given :
      (o : Outcome Stop RunState) (next : RunState → Outcome Stop RunState)
      → All P (given o)
      → ((s : RunState) → All P s.total_receipts → All P (given (next s)))
      → All P (given (o >>= next))
  then-given (success s) next old step = step s old
  then-given (failure (e, published)) next old step = old

  run_chunks-given :
      (env : Env) (cfg : Config) (cs : List (List Text)) (s : RunState)
      → All P s.total_receipts
      → ((c : List Text) (results : List Result)
          → In c cs
          → prepare_paths w.setup.fuel env cfg c ≡ success results
          → New results)
      → All P (given (run_chunks w env cfg cs s))
  unfolding run_chunks run_chunk
  run_chunks-given env cfg [] s old new = old
  run_chunks-given env cfg (c ∷ cs) s old new =
      then-given (run_chunk w env cfg c s) (run_chunks w env cfg cs)
        (prepared-given s (prepare_paths w.setup.fuel env cfg c) old
          (λ results made. new c results (inl refl) made))
        (λ s' old'.
          run_chunks-given env cfg cs s' old' (λ d results m made. new d results (inr m) made))

-- A receipt that may be indexed, with the chunk of the run that it was made in.
pub record IsOwned (w : World) (cfg : PushConfig) (receipt : PushReceipt) : Type 0 where
  pub kind : CompressionType
  pub dir : Text
  pub inner : Config
  pub chunk : List Text
  pub results : List Result
  pub is_chunk : In chunk (chunks (length (filter_paths w cfg)) (filter_paths w cfg))
  pub made : prepare_paths w.setup.fuel (w.setup.env dir kind) inner chunk ≡ success results
  pub indexable : IsIndexable w.target.host (flatten_tasks (forest results)) receipt

module _ (w : World) (cfg : PushConfig) (different : Distinct cfg.target_paths)
    (runs : (tasks : List PreparedTask)
      → Distinct (task_paths tasks)
      → IsOrderOf (w.schedule tasks) tasks) where
  abbrev paths : List Text
  paths = filter_paths w cfg

  chunk-IsOwned :
      (kind : CompressionType) (dir : Text) (inner : Config) (c : List Text) (results : List Result)
      → In c (chunks (length paths) paths)
      → prepare_paths w.setup.fuel (w.setup.env dir kind) inner c ≡ success results
      → New w (IsOwned w cfg) results
  chunk-IsOwned kind dir inner c results m made =
      let tasks = flatten_tasks (forest results) in
      let (at, agree) =
        prepare_paths-AgreeAll w.setup.fuel (w.setup.env dir kind) inner c results
          (In-All Distinct c (chunks (length paths) paths)
            (chunks-Distinct paths (filter_paths-Distinct w cfg different)) m)
          made in
      All-of_In (IsOwned w cfg)
        (complete_receipts (upload_task_set w.target.host (w.schedule tasks)).receipts_by_path
          (forest results)).0
        (λ receipt h. record {
          kind = kind;
          dir = dir;
          inner = inner;
          chunk = c;
          results = results;
          is_chunk = m;
          made = made;
          indexable =
              complete_receipts-IsIndexable w.target.host (forest results) at agree
                (w.schedule tasks) (runs tasks (flatten_tasks-Distinct (forest results))) receipt h;
        })

  report-published : (n : ℕ) (o : Outcome Stop RunState) → (report n o).published ≡ given o
  unfolding report
  report-published n (success s) = refl
  report-published n (failure (e, published)) = refl

  push_filtered-published :
      (kind : CompressionType) (dir : Text) (inner : Config) (n : ℕ) (ps : List Text)
      → ps ≡ paths
      → All (IsOwned w cfg) (push_filtered w (w.setup.env dir kind) inner n ps).published
  unfolding push_filtered
  push_filtered-published kind dir inner n [] e = tt
  push_filtered-published kind dir inner n (p ∷ ps) e =
      let cs = chunks (length (p ∷ ps)) (p ∷ ps) in
      subst (All (IsOwned w cfg))
        (sym (report-published n (run_chunks w (w.setup.env dir kind) inner cs empty_state)))
        (run_chunks-given w (IsOwned w cfg) (w.setup.env dir kind) inner cs empty_state tt
          (λ c results m made.
            chunk-IsOwned kind dir inner c results (subst (λ qs. In c (chunks (length qs) qs)) e m)
              made))

  directory-published :
      (kind : CompressionType) (signs : Bool) (dir : Option Text)
      → All (IsOwned w cfg) (in_directory w cfg kind signs dir).published
  unfolding run_with
  directory-published kind signs none = tt
  directory-published kind signs (some dir) =
      push_filtered-published kind dir
        (record {
          cache_urls = upstream_urls cfg.cache_url;
          prepare_missing_refs = cfg.prepare_refs;
          is_signing = signs;
        })
        (length cfg.target_paths - length paths) paths refl

  key-published :
      (kind : CompressionType) (key : Outcome SetupError Bool)
      → All (IsOwned w cfg) (with_key w cfg kind key).published
  key-published kind (failure e) = tt
  key-published kind (success signs) = directory-published kind signs w.setup.mkdir_temp

  compressed-published :
      (kind : Option CompressionType) → All (IsOwned w cfg) (compressed w cfg kind).published
  compressed-published none = tt
  compressed-published (some kind) = key-published kind (load_key w.setup cfg.signing_key)

  -- If the paths asked for are different and the uploads of a chunk end in some order, each once,
  -- then a run gives the backend only receipts that may be indexed, also when it ends in an error:
  -- each is that of an uploaded task of a chunk that was prepared, and every store path under its
  -- result is uploaded.
  pub run_push_to-IsOwned : All (IsOwned w cfg) (run_push_to w cfg).published
  unfolding run_push_to
  run_push_to-IsOwned = elim (Bool-cases w.target.has_auth) [
    | inl auth ↦
        subst (λ (r : RunReturn). All (IsOwned w cfg) r.published)
          (sym (if_true w.target.has_auth _ _ auth))
          (compressed-published (parse_type cfg.compression))
    | inr none_given ↦
        subst (λ (r : RunReturn). All (IsOwned w cfg) r.published)
          (sym (if_false w.target.has_auth _ _ none_given)) tt
  ]
