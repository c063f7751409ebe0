-- ===== src/Prepare/Batch.antt =====
-- `Prepare` and `PrepareBatch` of pkg/prepare/prepare/prepare.go.
pub mod Roots
pub mod Single
use aeroflare.Base.{
  ℕ, none, some, List, [], ◌∷◌, map, if◌then◌else◌, Text, ◌>>=◌, or_fail, Outcome, success, text_eq,
}
use aeroflare.Prepare.Store.{parse_path, PathInfo}
use aeroflare.Prepare.Tree.{Result, forest, Info, result, nil}
use aeroflare.Prepare.Refs.{
  Env, check_ref_batch, compute_missing_refs, all_missing, attach_all, prepare_level,
  prepare_missing, prepare_refs_recursive, Config, PrepareError, invalid_path, no_path_info,
  write_failed,
}

-- The hashes of the references that parse, as `checkReferences` collects them.
unfoldable pub reference_hashes : List Text → List Text
unfolding parse_path
reference_hashes [] = []
reference_hashes (ref ∷ refs) = elim (parse_path ref) [
  | none ↦ reference_hashes refs
  | some (hash, name) ↦ hash ∷ reference_hashes refs
]

-- `checkReferences`.
unfoldable pub check_references : Env → Config → List Text → List Text
unfolding reference_hashes check_ref_batch compute_missing_refs
check_references env cfg [] = []
check_references env cfg (ref ∷ refs) =
    compute_missing_refs (ref ∷ refs) (check_ref_batch env cfg (reference_hashes (ref ∷ refs)))

-- The one result of `Prepare`, under it the results of its missing references.
unfoldable pub attach_root : ℕ → Env → Config → Info → List Text → Outcome PrepareError Result
unfolding prepare_refs_recursive
attach_root fuel env cfg i [] = success (result i nil)
attach_root fuel env cfg i (m ∷ ms) =
    prepare_refs_recursive fuel env cfg (m ∷ ms) (i.store_path ∷ []) >>= λ out.
    success (result i (forest out.0))

abbrev pub root_info : Env → Config → Text → Text × Text → PathInfo → Text × Text → Info
root_info env cfg path parsed found files = record {
  store_path = path;
  hash = parsed.0;
  nar_path = files.0;
  narinfo_path = files.1;
  references = found.references;
  missing_refs = check_references env cfg found.references;
  signed = cfg.is_signing;
}

-- `Prepare` behind the writing of the files.
unfoldable pub follow_root : ℕ → Env → Config → Info → Outcome PrepareError Result
unfolding attach_root
follow_root fuel env cfg i =
    if cfg.prepare_missing_refs
    then attach_root fuel env cfg i i.missing_refs
    else success (result i nil)

-- `Prepare` behind `GetPathInfo`.
unfoldable pub write_root :
    ℕ → Env → Config → Text → Text × Text → PathInfo → Outcome PrepareError Result
unfolding check_references follow_root
write_root fuel env cfg path parsed found =
    or_fail write_failed (env.write_nar path found) >>= λ files.
    follow_root fuel env cfg (root_info env cfg path parsed found files)

-- `Prepare` behind `ParsePath`.
unfoldable pub look_up_root : ℕ → Env → Config → Text → Text × Text → Outcome PrepareError Result
unfolding write_root
look_up_root fuel env cfg path parsed =
    or_fail no_path_info (env.get_path_info path) >>= write_root fuel env cfg path parsed

-- `Prepare`.
unfoldable pub prepare : ℕ → Env → Config → Text → Outcome PrepareError Result
unfolding parse_path look_up_root
prepare fuel env cfg path =
    or_fail invalid_path (parse_path path) >>= look_up_root fuel env cfg path

-- Phase 4 of `PrepareBatch`: the paths of the batch are marked as visited before the missing
-- references are followed.
unfoldable pub follow_refs : ℕ → Env → Config → List Info → Outcome PrepareError (List Result)
unfolding all_missing prepare_missing prepare_refs_recursive
follow_refs fuel env cfg level =
    if cfg.prepare_missing_refs
    then (prepare_missing (prepare_refs_recursive fuel env cfg) level
          (map (λ i. i.store_path) level) (all_missing level [])
        >>= λ out. success out.0)
    else success (attach_all [] level)

-- `PrepareBatch`.
unfoldable pub prepare_batch : ℕ → Env → Config → List Text → Outcome PrepareError (List Result)
unfolding prepare_level follow_refs
prepare_batch fuel env cfg paths = prepare_level env cfg paths >>= follow_refs fuel env cfg
