-- ===== src/Prepare/Refs.antt =====
-- pkg/prepare/prepare/prepare.go: which references are prepared. `GetPathInfo`, the batch query of
-- the upstream caches and `writeNarAndNarinfo`, which run commands, requests and file writes, are
-- the environment. The workers of a pool send their answers in any order and the caller sorts them
-- by index, so a pool is a pass over its list; of several errors the first of the list is returned.
pub mod Parts
pub mod Visited
pub mod Covered
pub mod Terminates
use aeroflare.Base.{
  ℕ, zero, suc, Bool, false, not, Option, none, some, List, [], ◌∷◌, ◌++◌, map, if◌then◌else◌,
  contains, Text, Dict, lookup, insert, ◌>>=◌, or_fail, Outcome, success, failure, text_eq,
}
use aeroflare.Prepare.Tree.{Result, path_of, Info, Results, result, nil, cons}
use aeroflare.Prepare.Store.{PathInfo, parse_path}

-- The part of `Config` that is read here.
pub record Config : Type 0 where
  pub cache_urls : List Text
  pub prepare_missing_refs : Bool
  pub is_signing : Bool

pub record Env : Type 0 where
  pub get_path_info : Text → Option PathInfo
  -- The map that the group of caches returns for the hashes.
  pub exists_batch : List Text → List Text → Dict Text Bool
  -- The paths of the NAR and the narinfo file.
  pub write_nar : Text → PathInfo → Option (Text × Text)

pub data PrepareError : Type 0 where
  invalid_path no_path_info write_failed nil_info out_of_fuel : PrepareError

-- `gatherPathInfos`.
unfoldable pub gather_path_infos : Env → List Text → Outcome PrepareError (Dict Text PathInfo)
gather_path_infos env [] = success []
gather_path_infos env (p ∷ ps) = or_fail no_path_info (env.get_path_info p) >>= λ found.
    gather_path_infos env ps >>= λ infos. success (insert p found infos)

-- The hashes of references that parse, each once, in front of those seen.
unfoldable pub add_hashes : List Text → List Text → List Text
unfolding parse_path
add_hashes [] seen = seen
add_hashes (ref ∷ refs) seen = elim (parse_path ref) [
  | none ↦ add_hashes refs seen
  | some (hash, name) ↦
      let old = add_hashes refs seen in
      let new = add_hashes refs (seen ++ hash ∷ []) in if contains seen hash then old else new
]

-- `collectReferenceHashes`. The map from hashes back to paths that it returns too is read by nobody.
unfoldable pub collect_reference_hashes : Dict Text PathInfo → List Text → List Text
unfolding add_hashes
collect_reference_hashes [] seen = seen
collect_reference_hashes ((p, found) ∷ infos) seen =
    collect_reference_hashes infos (add_hashes found.references seen)

-- `checkRefBatch`.
unfoldable pub check_ref_batch : Env → Config → List Text → Dict Text Bool
check_ref_batch env cfg [] = []
check_ref_batch env cfg (h ∷ hs) = elim cfg.cache_urls [
  | [] ↦ []
  | url ∷ urls ↦ env.exists_batch (url ∷ urls) (h ∷ hs)
]

-- `existsMap[h]`.
abbrev pub is_upstream : Dict Text Bool → Text → Bool
is_upstream exists hash = elim (lookup hash exists) [ none ↦ false | some held ↦ held ]

-- A reference that parses and that no upstream cache holds.
unfoldable pub is_missing : Dict Text Bool → Text → Bool
unfolding parse_path
is_missing exists ref = elim (parse_path ref) [
  | none ↦ false
  | some (hash, name) ↦ not (is_upstream exists hash)
]

unfoldable pub not_upstream : Dict Text Bool → List Text → List Text
unfolding is_missing
not_upstream exists [] = []
not_upstream exists (ref ∷ refs) =
    let rest = not_upstream exists refs in if is_missing exists ref then ref ∷ rest else rest

-- `computeMissingRefs`.
unfoldable pub compute_missing_refs : List Text → Dict Text Bool → List Text
unfolding not_upstream
compute_missing_refs references [] = references
compute_missing_refs references (entry ∷ exists) = not_upstream (entry ∷ exists) references

-- The loop over `refPaths` at the head of `prepareRefsRecursive`: `newPaths`, and `visited`.
unfoldable pub visit_new : List Text → List Text → List Text × List Text
visit_new [] visited = ([], visited)
visit_new (p ∷ ps) visited =
    let old = visit_new ps visited in
    let new = visit_new ps (p ∷ visited) in if contains visited p then old else (p ∷ new.0, new.1)

abbrev pub new_info : Config → Dict Text Bool → Text → PathInfo → Text × Text → Info
new_info cfg exists p found (nar, narinfo) = record {
  store_path = p;
  hash = found.hash;
  nar_path = nar;
  narinfo_path = narinfo;
  references = found.references;
  missing_refs = compute_missing_refs found.references exists;
  signed = cfg.is_signing;
}

-- `writeNarsFromInfos`, with the `MissingRefs` that its callers fill in.
unfoldable pub write_nars_from_infos :
    Env
    → Config
    → Dict Text PathInfo
    → Dict Text Bool
    → List Text
    → Outcome PrepareError (List Info)
write_nars_from_infos env cfg infos exists [] = success []
write_nars_from_infos env cfg infos exists (p ∷ ps) = or_fail nil_info (lookup p infos) >>= λ found.
    or_fail write_failed (env.write_nar p found) >>= λ files.
    write_nars_from_infos env cfg infos exists ps >>= λ rest.
    success (new_info cfg exists p found files ∷ rest)

-- `allMissing`: the missing references of all results, each once.
unfoldable pub all_missing : List Info → List Text → List Text
all_missing [] seen = []
all_missing (r ∷ rs) seen =
    let (fresh, seen') = visit_new r.missing_refs seen in fresh ++ all_missing rs seen'

-- `subResultMap`.
unfoldable pub result_map : List Result → Dict Text Result
result_map [] = []
result_map (r ∷ rs) = insert (path_of r) r (result_map rs)

-- `if rr, ok := refResultMap[ref]; ok`.
abbrev append_found : Option Result → Results → Results
append_found none rest = rest
append_found (some r) rest = cons r rest

-- The results of the missing references of one path.
unfoldable pub attach : Dict Text Result → List Text → Results
attach found [] = nil
attach found (ref ∷ refs) = append_found (lookup ref found) (attach found refs)

abbrev pub attach_all : Dict Text Result → List Info → List Result
attach_all found = map (λ i. result i (attach found i.missing_refs))

-- The query for the references of a level, its files and its missing references.
unfoldable pub write_level :
    Env → Config → List Text → Dict Text PathInfo → Outcome PrepareError (List Info)
unfolding collect_reference_hashes check_ref_batch write_nars_from_infos
write_level env cfg paths infos =
    write_nars_from_infos env cfg infos
      (check_ref_batch env cfg (collect_reference_hashes infos [])) paths

-- One level of `prepareRefsRecursive`, which has the phases 1 to 3 of `PrepareBatch` too.
unfoldable pub prepare_level : Env → Config → List Text → Outcome PrepareError (List Info)
unfolding gather_path_infos write_level
prepare_level env cfg paths = gather_path_infos env paths >>= write_level env cfg paths

-- The results of a level under the results of its missing references.
unfoldable pub attach_level :
    List Info → List Result × List Text → Outcome PrepareError (List Result × List Text)
unfolding result_map attach
attach_level level (sub, visited) = success (attach_all (result_map sub) level, visited)

-- The call of `prepareRefsRecursive` for the references of a level that are missing.
unfoldable pub prepare_missing :
    (List Text → List Text → Outcome PrepareError (List Result × List Text))
    → List Info
    → List Text
    → List Text
    → Outcome PrepareError (List Result × List Text)
unfolding attach_level
prepare_missing recurse level visited [] = attach_level level ([], visited)
prepare_missing recurse level visited (m ∷ ms) = recurse (m ∷ ms) visited >>= attach_level level

-- `prepareRefsRecursive` behind its first loop.
unfoldable pub prepare_new :
    (List Text → List Text → Outcome PrepareError (List Result × List Text))
    → Env
    → Config
    → List Text × List Text
    → Outcome PrepareError (List Result × List Text)
unfolding prepare_level all_missing prepare_missing
prepare_new recurse env cfg ([], visited) = success ([], visited)
prepare_new recurse env cfg (p ∷ ps, visited) = prepare_level env cfg (p ∷ ps) >>= λ level.
    prepare_missing recurse level visited (all_missing level [])

-- `prepareRefsRecursive`: the results, and `visited` as the call leaves it.
unfoldable pub prepare_refs_recursive :
    ℕ → Env → Config → List Text → List Text → Outcome PrepareError (List Result × List Text)
unfolding visit_new prepare_new
prepare_refs_recursive zero env cfg refs visited = failure out_of_fuel
prepare_refs_recursive (suc fuel) env cfg refs visited =
    prepare_new (prepare_refs_recursive fuel env cfg) env cfg (visit_new refs visited)
