-- ===== src/Ci/Builds.antt =====
-- internal/ci/build.go and filter.go: the store paths that builds print, and those of them that no
-- upstream cache holds.
pub mod Roots
use aeroflare.Base.{
  ℕ, ◌-◌, Bool, false, not, ◌&&◌, Option, none, some, List, [], ◌∷◌, if◌then◌else◌, ◌==◌, length,
  contains, Text, codes, trim_space, has_prefix, split, Dict, text_eq, nat_eq,
}
use aeroflare.Prepare.Store.{parse_path}
use aeroflare.Prepare.Refs.{is_upstream}

-- `scrapeStorePaths`, on lines.
unfoldable pub scrape_lines : List Text → List Text
scrape_lines [] = []
scrape_lines (l ∷ ls) =
    let line = trim_space l in
    let rest = scrape_lines ls in
    if not (line == [])
      && not (has_prefix line (codes "#"))
      && has_prefix line (codes "/nix/store/")
    then line ∷ rest
    else rest

unfoldable pub scrape_store_paths : Text → List Text
unfolding scrape_lines
scrape_store_paths stdout = scrape_lines (split b'\n' stdout)

-- `dedupPaths`, with the paths seen.
unfoldable pub dedup_from : List Text → List Text → List Text
dedup_from seen [] = []
dedup_from seen (p ∷ ps) =
    let old = dedup_from seen ps in
    let new = dedup_from (p ∷ seen) ps in if contains seen p then old else p ∷ new

unfoldable pub dedup_paths : List Text → List Text
unfolding dedup_from
dedup_paths paths = dedup_from [] paths

abbrev pub some_paths : List Text → Option (List Text)
some_paths [] = none
some_paths (p ∷ ps) = some (p ∷ ps)

-- `BuildInstallable`, on the output of nix: a build without store paths is an error.
abbrev pub built_paths : Option Text → Option (List Text)
built_paths none = none
built_paths (some stdout) = some_paths (scrape_store_paths stdout)

-- The query of the upstream caches, which are none or may fail.
abbrev pub Checker : Type 0
Checker = Option (List Text → Option (Dict Text Bool))

-- The hashes of the roots that parse.
unfoldable pub root_hashes : List Text → List Text
root_hashes [] = []
root_hashes (p ∷ ps) = elim (parse_path p) [
  | none ↦ root_hashes ps
  | some (hash, name) ↦ hash ∷ root_hashes ps
]

abbrev pub is_held : Dict Text Bool → Text → Bool
is_held exists path = elim (parse_path path) [
  | none ↦ false
  | some (hash, name) ↦ is_upstream exists hash
]

unfoldable pub kept_roots : Dict Text Bool → List Text → List Text
kept_roots exists [] = []
kept_roots exists (p ∷ ps) =
    let rest = kept_roots exists ps in if is_held exists p then rest else p ∷ rest

abbrev pub kept_by : List Text → Option (Dict Text Bool) → Option (List Text × ℕ)
kept_by roots none = none
kept_by roots (some exists) =
    some (kept_roots exists roots, length roots - length (kept_roots exists roots))

-- `filterRoots`: the roots that are kept, and the number of the others.
unfoldable pub filter_roots : Checker → List Text → Option (List Text × ℕ)
unfolding root_hashes kept_roots
filter_roots none roots = some (roots, 0)
filter_roots (some exists_batch) [] = some ([], 0)
filter_roots (some exists_batch) (p ∷ ps) = kept_by (p ∷ ps) (exists_batch (root_hashes (p ∷ ps)))
