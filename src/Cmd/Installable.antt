-- ===== src/Cmd/Installable.antt =====
-- pkg/cmd/push/installable.go: the store paths that the arguments of a push stand for.
-- filepath.EvalSymlinks and the output of `nix build` are the environment.
pub mod Paths
use aeroflare.Base.{
  Option, none, some, List, [], ◌∷◌, ◌++◌, if◌then◌else◌, Text, codes, has_prefix, trim_prefix, cut,
  nat_eq, text_eq,
}
use aeroflare.Ci.Builds.{built_paths}
use aeroflare.Prepare.Write.{join_path}
use aeroflare.Backend.{before_cut}

abbrev pub nix_store_dir : Text
nix_store_dir = codes "/nix/store"

-- `installableResolver`.
pub record InstallableResolver : Type 0 where
  pub store_dir : Text
  pub eval_symlinks : Text → Option Text
  pub build : Text → Option (List Text)

-- `newInstallableResolver`, whose build is that of `BuildInstallable`.
abbrev pub new_installable_resolver :
    (Text → Option Text) → (Text → Option Text) → InstallableResolver
new_installable_resolver eval_symlinks nix_build = record {
  store_dir = nix_store_dir;
  eval_symlinks = eval_symlinks;
  build = λ installable. built_paths (nix_build installable);
}

-- `storePathFromSymlink`.
abbrev pub top_level : Text → Option Text → Option Text
top_level store_dir none = none
top_level store_dir (some resolved) =
    if has_prefix resolved (store_dir ++ (b'/' ∷ []))
    then (let rest = trim_prefix resolved (store_dir ++ (b'/' ∷ [])) in
        some (join_path store_dir (before_cut rest (cut b'/' rest))))
    else none

unfoldable pub store_path_from_symlink : InstallableResolver → Text → Option Text
unfolding has_prefix trim_prefix cut
store_path_from_symlink r arg = top_level r.store_dir (r.eval_symlinks arg)

-- The paths of one argument.
abbrev pub linked_or_built : Option Text → Option (List Text) → Option (List Text)
linked_or_built none built = built
linked_or_built (some path) built = some (path ∷ [])

unfoldable pub resolve_argument : InstallableResolver → Text → Option (List Text)
unfolding store_path_from_symlink has_prefix
resolve_argument r arg =
    if has_prefix arg (r.store_dir ++ (b'/' ∷ []))
    then some (arg ∷ [])
    else linked_or_built (store_path_from_symlink r arg) (r.build arg)

-- `resolve`: `none` is the error of a build.
abbrev pub then_paths : Option (List Text) → Option (List Text) → Option (List Text)
then_paths none later = none
then_paths (some paths) none = none
then_paths (some paths) (some later) = some (paths ++ later)

unfoldable pub resolve_installables : InstallableResolver → List Text → Option (List Text)
unfolding resolve_argument
resolve_installables r [] = some []
resolve_installables r (arg ∷ args) =
    then_paths (resolve_argument r arg) (resolve_installables r args)
