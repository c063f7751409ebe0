-- ===== src/Cmd/Installable/Paths.antt =====
-- The arguments of a push stand for paths of the store.
use aeroflare.Base.{◌≡◌, true, Option, some, List, All, Text, codes, has_prefix, nat_eq, text_eq}
use aeroflare.Cmd.Installable.{new_installable_resolver, InstallableResolver}

IsStored : Text → Type 0
IsStored path = has_prefix path (codes "/nix/store/") ≡ true

module _ (eval_symlinks nix_build : Text → Option Text) where
  resolver : InstallableResolver
  resolver = new_installable_resolver eval_symlinks nix_build

  -- The paths of an answer that are all of the store.
  AllStored : Option (List Text) → Type 0
  AllStored o = (paths : List Text) → o ≡ some paths → All IsStored paths
