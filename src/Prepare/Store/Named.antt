-- ===== src/Prepare/Store/Named.antt =====
-- The hash and the name of a path whose metadata is read.
use mathlib.Core.Option
use mathlib.Core.Option.{some-injective}
use aeroflare.Base.{
  ◌≡◌, refl, sym, ap, subst, Option, none, some, List, [], ◌∷◌, All, Text, nat_eq, text_eq,
}
use aeroflare.Prepare.Store.{
  parse_path, named_info, put_info, named_infos, parts_or_none, with_references, legacy_info,
  legacy_infos, decoded_infos, named_or_none, infos_of_raw, infos_of_output, path_infos, PathInfo,
  PathInfoJson, NixCommands,
}

-- The hash and the name are those that `ParsePath` gives, or empty if it gives an error.
abbrev pub IsNamed : PathInfo → Type 0
IsNamed info = parts_or_none (parse_path info.path) ≡ (info.hash, info.name)

-- The infos of an answer that is no error.
AllNamed : Option (List PathInfo) → Type 0
AllNamed o = (infos : List PathInfo) → o ≡ some infos → All IsNamed infos

put_info-AllNamed :
    (found : Option PathInfo) (later : Option (List PathInfo))
    → ((info : PathInfo) → found ≡ some info → IsNamed info)
    → AllNamed later
    → AllNamed (put_info found later)
unfolding AllNamed
put_info-AllNamed none later h hs infos e = cc e
put_info-AllNamed (some info) none h hs infos e = cc e
put_info-AllNamed (some info) (some others) h hs infos e =
    subst (All IsNamed) (some-injective _ _ e) (h info refl, hs others refl)

nil-AllNamed : AllNamed (some [])
unfolding AllNamed
nil-AllNamed infos e = subst (All IsNamed) (some-injective _ _ e) tt

named_info-IsNamed :
    (d : PathInfoJson) (parts : Option (Text × Text))
    → parts ≡ parse_path d.path
    → (info : PathInfo) → Option.map (named_info d) parts ≡ some info
    → IsNamed info
named_info-IsNamed d none same info e = cc e
named_info-IsNamed d (some (hash, name)) same info e =
    subst IsNamed (some-injective _ _ e) (ap parts_or_none (sym same))

named_infos-AllNamed : (ds : List PathInfoJson) → AllNamed (named_infos ds)
unfolding named_infos
named_infos-AllNamed [] = nil-AllNamed
named_infos-AllNamed (d ∷ ds) =
    put_info-AllNamed _ _ (named_info-IsNamed d (parse_path d.path) refl) (named_infos-AllNamed ds)

module _ (nix : NixCommands) where
  with_references-IsNamed :
      (path : Text) (output : Option Text) (info : PathInfo)
      → with_references nix path output ≡ some info
      → IsNamed info
  with_references-IsNamed path none info e = cc e
  with_references-IsNamed path (some output) info e = subst IsNamed (some-injective _ _ e) refl

  legacy_infos-AllNamed : (paths : List Text) → AllNamed (legacy_infos nix paths)
  unfolding legacy_infos legacy_info
  legacy_infos-AllNamed [] = nil-AllNamed
  legacy_infos-AllNamed (p ∷ paths) =
      put_info-AllNamed _ _ (with_references-IsNamed p (nix.query_references p))
        (legacy_infos-AllNamed paths)

  named_or_none-AllNamed : (o : Option (List PathInfoJson)) → AllNamed (named_or_none nix o)
  unfolding AllNamed
  named_or_none-AllNamed none infos e = cc e
  named_or_none-AllNamed (some ds) infos e = named_infos-AllNamed ds infos e

  infos_of_raw-AllNamed : (o : Option Text) → AllNamed (infos_of_raw nix o)
  unfolding AllNamed
  infos_of_raw-AllNamed none infos e = cc e
  infos_of_raw-AllNamed (some raw) infos e = named_or_none-AllNamed (decoded_infos nix raw) infos e

  infos_of_output-AllNamed :
      (paths : List Text) (output : Option Text) → AllNamed (infos_of_output nix paths output)
  infos_of_output-AllNamed paths none = legacy_infos-AllNamed paths
  infos_of_output-AllNamed paths (some output) = infos_of_raw-AllNamed (nix.raw_value output)

  -- Every metadata that `PathInfo` gives has the hash and the name of its path, from both commands.
  pub path_infos-IsNamed :
      (paths : List Text) (infos : List PathInfo)
      → path_infos nix paths ≡ some infos
      → All IsNamed infos
  unfolding path_infos AllNamed
  path_infos-IsNamed [] infos e = nil-AllNamed infos e
  path_infos-IsNamed (p ∷ paths) infos e =
      infos_of_output-AllNamed (p ∷ paths) (nix.path_info_json (p ∷ paths)) infos e
