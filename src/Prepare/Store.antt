-- ===== src/Prepare/Store.antt =====
-- pkg/prepare/store/store.go: what is known of a store path. The commands `nix` and `nix-store` and
-- encoding/json are the environment.
pub mod Named
use mathlib.Core.Option
use aeroflare.Base.{
  Option, none, some, List, [], ◌∷◌, map, if◌then◌else◌, ◌==◌, Text, codes, trim_space, cut, split,
  base, text_eq, nat_eq,
}
use aeroflare.Prepare.Tree.{info}

-- `PathInfo`.
pub record PathInfo : Type 0 where
  pub path : Text
  pub hash : Text
  pub name : Text
  pub references : List Text
  pub deriver : Text
  pub system : Text

-- `ParsePath`: the base name before and behind its first dash.
unfoldable pub parse_path : Text → Option (Text × Text)
unfolding cut base
parse_path path = cut b'-' (base path)

-- `pathInfoJSON`.
pub record PathInfoJson : Type 0 where
  pub path : Text
  pub references : List Text
  pub deriver : Text
  pub system : Text

-- The output of the commands, or their error, and the decoders. `raw_value` is the text of a value
-- without the white space around it; the order of `decode_map` is that of a map.
pub record NixCommands : Type 0 where
  pub query_requisites : List Text → Option Text
  pub path_info_json : List Text → Option Text
  pub query_references : Text → Option Text
  pub query_deriver : Text → Option Text
  pub raw_value : Text → Option Text
  pub decode_list : Text → Option (List PathInfoJson)
  pub decode_map : Text → Option (List (Text × PathInfoJson))
  pub decode_one : Text → Option PathInfoJson

-- The lines of an output that are not empty.
unfoldable pub full_lines : List Text → List Text
full_lines [] = []
full_lines ([] ∷ ls) = full_lines ls
full_lines ((c ∷ l) ∷ ls) = (c ∷ l) ∷ full_lines ls

abbrev pub closure_lines : Text → List Text
closure_lines output = full_lines (split b'\n' (trim_space output))

-- A map of paths, in which an entry without a path has that of its key.
abbrev pub keyed_info : Text × PathInfoJson → PathInfoJson
keyed_info (key, v) = if v.path == [] then record v { path = key } else v

abbrev pub one_info : Option PathInfoJson → Option (List PathInfoJson)
one_info none = none
one_info (some single) = some (single ∷ [])

abbrev pub map_or_one :
    Option (List (Text × PathInfoJson)) → Option PathInfoJson → Option (List PathInfoJson)
map_or_one none single = one_info single
map_or_one (some entries) single = some (map keyed_info entries)

-- The entry of the answer for what was decoded.
abbrev pub named_info : PathInfoJson → Text × Text → PathInfo
named_info d (hash, name) = record {
  path = d.path;
  hash = hash;
  name = name;
  references = d.references;
  deriver = d.deriver;
  system = d.system;
}

abbrev pub put_info : Option PathInfo → Option (List PathInfo) → Option (List PathInfo)
put_info none infos = none
put_info (some info) none = none
put_info (some info) (some infos) = some (info ∷ infos)

unfoldable pub named_infos : List PathInfoJson → Option (List PathInfo)
unfolding parse_path
named_infos [] = some []
named_infos (d ∷ ds) = put_info (Option.map (named_info d) (parse_path d.path)) (named_infos ds)

-- The hash and the name of `PathInfo` when nix is too old: none if the path does not parse.
abbrev pub parts_or_none : Option (Text × Text) → Text × Text
parts_or_none none = ([], [])
parts_or_none (some parts) = parts

abbrev pub known_deriver : Option Text → Text
known_deriver none = []
known_deriver (some output) =
    let d = trim_space output in if d == codes "unknown-deriver" then [] else d

module _ (nix : NixCommands) where
  -- `Closure`: `none` is its error.
  unfoldable pub closure_of : List Text → Option (List Text)
  unfolding full_lines split trim_space
  closure_of [] = some []
  closure_of (p ∷ paths) = Option.map closure_lines (nix.query_requisites (p ∷ paths))

  -- `getPathInfoLegacy`, on the path itself.
  abbrev pub with_references : Text → Option Text → Option PathInfo
  with_references path none = none
  with_references path (some output) = some (record {
    path = path;
    hash = (parts_or_none (parse_path path)).0;
    name = (parts_or_none (parse_path path)).1;
    references = full_lines (map trim_space (split b'\n' (trim_space output)));
    deriver = known_deriver (nix.query_deriver path);
    system = [];
  })

  unfoldable pub legacy_info : Text → Option PathInfo
  unfolding full_lines split trim_space parse_path
  legacy_info path = with_references path (nix.query_references path)

  unfoldable pub legacy_infos : List Text → Option (List PathInfo)
  unfolding legacy_info
  legacy_infos [] = some []
  legacy_infos (p ∷ paths) = put_info (legacy_info p) (legacy_infos paths)

  -- The decoded output, by its first character.
  abbrev pub decoded_infos : Text → Option (List PathInfoJson)
  decoded_infos [] = none
  decoded_infos (c ∷ raw) =
      if c == b'['
      then nix.decode_list (c ∷ raw)
      else if c == b'{'
      then map_or_one (nix.decode_map (c ∷ raw)) (nix.decode_one (c ∷ raw))
      else none

  abbrev pub named_or_none : Option (List PathInfoJson) → Option (List PathInfo)
  named_or_none none = none
  named_or_none (some ds) = named_infos ds

  abbrev pub infos_of_raw : Option Text → Option (List PathInfo)
  infos_of_raw none = none
  infos_of_raw (some raw) = named_or_none (decoded_infos raw)

  abbrev pub infos_of_output : List Text → Option Text → Option (List PathInfo)
  infos_of_output paths none = legacy_infos paths
  infos_of_output paths (some output) = infos_of_raw (nix.raw_value output)

  -- `PathInfo`: `none` is its error.
  unfoldable pub path_infos : List Text → Option (List PathInfo)
  unfolding named_infos legacy_infos
  path_infos [] = some []
  path_infos (p ∷ paths) = infos_of_output (p ∷ paths) (nix.path_info_json (p ∷ paths))

  -- `GetPathInfo`.
  abbrev pub first_info : Option (List PathInfo) → Option PathInfo
  first_info none = none
  first_info (some []) = none
  first_info (some (info ∷ infos)) = some info

  unfoldable pub get_path_info : Text → Option PathInfo
  unfolding path_infos
  get_path_info path = first_info (path_infos (path ∷ []))
