-- ===== src/Ci/Outputs.antt =====
-- internal/ci/discover.go: the outputs of a flake as installables, and the entries of a build list
-- that stand for several of them. The evaluation by nix is no part of it.
pub mod Escape
pub mod Expand
use aeroflare.Base.{
  ℕ, ◌+◌, Bool, false, not, ◌&&◌, ◌||◌, Option, none, some, List, [], ◌∷◌, ◌++◌, map, if◌then◌else◌,
  ◌==◌, length, contains, Text, codes, trim_space, has_prefix, split, join, Dict, lookup, sort,
  text_eq, nat_eq,
}

-- `flakeOutputs`.
pub record FlakeOutputs : Type 0 where
  pub system : Text
  pub packages : List Text
  pub dev_shells : List Text
  pub nixos_configurations : List Text

abbrev pub discover_sentinel : Text
discover_sentinel = codes "all"

abbrev pub discover_ref : Text
discover_ref = codes "."

abbrev pub toplevel_attr : Text
toplevel_attr = codes ".config.system.build.toplevel"

-- `hasSentinel`.
unfoldable pub has_sentinel : List Text → Text → Bool
has_sentinel [] sentinel = false
has_sentinel (b ∷ bs) sentinel = (trim_space b == sentinel) || has_sentinel bs sentinel

abbrev pub starts_brace : Text → Bool
starts_brace [] = false
starts_brace (c ∷ s) = c == b'{'

-- A backslash, a quote, and the beginning of an interpolation.
abbrev pub is_replaced : ℕ → Text → Bool
is_replaced c s = c == b'\\' || c == b'"' || (c == b'$' && starts_brace s)

-- `escapeNixString`: the replacer puts a backslash in front of them.
unfoldable pub escape_nix_string : Text → Text
escape_nix_string [] = []
escape_nix_string (c ∷ s) =
    if is_replaced c s then b'\\' ∷ c ∷ escape_nix_string s else c ∷ escape_nix_string s

abbrev pub needs_quotes : ℕ → Bool
needs_quotes c = c == b'.' || c == b'"' || c == b'\\'

-- `strings.ContainsAny(name, `."\`)`.
unfoldable pub has_special : Text → Bool
has_special [] = false
has_special (c ∷ s) = needs_quotes c || has_special s

unfoldable pub escape_quotes : Text → Text
escape_quotes [] = []
escape_quotes (c ∷ s) =
    if c == b'\\' || c == b'"' then b'\\' ∷ c ∷ escape_quotes s else c ∷ escape_quotes s

-- `quoteAttrName`.
unfoldable pub quote_attr_name : Text → Text
unfolding has_special escape_quotes
quote_attr_name name =
    if not (has_special name) then name else b'"' ∷ escape_quotes name ++ b'"' ∷ []

abbrev system_attr : Text → Text → Text → Text → Text
system_attr ref class system name = ref ++ class ++ system ++ codes "." ++ quote_attr_name name

abbrev nixos_attr : Text → Text → Text
nixos_attr ref name = ref ++ codes "#nixosConfigurations." ++ quote_attr_name name ++ toplevel_attr

-- `Installables`.
unfoldable pub installables : FlakeOutputs → Text → List Text
unfolding quote_attr_name sort
installables o ref =
    map (system_attr ref (codes "#packages.") o.system) (sort o.packages)
    ++ map (system_attr ref (codes "#devShells.") o.system) (sort o.dev_shells)
    ++ map (nixos_attr ref) (sort o.nixos_configurations)

-- `Total`.
abbrev pub total : FlakeOutputs → ℕ
total o = length o.packages + length o.dev_shells + length o.nixos_configurations

-- The entries that are new, and the set `seen` behind them.
unfoldable pub add_entries : List Text → List Text → List Text → List Text × List Text
add_entries [] seen out = (seen, out)
add_entries (e ∷ es) seen out =
    if contains seen e then add_entries es seen out else add_entries es (e ∷ seen) (out ++ e ∷ [])

-- What an entry of the build list stands for.
abbrev pub entries_of : Dict Text (List Text) → Text → List Text
entries_of expansions b = elim (lookup (trim_space b) expansions) [
  | none ↦ b ∷ []
  | some found ↦ found
]

unfoldable pub expand_from :
    List Text → Dict Text (List Text) → List Text × List Text → List Text × List Text
unfolding add_entries
expand_from [] expansions s = s
expand_from (b ∷ bs) expansions (seen, out) =
    expand_from bs expansions (add_entries (entries_of expansions b) seen out)

-- `expandBuilds`.
unfoldable pub expand_builds : List Text → Dict Text (List Text) → List Text
unfolding expand_from
expand_builds builds expansions = (expand_from builds expansions ([], [])).1

-- The lines from the first that starts with "error:".
unfoldable pub error_lines : List Text → Option (List Text)
error_lines [] = none
error_lines (l ∷ ls) =
    let rest = error_lines ls in
    if has_prefix (trim_space l) (codes "error:") then some (l ∷ ls) else rest

-- `trimEvalNoise`.
unfoldable pub trim_eval_noise : Text → Text
unfolding error_lines
trim_eval_noise stderr = elim (error_lines (split b'\n' stderr)) [
  | none ↦ trim_space stderr
  | some ls ↦ trim_space (join (codes "\n") ls)
]
