-- ===== src/Ci/Outputs/Escape.antt =====
-- Escaped texts as Nix reads them.
use mathlib.Core.Option
use aeroflare.Base.{
  Bool, true, false, ◌&&◌, ◌||◌, Option, none, some, [], ◌∷◌, if◌then◌else◌, ◌==◌, Text, nat_eq,
}
use aeroflare.Ci.Outputs.{starts_brace}

-- The body of a double-quoted string as Nix reads it: a backslash takes the next character as it
-- stands, and a quote or the beginning of an interpolation is not part of a plain text. The
-- escapes for control characters are left out, since none is written.
unfoldable pub read_nix_string : Bool → Text → Option Text
read_nix_string true [] = none
read_nix_string false [] = some []
read_nix_string true (c ∷ s) = Option.map (λ t. c ∷ t) (read_nix_string false s)
read_nix_string false (c ∷ s) =
    let rest = Option.map (λ t. c ∷ t) (read_nix_string false s) in
    let escaped = read_nix_string true s in
    if c == b'\\'
    then escaped
    else if c == b'"' || (c == b'$' && starts_brace s)
    then none
    else rest
