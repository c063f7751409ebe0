-- ===== src/Push/Args.antt =====
-- `ParseConfig` of pkg/push/push.go: the paths that a push is asked for.
use aeroflare.Base.{
  ◌||◌, Option, none, some, List, [], ◌∷◌, ◌++◌, if◌then◌else◌, ◌==◌, Text, codes, trim_space,
  has_prefix, split, ◌>>=◌, or_fail, Outcome, success, failure, text_eq,
}
use aeroflare.Narinfo.{scan_lines}

-- The lines that are not empty and no comment.
unfoldable pub useful_lines : List Text → List Text
useful_lines [] = []
useful_lines (l ∷ ls) =
    let line = trim_space l in
    let rest = useful_lines ls in
    if line == [] || has_prefix line (codes "#") then rest else line ∷ rest

-- `ParseInputFile` of pkg/prepare/prepare/prepare.go, on the content of the file.
unfoldable pub parse_input_file : Text → List Text
unfolding useful_lines
parse_input_file content = useful_lines (split b'\n' content)

pub data ArgsError : Type 0 where
  file_unread line_too_long no_paths : ArgsError

-- A positional store path, if it is not empty.
abbrev pub positional : Text → List Text
positional [] = []
positional (c ∷ path) = (c ∷ path) ∷ []

-- The input file, if there is one, and its content, if it is read.
abbrev pub from_file : Option (Option Text) → Outcome ArgsError (List Text)
from_file none = success []
from_file (some none) = failure file_unread
from_file (some (some content)) = success (parse_input_file content)

-- Standard input, if it is read.
abbrev pub from_stdin : Option Text → Outcome ArgsError (List Text)
from_stdin none = success []
from_stdin (some content) =
    or_fail line_too_long (scan_lines content) >>= λ lines. success (useful_lines lines)

abbrev pub any_paths : List Text → Outcome ArgsError (List Text)
any_paths [] = failure no_paths
any_paths (p ∷ ps) = success (p ∷ ps)

-- `ParseConfig`.
unfoldable pub parse_config :
    List Text → Text → Option (Option Text) → Option Text → Outcome ArgsError (List Text)
unfolding parse_input_file useful_lines scan_lines
parse_config args store_path file stdin = from_file file >>= λ listed.
    from_stdin stdin >>= λ piped. any_paths (positional store_path ++ listed ++ piped ++ args)
