-- ===== src/Tests/CiTests.antt =====
-- The theorems of Ci at concrete builds.
use aeroflare.Base.{
  ◌≡◌, refl, ◌↔◌, ◌⊎◌, inl, true, some, List, [], ◌∷◌, if◌then◌else◌, ◌==◌, text_beq, All, In,
  Distinct, contains, Text, codes, trim_space, has_prefix, trim_prefix, cut, split, join, to_lower,
  Dict, lookup, insert, sort, Outcome, success, failure, text_eq, nat_eq,
}
use aeroflare.Push.Args.{parse_input_file}
use aeroflare.Ci.Outputs.{
  has_sentinel, installables, expand_builds, FlakeOutputs, quote_attr_name, trim_eval_noise,
}
use aeroflare.Ci.Changed.{
  changed_sentinel, parse_missing_base_policy, changed_class, first_evaluatable, resolve_changed,
  resolve_builds, FlakeDrvs, ChangedResult, missing_base_all, compared,
}
use aeroflare.Ci.Run.{run, CiWorld, build_all}
use aeroflare.Ci.Settings.{
  default_upstream, merge, resolve, CacheSpec, Inputs, RunSpec, resolve_token,
}
use aeroflare.Ci.Builds.{dedup_paths, scrape_store_paths, built_paths}
use aeroflare.Prepare.Store.{parse_path}
use aeroflare.Decimal.{pos}
use mathlib.Core.List.{filter_map}
use mathlib.Core.List.Perm
use aeroflare.Ci.Outputs.Expand.{expand_builds_lem, Asked}
use aeroflare.Ci.Changed.Selected.{
  changed_class_iff, changed_class_order, resolve_builds-changed, IsChanged,
}
use aeroflare.Ci.Changed.Ancestry.{first_evaluatable-IsFirst, IsFirst}
use aeroflare.Ci.Settings.Resolved.{resolve-IsResolved, IsResolved}
use aeroflare.Ci.Run.Whole.{run-IsShown, IsHeld, IsShown}
use aeroflare.Ci.Settings.{misplaced_input}
use aeroflare.Tests.{test_setup, test_host}

abbrev expansions : Dict Text (List Text)
expansions = (codes "all", codes ".#x" ∷ codes ".#y" ∷ []) ∷ []

expanded :
    expand_builds (codes ".#x" ∷ codes " all" ∷ []) expansions ≡ codes ".#x" ∷ codes ".#y" ∷ []
unfolding expand_builds contains lookup trim_space text_beq
expanded = refl

expand_builds_lem_example :
    Distinct (expand_builds (codes ".#x" ∷ codes " all" ∷ []) expansions)
    × ((e : Text)
        → In e (expand_builds (codes ".#x" ∷ codes " all" ∷ []) expansions)
          ↔ Asked expansions (codes ".#x" ∷ codes " all" ∷ []) e)
expand_builds_lem_example = expand_builds_lem expansions (codes ".#x" ∷ codes " all" ∷ [])

-- An output that is changed and changed back: the nearest commit tells it, its ancestor does not.
abbrev at_head : Dict Text Text
at_head = (codes "x", codes "d1") ∷ (codes "y", []) ∷ []

abbrev at_parent : Dict Text Text
at_parent = (codes "x", codes "d2") ∷ []

nearest : changed_class at_parent at_head ≡ codes "x" ∷ codes "y" ∷ []
unfolding changed_class lookup text_beq sort filter_map
nearest = refl

older : changed_class ((codes "x", codes "d1") ∷ []) at_head ≡ codes "y" ∷ []
unfolding changed_class lookup text_beq sort filter_map
older = refl

changed_class_iff_example :
    In (codes "x") (changed_class at_parent at_head) ↔ IsChanged at_parent at_head (codes "x")
changed_class_iff_example = changed_class_iff at_parent at_head (codes "x")

changed_class_order_example :
    changed_class at_parent at_head
    ≡ changed_class at_parent ((codes "y", []) ∷ (codes "x", codes "d1") ∷ [])
changed_class_order_example =
    changed_class_order at_parent at_head ((codes "y", []) ∷ (codes "x", codes "d1") ∷ [])
      (Perm.swap (codes "y", []) (codes "x", codes "d1") [])

abbrev one_changed : FlakeOutputs
one_changed = record {
  system = codes "s";
  packages = codes "x" ∷ [];
  dev_shells = [];
  nixos_configurations = [];
}

abbrev diffed : Outcome Text ChangedResult
diffed = success (compared one_changed 2 (codes "b") (codes "b"))

abbrev discovered : Outcome Text FlakeOutputs
discovered = failure []

builds_resolved :
    resolve_builds (codes "changed" ∷ []) missing_base_all discovered diffed
    ≡ success (codes ".#packages.s.x" ∷ [])
unfolding resolve_builds installables contains lookup insert trim_space text_beq
builds_resolved = refl

asks_changed : has_sentinel (codes "changed" ∷ []) changed_sentinel ≡ true
unfolding has_sentinel trim_space text_beq
asks_changed = refl

resolve_builds-changed_example :
    (is : List Text) × (resolve_changed missing_base_all diffed ≡ success is)
    × All (λ e. In e (codes ".#packages.s.x" ∷ [])) is
resolve_builds-changed_example =
    resolve_builds-changed (codes "changed" ∷ []) missing_base_all discovered diffed
      (codes ".#packages.s.x" ∷ []) asks_changed builds_resolved

-- The nearest commit is broken.
abbrev some_drvs : FlakeDrvs
some_drvs = record {
  system = codes "s";
  packages = at_parent;
  dev_shells = [];
  nixos_configurations = [];
}

abbrev eval_second : Text → Outcome Text FlakeDrvs
eval_second sha = if sha == codes "c1" then failure (codes "broken") else success some_drvs

second_found :
    first_evaluatable (codes "c1" ∷ codes "c2" ∷ []) eval_second ≡ success (some_drvs, codes "c2")
unfolding first_evaluatable text_beq
second_found = refl

first_evaluatable-IsFirst_example :
    IsFirst eval_second (codes "c1" ∷ codes "c2" ∷ []) some_drvs (codes "c2")
first_evaluatable-IsFirst_example =
    first_evaluatable-IsFirst eval_second (codes "c1" ∷ codes "c2" ∷ []) some_drvs (codes "c2")
      second_found

second_evaluates : eval_second (codes "c2") ≡ success some_drvs
unfolding text_beq
second_evaluates = refl

abbrev no_inputs : Inputs
no_inputs = record {
  builds = [];
  caches = [];
  compression = [];
  signing_key = [];
  workers = pos 0;
  upstream_caches = [];
  base_ref = [];
  on_missing_base = [];
}

abbrev test_file : Inputs
test_file = record no_inputs {
  builds = codes ".#x" ∷ [];
  caches = codes "https://ghcr.io;me/cache" ∷ [];
}

abbrev test_cache : CacheSpec
test_cache = record {
  registry = codes "ghcr.io";
  repository = codes "me/cache";
  raw = codes "ghcr.io;me/cache";
}

abbrev test_spec : RunSpec
test_spec = record {
  builds = codes ".#x" ∷ [];
  caches = test_cache ∷ [];
  compression = codes "zstd";
  signing_key = [];
  workers = pos 50;
  upstream_caches = default_upstream ∷ [];
  base_ref = [];
  on_missing_base = missing_base_all;
}

test_resolved : resolve test_file no_inputs ≡ success test_spec
unfolding resolve has_sentinel parse_missing_base_policy trim_space cut trim_prefix has_prefix
    to_lower text_beq
test_resolved = refl

resolve-IsResolved_example : IsResolved (merge test_file no_inputs) test_spec
resolve-IsResolved_example = resolve-IsResolved test_file no_inputs test_spec test_resolved

abbrev test_ci : CiWorld
test_ci = record {
  environment = λ name. codes "t";
  key_path = λ key. some [];
  proxy_starts = true;
  nix_build = λ b. some (codes "/nix/store/a-x\n");
  checker = some (λ hashes. some ((codes "a", true) ∷ []));
  setup = test_setup;
  host = λ c. test_host;
  has_pusher = λ c. true;
  push_receipts = λ c rs. true;
  schedule = λ c tasks. tasks;
}

test_run : run test_ci test_spec ≡ some true
unfolding run resolve_token scrape_store_paths contains lookup parse_path split trim_space
    has_prefix text_beq
test_run = refl

scraped :
    scrape_store_paths (codes "# note\n /nix/store/a-x \nother\n") ≡ codes "/nix/store/a-x" ∷ []
unfolding scrape_store_paths split trim_space has_prefix text_beq
scraped = refl

noise_trimmed : trim_eval_noise (codes "warning: w\n error: e\n at\n") ≡ codes "error: e\n at"
unfolding trim_eval_noise split join trim_space has_prefix
noise_trimmed = refl

input_listed : parse_input_file (codes "# note\n a \n\nb") ≡ codes "a" ∷ codes "b" ∷ []
unfolding parse_input_file split trim_space has_prefix text_beq
input_listed = refl

misplaced :
    resolve (record test_file { builds = codes " workers: 3" ∷ [] }) no_inputs
    ≡ failure misplaced_input
unfolding resolve has_sentinel trim_space has_prefix text_beq
misplaced = refl

name_quoted : quote_attr_name (codes "a.b") ≡ codes "\"a.b\""
unfolding quote_attr_name
name_quoted = refl

test_printed : built_paths (test_ci.nix_build (codes ".#x")) ≡ some (codes "/nix/store/a-x" ∷ [])
unfolding scrape_store_paths split trim_space has_prefix text_beq
test_printed = refl

run-IsShown_example :
    IsHeld test_ci.checker
      (dedup_paths (build_all test_ci.nix_build test_spec.builds).1)
      (codes "/nix/store/a-x")
    ⊎ IsShown test_ci test_cache (codes "/nix/store/a-x")
run-IsShown_example =
    run-IsShown test_ci test_spec (codes ".#x") (codes "/nix/store/a-x" ∷ [])
      (codes "/nix/store/a-x") test_cache
      (λ c tasks d. record { runs = λ t m. m; asked = λ t m. m; once = d }) test_run (inl refl)
      test_printed (inl refl) (inl refl)
