-- ===== src/Tests/Definitions.antt =====
-- Vault definitions from two files.
use mathlib.Core.List.{Permᴰ}
use go_flexconf.Vaults
use go_flexconf.Vaults.WellKnown.{well_known_file}
use go_flexconf.Vaults.Ordering.{SameContents, both_parsed, SameOutcome, load-Perm}
use go_flexconf.Dict.Reordering.{Distinct}
use go_flexconf.Vaults.{
  Yaml, string_value, seq_value, map_value, foreign_map, item, no_item, entry, no_entry, VaultConf,
  Registry, RegistryFile, Paths, Contents, missing, parsed, check_static, load, merge_file,
  parse_ref, normalize_paths, read_conf, empty_registry, names,
}
use go_flexconf.Vaults.Static.{Tokenless, check_static_iff, strings}
use go_flexconf.Vaults.Loading.{Setting, load-IsDefinition}
use go_flexconf.Text.{Text, text, has_prefix, text_eq}
use go_flexconf.Dict.{Dict, lookup, has_key}
use go_flexconf.Base.{
  All, List, String, [], false, if◌then◌else◌, is_empty, none, refl, some, true, ◌++◌, ◌↔◌, ◌∷◌,
  ◌≡◌,
}
use go_flexconf.Errors.{err, ok, plain}

abbrev os : Paths
os = record {
  home = some (text "/home/u");
  join = λ a b. a ++ text "/" ++ b;
  dir = λ p. text "/etc";
  is_abs = λ p. has_prefix p (text "/");
}

abbrev keepass_at : String → Dict Yaml
keepass_at p =
    (text "driver", string_value (text "keepass")) ∷ (text "path", string_value (text p)) ∷ []

abbrev base_file : RegistryFile
base_file = record {
  default_vault = text "ops";
  vaults = (text "ops", keepass_at "ops.kdbx") ∷ (text "dev", keepass_at "~/dev.kdbx") ∷ [];
}

abbrev local_file : RegistryFile
local_file = record { default_vault = []; vaults = (text "ops", keepass_at "/srv/ops.kdbx") ∷ [] }

abbrev contents : Text → Contents
contents p =
    if text_eq p (text "a")
    then parsed base_file
    else if text_eq p (text "b")
    then parsed local_file
    else missing

abbrev conf_at : String → String → List Text → VaultConf
conf_at source p overrode = record {
  driver = text "keepass";
  config = (text "path", string_value (text p)) ∷ [];
  source = text source;
  overrode = overrode;
}

abbrev loaded : Registry
loaded = record {
  default_vault = text "ops";
  default_source = text "a";
  vaults =
      (text "ops", conf_at "b" "/srv/ops.kdbx" (text "a" ∷ []))
      ∷ (text "dev", conf_at "a" "/home/u/dev.kdbx" [])
      ∷ [];
  files =
      record { path = text "a"; exists = true; from_env = true; failed = false }
      ∷ record { path = text "x"; exists = false; from_env = true; failed = false }
      ∷ record { path = text "b"; exists = true; from_env = true; failed = false }
      ∷ [];
}

load_two : load os contents (some (text "a" ∷ [] ∷ text "x" ∷ text "b" ∷ [])) [] ≡ ok loaded
unfolding load
load_two = refl

load_refuses :
    (read_conf os (text "a") ((text "path", string_value (text "p")) ∷ []) ≡ err plain)
    × (read_conf os (text "a") (
          (text "driver", string_value (text "keepass"))
          ∷ (text "path", string_value (text "$(env:X)"))
          ∷ [])
        ≡ err plain)
unfolding read_conf
load_refuses = (refl, refl)

resolve_runs :
    (Vaults.resolve [] loaded ≡ ok (text "ops", conf_at "b" "/srv/ops.kdbx" (text "a" ∷ [])))
    × (Vaults.resolve (text "nope") loaded ≡ err plain)
    × (Vaults.resolve [] empty_registry ≡ err plain)
unfolding Vaults.resolve
resolve_runs = (refl, refl, refl)

parse_ref_runs :
    (parse_ref (text "ops:db/pw") ≡ ok (text "ops", text "db/pw"))
    × (parse_ref (text "db/pw") ≡ ok ([], text "db/pw"))
    × (parse_ref (text "db/p:w") ≡ err plain)
    × (parse_ref (text ":db/pw") ≡ err plain)
    × (parse_ref (text "a:b:c/d") ≡ err plain)
unfolding parse_ref
parse_ref_runs = (refl, refl, refl, refl, refl)

abbrev nested : Yaml
nested =
    map_value
      (entry (text "hosts") (seq_value (item (string_value (text "$(env:H)")) no_item)) no_entry)

check_static_iff_example : (check_static nested ≡ ok tt) ↔ All Tokenless (strings nested)
check_static_iff_example = check_static_iff nested

load-IsDefinition_example :
    (is_empty (text "keepass") ≡ false)
    × All Setting ((text "path", string_value (text "/srv/ops.kdbx")) ∷ [])
unfolding lookup
load-IsDefinition_example =
    load-IsDefinition os contents (some (text "a" ∷ [] ∷ text "x" ∷ text "b" ∷ [])) [] (text "ops")
      {conf = conf_at "b" "/srv/ops.kdbx" (text "a" ∷ [])} load_two refl

abbrev first_loaded : Registry
first_loaded = record empty_registry {
  vaults =
      (text "ops", conf_at "a" "/etc/ops.kdbx" [])
      ∷ (text "dev", conf_at "a" "/home/u/dev.kdbx" [])
      ∷ [];
}

abbrev then_local : Registry
then_local = record empty_registry {
  vaults =
      (text "ops", conf_at "b" "/srv/ops.kdbx" (text "a" ∷ []))
      ∷ (text "dev", conf_at "a" "/home/u/dev.kdbx" [])
      ∷ [];
}

merge_local : merge_file os (text "b") local_file first_loaded ≡ ok then_local
unfolding merge_file
merge_local = refl

names_run : names loaded ≡ text "dev" ∷ text "ops" ∷ []
unfolding names
names_run = refl

abbrev swapped : RegistryFile
swapped = record base_file {
  vaults = (text "dev", keepass_at "~/dev.kdbx") ∷ (text "ops", keepass_at "ops.kdbx") ∷ [];
}

base-Distinct : Distinct base_file.vaults
unfolding has_key
base-Distinct = (refl, (refl, tt))

base_iterated : SameContents (parsed base_file) (parsed swapped)
base_iterated = both_parsed refl base-Distinct (Permᴰ.swap refl refl)

load-Perm_example :
    SameOutcome
      (load os (λ p. parsed base_file) (some (text "a" ∷ [])) [])
      (load os (λ p. parsed swapped) (some (text "a" ∷ [])) [])
load-Perm_example =
    load-Perm os (λ p. parsed base_file) (λ p. parsed swapped) (λ p. base_iterated)
      (some (text "a" ∷ [])) []

well_known_paths :
    (well_known_file os (λ k. []) ≡ text "/home/u/.config/flexconf/vaults.yaml")
    × (well_known_file os (λ k. text "/xdg") ≡ text "/xdg/flexconf/vaults.yaml")
    × (well_known_file (record os { home = none }) (λ k. []) ≡ [])
    × (load
          (record os { home = none })
          contents
          none
          (well_known_file (record os { home = none }) (λ k. []))
        ≡ ok empty_registry)
unfolding well_known_file load
well_known_paths = (refl, refl, refl, refl)

-- `{1: "$(env:X)"}` is accepted, and `{"a": "$(env:X)"}` is not.
foreign_accepted :
    let token = entry (text "1") (string_value (text "$(env:X)")) no_entry in
    (check_static (foreign_map token) ≡ ok tt) × (check_static (map_value token) ≡ err plain)
unfolding check_static
foreign_accepted = (refl, refl)
