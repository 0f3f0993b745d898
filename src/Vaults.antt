-- ===== src/Vaults.antt =====
-- internal/vaultreg/registry.go: the registry of vault definitions. A parsed YAML value is a tree;
-- the home directory, the paths of package filepath and the files are parameters.
pub mod References
pub mod Static
pub mod Merging
pub mod Loading
pub mod Names
pub mod Ordering
pub mod WellKnown
use go_flexconf.Text.{Text, contains, has_prefix, text, contains_char, cut, text_eq}
use go_flexconf.Dict.{Dict, lookup, insert, keys}
use go_flexconf.Base.{
  Bool, List, Option, drop, if◌then◌else◌, length, [], false, is_empty, none, not, some, true, ◌++◌,
  ◌==◌, ◌||◌, ◌∷◌,
}
use go_flexconf.Errors.{Result, err, ok, plain, ◌>>◌, ◌>>=◌}
use go_flexconf.Text.Sorting.{sort_strings}

-- A value as yaml.Unmarshal yields it; a number, a Boolean or null is `other`. A map of which some key
-- is no string comes as a `map[any]any`, `foreign_map`, with its keys as texts.
mutual
  pub data Yaml : Type 0 where
    string_value : Text → Yaml
    map_value foreign_map : YamlMap → Yaml
    seq_value : YamlSeq → Yaml
    other : Yaml

  pub data YamlMap : Type 0 where
    no_entry : YamlMap
    entry : Text → Yaml → YamlMap → YamlMap

  pub data YamlSeq : Type 0 where
    no_item : YamlSeq
    item : Yaml → YamlSeq → YamlSeq

pub record VaultConf : Type 0 where
  pub driver : Text
  pub config : Dict Yaml
  pub source : Text
  pub overrode : List Text

pub record FileStatus : Type 0 where
  pub path : Text
  pub exists : Bool
  pub from_env : Bool
  pub failed : Bool

pub record Registry : Type 0 where
  pub default_vault : Text
  pub default_source : Text
  pub vaults : Dict VaultConf
  pub files : List FileStatus

-- registryFile
pub record RegistryFile : Type 0 where
  pub default_vault : Text
  pub vaults : Dict (Dict Yaml)

-- os.UserHomeDir, filepath.Join, filepath.Dir and filepath.IsAbs
pub record Paths : Type 0 where
  pub home : Option Text
  pub join : Text → Text → Text
  pub dir : Text → Text
  pub is_abs : Text → Bool

-- What reading and parsing a registry file comes to.
pub data Contents : Type 0 where
  missing unreadable malformed : Contents
  parsed : RegistryFile → Contents

unfoldable mutual
  unfolding contains

  -- checkStatic
  pub check_static : Yaml → Result (Unit {0})
  check_static (string_value v) = if contains v (text "$(") then err plain else ok tt
  check_static (map_value m) = check_map m
  check_static (seq_value s) = check_seq s
  check_static (foreign_map m) = ok tt
  check_static other = ok tt

  pub check_map : YamlMap → Result (Unit {0})
  check_map no_entry = ok tt
  check_map (entry k v m) = check_static v >> check_map m

  pub check_seq : YamlSeq → Result (Unit {0})
  check_seq no_item = ok tt
  check_seq (item v s) = check_static v >> check_seq s

-- strings.TrimPrefix
unfoldable pub trim_prefix : Text → Text → Text
unfolding has_prefix
trim_prefix s p = if has_prefix s p then drop (length p) s else s

-- A path that starts at the home directory, when that is known.
abbrev from_home : Paths → Text → Text
from_home os raw = elim os.home [
  | none ↦ raw
  | some home ↦ os.join home (trim_prefix (trim_prefix raw (text "~")) (text "/"))
]

-- normalizePaths, when the definition has a string as its path
abbrev normalized : Paths → Text → VaultConf → Text → VaultConf
normalized os source conf raw = if is_empty raw then conf else record conf {
  config =
      insert (text "path")
        (string_value (
          if has_prefix raw (text "~/") || text_eq raw (text "~")
          then from_home os raw
          else if not (os.is_abs raw)
          then os.join (os.dir source) raw
          else raw))
        conf.config;
}

abbrev normalized_at : Paths → Text → VaultConf → Option Yaml → VaultConf
normalized_at os source conf (some (string_value raw)) = normalized os source conf raw
normalized_at os source conf _ = conf

unfoldable pub normalize_paths : Paths → Text → VaultConf → VaultConf
unfolding trim_prefix has_prefix text_eq lookup insert
normalize_paths os source conf = normalized_at os source conf (lookup (text "path") conf.config)

abbrev driver_key : Yaml → VaultConf → Result VaultConf
driver_key (string_value s) conf = ok (record conf { driver = s })
driver_key _ conf = err plain

-- One key of a definition, once its value is known to be static.
abbrev read_key : Text → Yaml → VaultConf → Result VaultConf
read_key key value conf =
    if text_eq key (text "driver")
    then driver_key value conf
    else ok (record conf { config = insert key value conf.config })

-- The inner loop of mergeFile.
unfoldable pub read_keys : Dict Yaml → VaultConf → Result VaultConf
unfolding check_static text_eq insert
read_keys [] conf = ok conf
read_keys ((key, value) ∷ raw) conf = do
  check_static value
  next ← read_key key value conf
  read_keys raw next

abbrev empty_conf : Text → VaultConf
empty_conf path = record { driver = []; config = []; source = path; overrode = [] }

abbrev with_driver : VaultConf → Result VaultConf
with_driver conf = if is_empty conf.driver then err plain else ok conf

-- A definition as a file gives it.
unfoldable pub read_conf : Paths → Text → Dict Yaml → Result VaultConf
unfolding read_keys normalize_paths
read_conf os path raw = do
  read ← read_keys raw (empty_conf path)
  conf ← with_driver read
  ok (normalize_paths os path conf)

abbrev pub overriding : Option VaultConf → VaultConf → VaultConf
overriding none conf = conf
overriding (some prev) conf = record conf { overrode = prev.overrode ++ prev.source ∷ [] }

-- The outer loop of mergeFile.
unfoldable pub merge_vaults :
    Paths → Text → Dict (Dict Yaml) → Dict VaultConf → Result (Dict VaultConf)
unfolding read_conf insert lookup
merge_vaults os path [] vaults = ok vaults
merge_vaults os path ((name, raw) ∷ defs) vaults = do
  conf ← read_conf os path raw
  merge_vaults os path defs (insert name (overriding (lookup name vaults) conf) vaults)

abbrev pub with_default : RegistryFile → Text → Registry → Registry
with_default rf path reg =
    if not (is_empty rf.default_vault)
    then record reg { default_vault = rf.default_vault; default_source = path }
    else reg

unfoldable pub merge_file : Paths → Text → RegistryFile → Registry → Result Registry
unfolding merge_vaults
merge_file os path rf reg = do
  vaults ← merge_vaults os path rf.vaults reg.vaults
  ok (record (with_default rf path reg) { vaults = vaults })

-- fileList, with the path list split
unfoldable pub non_empty : List Text → List Text
non_empty [] = []
non_empty (p ∷ paths) = if not (is_empty p) then p ∷ non_empty paths else non_empty paths

unfoldable pub file_list : Option (List Text) → Text → List Text × Bool
unfolding non_empty
file_list (some list) well_known = (non_empty list, true)
file_list none well_known = (non_empty (well_known ∷ []), false)

abbrev pub consulted : Text → Bool → Bool → Registry → Registry
consulted path exists from_env reg = record reg {
  files =
      reg.files
      ++ record { path = path; exists = exists; from_env = from_env; failed = false } ∷ [];
}

-- One round of Load; an error leaves no registry.
abbrev pub load_file : Paths → Text → Bool → Contents → Registry → Result Registry
load_file os path from_env missing reg = ok (consulted path false from_env reg)
load_file os path from_env unreadable reg = err plain
load_file os path from_env malformed reg = err plain
load_file os path from_env (parsed rf) reg =
    merge_file os path rf (consulted path true from_env reg)

unfoldable pub load_files :
    Paths → (Text → Contents) → Bool → List Text → Registry → Result Registry
unfolding merge_file
load_files os contents from_env [] reg = ok reg
load_files os contents from_env (path ∷ paths) reg = do
  next ← load_file os path from_env (contents path) reg
  load_files os contents from_env paths next

abbrev pub empty_registry : Registry
empty_registry = record { default_vault = []; default_source = []; vaults = []; files = [] }

-- Load
unfoldable pub load : Paths → (Text → Contents) → Option (List Text) → Text → Result Registry
unfolding file_list load_files
load os contents env well_known =
    let (paths, from_env) = file_list env well_known in
    load_files os contents from_env paths empty_registry

-- Names
unfoldable pub names : Registry → List Text
unfolding sort_strings
names reg = sort_strings (keys reg.vaults)

abbrev named : Text → Option VaultConf → Result (Text × VaultConf)
named name none = err plain
named name (some conf) = ok (name, conf)

unfoldable pub resolve : Text → Registry → Result (Text × VaultConf)
unfolding lookup
resolve name reg =
    if is_empty name
    then if is_empty reg.default_vault
      then err plain
      else named reg.default_vault (lookup reg.default_vault reg.vaults)
    else named name (lookup name reg.vaults)

-- Is the first character of the separators that stands in the path a colon?
unfoldable pub colon_first : Text → Bool
colon_first [] = false
colon_first (c ∷ s) = if c == b':' then true else if c == b'/' then false else colon_first s

-- ParseRef
abbrev split_ref : Option (Text × Text) → Result (Text × Text)
split_ref none = err plain
split_ref (some (vault, addr)) =
    if is_empty vault || contains_char b':' addr then err plain else ok (vault, addr)

unfoldable pub parse_ref : Text → Result (Text × Text)
unfolding colon_first cut contains_char
parse_ref s =
    if colon_first s
    then split_ref (cut b':' s)
    else if contains_char b':' s
    then err plain
    else ok ([], s)

unfoldable pub with_entries : Dict Yaml → Dict Yaml → Dict Yaml
unfolding insert
with_entries canonical [] = canonical
with_entries canonical ((k, v) ∷ config) = with_entries (insert k v canonical) config

-- Fingerprint, where the digest is of package yaml's text of a map, in eight hexadecimal digits.
unfoldable pub fingerprint : (Dict Yaml → Text) → VaultConf → Text
unfolding with_entries
fingerprint digest conf =
    digest (with_entries ((text "driver", string_value conf.driver) ∷ []) conf.config)

-- VaultID
unfoldable pub vault_id_of : (Dict Yaml → Text) → Text → VaultConf → Text
unfolding fingerprint
vault_id_of digest name conf = name ++ (text "-" ++ fingerprint digest conf)
