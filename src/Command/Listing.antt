-- ===== src/Command/Listing.antt =====
-- flexcli/secret.go: the `vaults` command, which prints the registry with what is wrong with it. The
-- texts of numbers and of values are package fmt's, and the YAML text of a map is package yaml's.
pub mod Sound
use go_flexconf.Vaults
use go_flexconf.Vaults.{
  FileStatus, Registry, VaultConf, Yaml, YamlMap, entry, no_entry, map_value, string_value,
  with_entries,
}
use go_flexconf.Driver.Registered.{driver_names}
use go_flexconf.Command.Actions.{line, lines, flat}
use go_flexconf.Command.{Shell, prints}
use go_flexconf.Dict.{Dict, lookup, insert}
use go_flexconf.Text.{Text, text, text_eq}
use go_flexconf.Text.Sorting.{sort_strings, member}
use go_flexconf.Errors.{Result, ok, err, plain}
use go_flexconf.Base.{
  Bool, List, Option, [], false, if◌then◌else◌, is_empty, none, not, some, suc, zero, ℕ, ◌&&◌, ◌++◌,
  ◌||◌, ◌∷◌,
}

pub record Format : Type 0 where
  pub itoa : ℕ → Text
  pub show_value : Yaml → Text
  pub to_yaml : Yaml → Result Text
  pub env_vaults : Text

-- The kinds of notes; their texts are made of the name.
pub data Note : Type 0 where
  unread_file : Text → Note
  absent_default : Text → Note
  empty_registry : Note
  unregistered : Text → Text → Note

abbrev pub note_text : Format → Note → Text
note_text f (unread_file path) =
    text "file named in " ++ (f.env_vaults ++ (text " could not be read: " ++ path))
note_text f (absent_default name) =
    text "default " ++ (name ++ text " is not present in the merged vaults map")
note_text f empty_registry = text "registry is empty"
note_text f (unregistered name driver) =
    text "vault " ++ (name ++ (text " names unregistered driver " ++ driver))

-- What is printed, with the notes.
abbrev pub Dump : Type 0
Dump = Text × List Note

abbrev pub joined : Dump → Dump → Dump
joined (out, notes) (more, further) = (out ++ more, notes ++ further)

abbrev file_line : Format → ℕ → FileStatus → Text
file_line f i file = line (
    flat (
      text "  "
      ∷ f.itoa i
      ∷ text ". "
      ∷ file.path
      ∷ text "   "
      ∷ (if file.exists then text "[ok]" else text "[missing]")
      ∷ (if file.from_env
          then flat (text "   (" ∷ f.env_vaults ∷ text " #" ∷ f.itoa i ∷ text ")" ∷ [])
          else [])
      ∷ []))

abbrev pub file_notes : FileStatus → List Note
file_notes file = if file.from_env && not file.exists then unread_file file.path ∷ [] else []

unfoldable pub dump_files : Format → ℕ → List FileStatus → Dump
dump_files f i [] = ([], [])
dump_files f i (file ∷ files) =
    joined (file_line f i file, file_notes file) (dump_files f (suc i) files)

unfoldable pub dump_default : Registry → Dump
unfolding lookup
dump_default reg =
    if not (is_empty reg.default_vault)
    then (
      line (
          flat (
            text "default: "
            ∷ reg.default_vault
            ∷ text "   (set by "
            ∷ reg.default_source
            ∷ text ")"
            ∷ [])),
      elim (lookup reg.default_vault reg.vaults) [
        | none ↦ absent_default reg.default_vault ∷ []
        | some conf ↦ []
      ],
    )
    else (line (text "default: (none)"), [])

-- driverRegistered
unfoldable pub driver_registered : {D : Type 0} → Dict D → Text → Bool
unfolding member driver_names
driver_registered drivers name = member name (driver_names drivers)

unfoldable pub join_strings : Text → List Text → Text
join_strings sep [] = []
join_strings sep (s ∷ []) = s
join_strings sep (s ∷ t ∷ more) = s ++ (sep ++ join_strings sep (t ∷ more))

unfoldable pub settings_of : Format → Dict Yaml → List Text
settings_of f [] = []
settings_of f ((k, v) ∷ config) = (k ++ (text "=" ++ f.show_value v)) ∷ settings_of f config

-- %-10s
unfoldable pub padded : ℕ → Text → Text
padded zero s = s
padded (suc n) [] = b' ' ∷ padded n []
padded (suc n) (c ∷ s) = c ∷ padded n s

abbrev vault_line : Format → Text → VaultConf → Text
vault_line f name conf = line (
    flat (
      text "  "
      ∷ padded 10 name
      ∷ text " driver="
      ∷ conf.driver
      ∷ text "  "
      ∷ join_strings (text " ") (sort_strings (settings_of f conf.config))
      ∷ text "   (from "
      ∷ conf.source
      ∷ text ")"
      ∷ (if is_empty conf.overrode
          then []
          else flat (text "  (overrides " ∷ join_strings (text ", ") conf.overrode ∷ text ")" ∷ []))
      ∷ []))

abbrev pub vault_notes : {D : Type 0} → Dict D → Text → VaultConf → List Note
vault_notes drivers name conf =
    if driver_registered drivers conf.driver then [] else unregistered name conf.driver ∷ []

abbrev pub no_conf : VaultConf
no_conf = record { driver = []; config = []; source = []; overrode = [] }

-- reg.Vaults[name]
abbrev pub conf_of : Option VaultConf → VaultConf
conf_of none = no_conf
conf_of (some conf) = conf

unfoldable pub dump_vaults : {D : Type 0} → Format → Dict D → Dict VaultConf → List Text → Dump
unfolding lookup driver_registered settings_of join_strings padded sort_strings
dump_vaults f drivers vaults [] = ([], [])
dump_vaults f drivers vaults (name ∷ more) =
    let conf = conf_of (lookup name vaults) in
    joined (vault_line f name conf, vault_notes drivers name conf)
      (dump_vaults f drivers vaults more)

abbrev pub dump_all : {D : Type 0} → Format → Dict D → Registry → Dump
dump_all f drivers reg =
    if is_empty reg.vaults
    then (line (text "vaults: (none)"), empty_registry ∷ [])
    else joined (line (text "vaults:"), []) (dump_vaults f drivers reg.vaults (Vaults.names reg))

unfoldable pub note_lines : Format → List Note → Text
note_lines f [] = []
note_lines f (n ∷ notes) = line (text "note: " ++ note_text f n) ++ note_lines f notes

-- dumpRegistryHuman
unfoldable pub dump_registry : {D : Type 0} → Format → Dict D → Registry → Dump
unfolding dump_files dump_default dump_vaults note_lines Vaults.names
dump_registry f drivers reg =
    let (out, notes) =
      joined (joined (line (text "registry files (in order):"), []) (dump_files f 1 reg.files)) (
        joined (joined (line [], []) (dump_default reg))
          (joined (line [], []) (dump_all f drivers reg))) in
    (out ++ note_lines f notes, notes)

unfoldable pub entries_of : Dict Yaml → YamlMap
entries_of [] = no_entry
entries_of ((k, v) ∷ config) = entry k v (entries_of config)

unfoldable pub vault_entries : Dict VaultConf → YamlMap
unfolding entries_of Vaults.with_entries
vault_entries [] = no_entry
vault_entries ((name, conf) ∷ vaults) =
    entry name
      (map_value (
        entries_of
          (Vaults.with_entries ((text "driver", string_value conf.driver) ∷ []) conf.config)))
      (vault_entries vaults)

-- The document of dumpRegistryYAML
unfoldable pub registry_document : Registry → Yaml
unfolding vault_entries
registry_document reg =
    let vaults = entry (text "vaults") (map_value (vault_entries reg.vaults)) no_entry in
    map_value (
      if not (is_empty reg.default_vault)
      then entry (text "default") (string_value reg.default_vault) vaults
      else vaults)

abbrev pub printed_yaml : {D W : Type 0} → Shell D W → Result Text → Result (Unit {0}) × Shell D W
printed_yaml sh (err e) = (err e, sh)
printed_yaml sh (ok s) = (ok tt, prints s sh)

abbrev pub listed : {D W : Type 0} → Bool → Shell D W → Dump → Result (Unit {0}) × Shell D W
listed validate sh (out, notes) =
    (if validate && not (is_empty notes) then err plain else ok tt, prints out sh)

-- vaultsCmd, once the registry is loaded
unfoldable pub vaults_cmd :
    {D W : Type 0}
    → Format
    → Dict D
    → Text
    → Bool
    → Result Registry
    → Shell D W
    → Result (Unit {0}) × Shell D W
unfolding text_eq registry_document dump_registry
vaults_cmd f drivers format validate (err e) sh = (err e, sh)
vaults_cmd f drivers format validate (ok reg) sh =
    if text_eq format (text "yaml")
    then printed_yaml sh (f.to_yaml (registry_document reg))
    else listed validate sh (dump_registry f drivers reg)
