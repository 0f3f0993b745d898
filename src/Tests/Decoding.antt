-- ===== src/Tests/Decoding.antt =====
-- The settings decoders and the listing of a registry at concrete inputs.
use go_flexconf.Settings.{
  Slot, Struct, Setting, Reflect, string_setting, other_setting, decode_map, decode_env, field_key,
  assign_value,
}
use go_flexconf.Settings.Assigned.{decode_map-assigned, decode_map-others, field_at}
use go_flexconf.Schema.{Kind, string_kind, bool_kind, int_kind}
use go_flexconf.Coerce.{Value, FloatParser, text_value, bool_value, int_value}
use go_flexconf.Command.{Shell}
use go_flexconf.Command.Listing.{Format, vaults_cmd}
use go_flexconf.Command.Listing.Sound.{Valid, vaults_cmd-Valid}
use go_flexconf.Vaults.{Registry}
use go_flexconf.Tests.Secrets.{ops_conf}
use go_flexconf.Text.{Text, text, text_eq}
use go_flexconf.Base.{
  Bool, Option, String, [], false, if◌then◌else◌, none, refl, some, true, ℕ, ◌+◌, ◌↔◌, ◌∷◌, ◌≡◌,
}
use go_flexconf.Dict.{Dict, lookup, has_key}
use go_flexconf.Dict.Reordering.{Distinct}
use go_flexconf.Errors.{err, ok, plain}
use go_flexconf.Base.Int.{pos}

abbrev no_floats : FloatParser
no_floats bits s = none

-- Booleans, which only a field of type bool takes.
abbrev take_bool : Kind → Bool → Option Value
take_bool bool_kind b = some (bool_value b)
take_bool _ b = none

abbrev booleans : Reflect Bool
booleans = record { assigned = take_bool; converted = λ k b. none; is_string = λ b. false }

abbrev slot : String → Option Text → Kind → Value → Slot
slot name tag k v = record {
  decl = record { name = text name; tag = tag; exported = true; anonymous = false };
  kind = k;
  value = v;
}

abbrev config : Struct
config =
    slot "Path" none string_kind (text_value [])
    ∷ slot "Port" (some (text "tcp-port,x")) (int_kind 16) (int_value (pos 0))
    ∷ slot "ReadOnly" (some (text "readonly")) bool_kind (bool_value false)
    ∷ []

abbrev settings : Dict (Setting Bool)
settings =
    (text "tcp-port", string_setting (text "70")) ∷ (text "readonly", other_setting true) ∷ []

decode_runs :
    ((decode_map no_floats booleans settings (some config)).0 ≡ ok tt)
    × ((decode_map no_floats booleans settings (some config)).1
        ≡ some (
            slot "Path" none string_kind (text_value [])
            ∷ slot "Port" (some (text "tcp-port,x")) (int_kind 16) (int_value (pos 70))
            ∷ slot "ReadOnly" (some (text "readonly")) bool_kind (bool_value true)
            ∷ []))
    × ((decode_map no_floats booleans ((text "prot", other_setting true) ∷ []) (some config)).0
        ≡ err plain)
    × ((decode_env no_floats
          (λ k. if text_eq k (text "FC_PATH") then some (text "/v") else none)
          (text "FC_")
          (slot "Path" none string_kind (text_value []) ∷ [])).1
        ≡ slot "Path" none string_kind (text_value (text "/v")) ∷ [])
unfolding decode_map decode_env text_eq
decode_runs = (refl, refl, refl, refl)

abbrev decoded : Struct
decoded =
    slot "Path" none string_kind (text_value [])
    ∷ slot "Port" (some (text "tcp-port,x")) (int_kind 16) (int_value (pos 70))
    ∷ slot "ReadOnly" (some (text "readonly")) bool_kind (bool_value true)
    ∷ []

decode_settings : decode_map no_floats booleans settings (some config) ≡ (ok tt, some decoded)
unfolding decode_map
decode_settings = refl

settings-Distinct : Distinct settings
unfolding has_key
settings-Distinct = (refl, (refl, tt))

found_port : lookup (text "tcp-port") settings ≡ some (string_setting (text "70"))
unfolding lookup
found_port = refl

decode_map-assigned_example :
    (i : ℕ) × (slot : Slot) × (x : Value) × (field_at i config ≡ some slot)
    × (field_key slot.decl ≡ some (text "tcp-port"))
    × (assign_value no_floats booleans slot.kind (string_setting (text "70")) ≡ some x)
    × (field_at i decoded ≡ some (record slot { value = x }))
decode_map-assigned_example =
    decode_map-assigned no_floats booleans settings config decoded (text "tcp-port")
      (string_setting (text "70")) settings-Distinct decode_settings found_port

decode_map-others_example : field_at 0 decoded ≡ some (slot "Path" none string_kind (text_value []))
decode_map-others_example =
    decode_map-others no_floats booleans settings config decoded 0
      (slot "Path" none string_kind (text_value [])) decode_settings refl
      (unfold field_key has_key in refl)

abbrev show : Format
show = record {
  itoa = λ n. (48 + n) ∷ [];
  show_value = λ v. [];
  to_yaml = λ y. ok [];
  env_vaults = text "FLEXCONF_VAULTS";
}

abbrev ops_registry : Registry
ops_registry = record {
  default_vault = text "ops";
  default_source = text "vaults.yaml";
  vaults = (text "ops", ops_conf) ∷ [];
  files = [];
}

abbrev quiet_shell : Shell Bool ℕ
quiet_shell = record {
  input = [];
  later = [];
  broken_input = false;
  output = [];
  messages = [];
  agents = [];
  world = 0;
}

abbrev toys : Dict Bool
toys = (text "toy", false) ∷ []

vaults_listed :
    (vaults_cmd show toys [] true (ok ops_registry) quiet_shell).1.output
    ≡ text
        "registry files (in order):\n\ndefault: ops   (set by vaults.yaml)\n\nvaults:\n  ops        driver=toy     (from vaults.yaml)\n"
unfolding vaults_cmd
vaults_listed = refl

vaults_cmd-Valid_example :
    (((vaults_cmd show toys [] true (ok ops_registry) quiet_shell).0 ≡ ok tt)
      ↔ Valid toys ops_registry)
    × ((vaults_cmd show toys [] false (ok ops_registry) quiet_shell).0 ≡ ok tt)
unfolding text_eq
vaults_cmd-Valid_example = vaults_cmd-Valid show toys [] ops_registry quiet_shell refl
