-- ===== src/Tests/Loading.antt =====
-- A configuration with a variant and an integer, loaded from one layer and from two files.
use go_flexconf.Load.{Setup, load, settle}
use go_flexconf.Include.{Files, bytes, missing, Contents, escapes, expand, expand_includes}
use go_flexconf.Tag.{FieldDecl}
use go_flexconf.Schema.{
  GoType, Decls, decl, no_decl, basic, struct_type, pointer, interface_type, int_kind, uint_kind,
}
use go_flexconf.Coerce.{
  Value, struct_value, value_then, no_value, nil_value, int_value, pointer_value, uint_value,
}
use go_flexconf.Store.{Host, Store, Outcome, Member, failed}
use go_flexconf.Node.{
  YamlText, mapping_node, pair, no_pair, yaml_scalar, yaml_root, Node, at_line, field, scalar_node,
  map_node, no_field,
}
use go_flexconf.Resolve.{Loader}
use go_flexconf.Base.Int.{pos}
use go_flexconf.Base.{
  both_taken, Option, String, [], drop, false, if◌then◌else◌, length, none, refl, some, suc, true,
  ◌++◌, ◌∷◌, ◌≡◌, Bool-cases, false≢true, inl, inr, subst, sym,
}
use go_flexconf.Text.{Text, has_prefix, text, text_eq}
use go_flexconf.Errors.{ok, wraps, type_mismatch, panics, err, include_cycle, include_escape}
use go_flexconf.Dict.{lookup}
use go_flexconf.Fuel.{Fueled, done}
use go_flexconf.Include.Containment.{expand-inside, reading}
use go_flexconf.Load.AllOrNothing.{load-failed}
use go_flexconf.Load.Total.{load-total, FilesFinite}
use go_flexconf.Include.Ending.{FiniteContents}
use go_flexconf.Node.Finite.{NoLoop}
use go_flexconf.Text.Laws.{text_eq_iff}

abbrev under : Text → Text → Option Text
under base t =
    if has_prefix t (base ++ text "/") then some (drop (suc (length base)) t) else some (text "..")

abbrev other_yaml : YamlText
other_yaml =
    yaml_root
      (mapping_node 1 (pair (text "size") (yaml_scalar 1 false (text "9") (text "!!int")) no_pair))

abbrev cycle_yaml : YamlText
cycle_yaml = yaml_root (yaml_scalar 1 false (text "$(config:loop.yaml)") (text "!!str"))

abbrev files : Files
files = record {
  join = λ a b. a ++ (text "/" ++ b);
  dir = λ p. text "etc";
  is_abs = λ p. has_prefix p (text "/");
  rel = under;
  read = λ p.
      if text_eq p (text "etc/more.yaml")
      then bytes other_yaml
      else if text_eq p (text "etc/loop.yaml")
      then bytes cycle_yaml
      else missing;
}

abbrev pub host : Host
host = record {
  floats = λ bits s. none;
  parse_duration = λ s. none;
  parse_time = λ s. none;
  unmarshal_text = λ name s v. (v, false);
  validate = λ t v heap. none;
  arrange = λ infos. infos;
  sprint = λ v. [];
  itoa = λ n. [];
}

abbrev options : Loader
options = record {
  scoped = [];
  fixed = false;
  chosen = [];
  registered = [];
  environment = λ k. none;
  read_file = λ p. none;
  resolve_secret = λ p. ok [];
  is_abs = λ p. false;
  beside = λ f p. p;
}

abbrev app_yaml : String → YamlText
app_yaml port = yaml_root (
    mapping_node 1 (
      pair (text "storage")
        (mapping_node 1
          (pair (text "type") (yaml_scalar 1 false (text "disk") (text "!!str")) no_pair))
        (pair (text "port") (yaml_scalar 2 false (text port) (text "!!int")) no_pair)))

abbrev setup : String → Setup
setup port = record {
  dirs = text "etc" ∷ text "home" ∷ [];
  disk = λ p. if text_eq p (text "etc/app.yaml") then bytes (app_yaml port) else missing;
  files = files;
  options = options;
  host = host;
}

abbrev plain_field : String → FieldDecl
plain_field name = record { name = text name; tag = none; exported = true; anonymous = false }

abbrev needed_field : String → FieldDecl
needed_field name = record (plain_field name) { tag = some (text ",required") }

abbrev disk_decls : Decls
disk_decls = decl (plain_field "Size") (basic [] (int_kind 32)) no_decl

abbrev pub app_decls : Decls
app_decls =
    decl (plain_field "Storage")
      (interface_type (record { name = text "Storage"; empty = false; unmarshals = false }))
      (decl (needed_field "Port") (basic [] (uint_kind 16)) no_decl)

abbrev app_type : GoType
app_type = struct_type (text "App") app_decls

abbrev disk_member : Member
disk_member = record {
  typ = pointer (struct_type (text "Disk") disk_decls);
  value = struct_value (value_then (int_value (pos 8)) no_value);
}

abbrev pub store : Store
store = record {
  heap = [];
  families =
      (
        text "Storage",
        record {
          discriminator = text "type";
          variants = (text "disk", disk_member) ∷ [];
          instances = [];
        },
      )
      ∷ [];
  touched = [];
}

abbrev pub empty_app : Value
empty_app = struct_value (value_then nil_value (value_then (int_value (pos 0)) no_value))

abbrev outcome_or : Option Outcome → Outcome
outcome_or none = record { value = nil_value; store = store; failure = none }
outcome_or (some o) = o

abbrev bad_load : Outcome
unfolding load
bad_load = outcome_or (load (setup "65536") (text "app.yaml") app_type empty_app store)

bad_load_ends : load (setup "65536") (text "app.yaml") app_type empty_app store ≡ some bad_load
unfolding load
bad_load_ends = refl

bad_load_fails : bad_load.failure ≡ some (wraps type_mismatch)
unfolding load
bad_load_fails = refl

abbrev good_load : Outcome
unfolding load
good_load = outcome_or (load (setup "8080") (text "app.yaml") app_type empty_app store)

good_load_binds :
    good_load.value
    ≡ struct_value (value_then (pointer_value 0) (value_then (uint_value 8080) no_value))
unfolding load
good_load_binds = refl

good_load_heap : good_load.store.heap ≡ struct_value (value_then (int_value (pos 8)) no_value) ∷ []
unfolding load
good_load_heap = refl

load-failed_example :
    (bad_load.value ≡ empty_app)
    × ((f : Text) → lookup f bad_load.store.families ≡ lookup f store.families)
load-failed_example =
    load-failed (setup "65536") (text "app.yaml") app_type empty_app store bad_load
      (wraps type_mismatch) bad_load_ends bad_load_fails refl

files-Finite : (p : Text) → FiniteContents (files.read p)
files-Finite p =
    both_taken FiniteContents (text_eq p (text "etc/more.yaml")) _ _ (unfold NoLoop in (tt, tt))
      (both_taken FiniteContents (text_eq p (text "etc/loop.yaml")) _ _ (unfold NoLoop in tt) tt)

setup-Finite : FilesFinite (setup "80")
setup-Finite = (
  λ p.
      both_taken FiniteContents (text_eq p (text "etc/app.yaml")) _ _
        (unfold NoLoop in ((tt, tt), (tt, tt))) tt,
  files-Finite,
)

load-total_example :
    (o : Outcome) × (load (setup "80") (text "app.yaml") app_type empty_app store ≡ some o)
load-total_example = load-total (setup "80") (text "app.yaml") app_type empty_app store setup-Finite

abbrev including : String → Node
including target =
    scalar_node (at_line (text "etc/app.yaml") 1)
      (record { value = text target; tag = []; secret = false; substituted = false })

abbrev expanded : String → Fueled Node
unfolding expand
expanded target = expand_includes files (text "etc") (text "etc/app.yaml") (including target)

include_escapes : expanded "$(config:/root/more.yaml)" ≡ some (err (wraps include_escape))
unfolding expand
include_escapes = refl

include_cycles : expanded "$(config:loop.yaml)" ≡ some (err (wraps include_cycle))
unfolding expand
include_cycles = refl

include_splices :
    expanded "$(config:more.yaml)"
    ≡ done (
        map_node (at_line (text "etc/more.yaml") 1) (
          field
            (text "size")
            (scalar_node (at_line (text "etc/more.yaml") 1) (record {
              value = text "9";
              tag = text "!!int";
              secret = false;
              substituted = false;
            }))
            no_field))
unfolding expand
include_splices = refl

-- A file outside the layer's directory has other contents.
abbrev planted : Text → Contents
planted p = if text_eq p (text "..") then bytes cycle_yaml else files.read p

not_planted : (t : Text) → escapes files (text "etc") t ≡ false → files.read t ≡ planted t
unfolding escapes
not_planted t h = elim (Bool-cases (text_eq t (text ".."))) [
  | inr other ↦ rw other refl
  | inl same ↦
      let e : t ≡ text ".." = (text_eq_iff t (text "..")).0 same in
      let never : true ≡ false = subst (λ u. escapes files (text "etc") u ≡ false) e h in
      absurd (false≢true (sym never))
]

expand-inside_example :
    expand 3 files (text "etc") (text "etc/app.yaml" ∷ []) (including "$(config:more.yaml)")
    ≡ expand 3
        (reading files planted)
        (text "etc")
        (text "etc/app.yaml" ∷ [])
        (including "$(config:more.yaml)")
expand-inside_example =
    expand-inside 3 files planted (text "etc") (text "etc/app.yaml" ∷ [])
      (including "$(config:more.yaml)") not_planted

-- A panic is not rolled back.
abbrev registered : Store
registered = record store { touched = (text "db", pos 0) ∷ [] }

panic_kept :
    settle empty_app (failed empty_app registered panics) ≡ failed empty_app registered panics
unfolding settle
panic_kept = refl
