-- ===== src/Schema.antt =====
-- flexconf/schema.go: the schema that a destination's Go type gives, and the check of the shape of one
-- layer. `GoType` is what package reflect tells of a type: the name of a type stands for its methods,
-- and a type that contains itself is not among them. Field names are ASCII.
pub mod Keys
pub mod Merged
use go_flexconf.Tag.{FieldDecl, TagOptions, parse_tag}
use go_flexconf.Node.{
  Node, Fields, Items, scalar_node, map_node, seq_node, no_field, field, no_item, item, is_some,
  Fields,
}
use go_flexconf.Text.{Text, text, text_eq}
use go_flexconf.Dict.{Dict, lookup}
use go_flexconf.Errors.{Result, ok, err, wraps, plain, invalid_tag, ◌>>=◌, ◌>>◌}
use go_flexconf.Base.{
  Bool, List, Option, [], ◌∷◌, ◌++◌, false, true, if◌then◌else◌, none, some, not, ◌&&◌, ◌||◌, map,
  ℕ, ◌+◌, ◌-◌, leb, ◌==◌, suc,
}

-- The kinds of scalars; a number is a width in bits.
pub data Kind : Type 0 where
  string_kind bool_kind other_kind : Kind
  int_kind uint_kind float_kind : ℕ → Kind

-- An interface type: has it no method, and has it `UnmarshalText`?
pub record Family : Type 0 where
  pub name : Text
  pub empty : Bool
  pub unmarshals : Bool

mutual
  -- `text_unmarshaler` has `UnmarshalText` on its pointer; `map_type` says if its keys are strings.
  pub data GoType : Type 0 where
    duration_type time_type : GoType
    text_unmarshaler : Text → GoType
    basic : Text → Kind → GoType
    pointer : GoType → GoType
    interface_type : Family → GoType
    struct_type : Text → Decls → GoType
    map_type : Bool → GoType → GoType
    slice_type array_type : GoType → GoType

  pub data Decls : Type 0 where
    no_decl : Decls
    decl : FieldDecl → GoType → Decls → Decls

-- fieldInfo
pub record FieldInfo : Type 0 where
  pub key : Text
  pub index : List ℕ
  pub required : Bool
  pub selector : Bool
  pub typ : GoType

unfoldable pub find_info : Text → List FieldInfo → Option FieldInfo
unfolding text_eq
find_info k [] = none
find_info k (info ∷ infos) = if text_eq info.key k then some info else find_info k infos

abbrev is_struct : GoType → Bool
is_struct (struct_type name ds) = true
is_struct _ = false

abbrev pub add_info :
    FieldDecl → GoType → List ℕ → TagOptions → List FieldInfo → Result (List FieldInfo)
add_info f t index opts out =
    if is_some (find_info opts.name out)
    then err (wraps invalid_tag)
    else ok (
        out
        ++ record {
          key = opts.name;
          index = index;
          required = opts.required;
          selector = opts.selector;
          typ = t;
        }
          ∷ [])

-- A field by its tag; `inner` is the recursive call for a field that is inlined.
abbrev pub collect_tagged :
    FieldDecl
    → GoType
    → List ℕ
    → Result (List FieldInfo)
    → List FieldInfo
    → TagOptions
    → Result (List FieldInfo)
collect_tagged f t index inner out opts =
    if opts.skip
    then ok out
    else if opts.inline || (f.anonymous && not (is_some f.tag))
    then inner
    else add_info f t index opts out

abbrev pub skipped : FieldDecl → GoType → Bool
skipped f t = not f.exported && (not f.anonymous || not (is_struct t))

-- One round of the loop of collectFields.
unfoldable pub collect_field :
    FieldDecl → GoType → List ℕ → Result (List FieldInfo) → List FieldInfo → Result (List FieldInfo)
unfolding parse_tag find_info
collect_field f t index inner out =
    let collected = parse_tag f >>= λ opts. collect_tagged f t index inner out opts in
    if skipped f t then ok out else collected

unfoldable mutual
  unfolding collect_field

  pub collect_fields : Decls → ℕ → List ℕ → List FieldInfo → Result (List FieldInfo)
  collect_fields no_decl i prefix out = ok out
  collect_fields (decl f t ds) i prefix out =
      collect_field f t (prefix ++ i ∷ []) (collect_inlined t (prefix ++ i ∷ []) out) out
      >>= λ more. collect_fields ds (suc i) prefix more

  -- The fields of a struct or of a pointer to one.
  pub collect_inlined : GoType → List ℕ → List FieldInfo → Result (List FieldInfo)
  collect_inlined (struct_type name ds) index out = collect_fields ds 0 index out
  collect_inlined (pointer (struct_type name ds)) index out = collect_fields ds 0 index out
  collect_inlined _ index out = err (wraps invalid_tag)

-- structFields
abbrev pub struct_fields : Decls → Result (List FieldInfo)
struct_fields ds = collect_fields ds 0 [] []

-- What the switch of validateShape asks of a node: the type of a child, where it is checked, is found
-- by its key, or is that of the elements.
pub data Shape : Type 0 where
  scalar_shape any_shape : Shape
  map_shape : Result (Text → Option GoType) → Shape
  seq_shape : GoType → Shape

abbrev typ_of : Option FieldInfo → Option GoType
typ_of none = none
typ_of (some info) = some info.typ

unfoldable pub shape_of : GoType → Shape
unfolding collect_fields find_info
shape_of duration_type = scalar_shape
shape_of time_type = scalar_shape
shape_of (text_unmarshaler name) = scalar_shape
shape_of (basic name k) = scalar_shape
shape_of (pointer t) = shape_of t
shape_of (interface_type family) = if family.unmarshals then scalar_shape else any_shape
shape_of (struct_type name ds) =
    map_shape (struct_fields ds >>= λ infos. ok (λ key. typ_of (find_info key infos)))
shape_of (map_type strings t) = map_shape (ok (λ key. some t))
shape_of (slice_type t) = seq_shape t
shape_of (array_type t) = seq_shape t

-- checkKind of each kind of node, and the check of its children.
abbrev pub check_scalar_kind : Shape → Result (Unit {0})
check_scalar_kind scalar_shape = ok tt
check_scalar_kind any_shape = ok tt
check_scalar_kind (map_shape types) = err plain
check_scalar_kind (seq_shape t) = err plain

abbrev pub check_map_kind : Shape → ((Text → Option GoType) → Result (Unit {0})) → Result (Unit {0})
check_map_kind scalar_shape children = err plain
check_map_kind any_shape children = ok tt
check_map_kind (map_shape types) children = types >>= λ type_at. children type_at
check_map_kind (seq_shape t) children = err plain

abbrev pub check_seq_kind : Shape → (GoType → Result (Unit {0})) → Result (Unit {0})
check_seq_kind scalar_shape children = err plain
check_seq_kind any_shape children = ok tt
check_seq_kind (map_shape types) children = err plain
check_seq_kind (seq_shape t) children = children t

unfoldable mutual
  unfolding shape_of

  pub validate_shape : Node → GoType → Result (Unit {0})
  validate_shape (scalar_node o s) t = check_scalar_kind (shape_of t)
  validate_shape (map_node o fs) t =
      check_map_kind (shape_of t) (λ type_at. validate_keys fs type_at)
  validate_shape (seq_node o items) t =
      check_seq_kind (shape_of t) (λ elem. validate_items items elem)

  -- The loop over the keys.
  pub validate_keys : Fields → (Text → Option GoType) → Result (Unit {0})
  validate_keys no_field type_at = ok tt
  validate_keys (field k n fs) type_at =
      elim (type_at k) [ none ↦ ok tt | some t ↦ validate_shape n t ] >> validate_keys fs type_at

  pub validate_items : Items → GoType → Result (Unit {0})
  validate_items no_item t = ok tt
  validate_items (item n items) t = validate_shape n t >> validate_items items t

-- joinPath
unfoldable pub join_path : Text → Text → Text
unfolding text_eq
join_path path key = if text_eq path [] then key else path ++ b'.' ∷ key

-- displayPath
unfoldable pub display_path : Text → Text
unfolding text_eq
display_path path = if text_eq path [] then text "(root)" else path
