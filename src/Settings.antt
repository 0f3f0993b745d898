-- ===== src/Settings.antt =====
-- flexvault/decoder.go: the decoders that bind a vault's settings to the fields of a driver's
-- configuration. A field's place is its position. `V` is the Go values that are no string, of which
-- package reflect tells whether and as what a field takes them. Field names are ASCII.
pub mod Assigned
use go_flexconf.Tag.{FieldDecl, to_lower}
use go_flexconf.Schema.{Kind, string_kind, bool_kind, int_kind, uint_kind, float_kind, other_kind}
use go_flexconf.Coerce.{
  Value, text_value, bool_value, int_value, uint_value, float_value, FloatParser, as_value,
  parse_bool, parse_int, parse_uint,
}
use go_flexconf.Dict.{Dict, lookup, insert}
use go_flexconf.Text.{Text, text, text_eq, cut}
use go_flexconf.Errors.{Result, ok, err, plain}
use go_flexconf.Base.{
  Bool, List, Option, [], false, if◌then◌else◌, is_empty, leb, map, none, not, some, suc, true,
  zero, ℕ, ◌&&◌, ◌++◌, ◌-◌, ◌∷◌,
}

pub record Slot : Type 0 where
  pub decl : FieldDecl
  pub kind : Kind
  pub value : Value

-- The fields of the struct that the target points to.
abbrev pub Struct : Type 0
Struct = List Slot

pub data Setting (V : Type 0) : Type 0 where
  string_setting : Text → Setting V
  other_setting : V → Setting V

-- AssignableTo with Set, ConvertibleTo with Convert and Set, and Kind() == String; nil is neither
-- assignable nor convertible.
pub record Reflect (V : Type 0) : Type 0 where
  pub assigned : Kind → V → Option Value
  pub converted : Kind → V → Option Value
  pub is_string : V → Bool

-- A target that is no pointer to a struct, or nil, is none.
abbrev pub Target : Type 0
Target = Option Struct

abbrev before_comma : Text → Option (Text × Text) → Text
before_comma tag none = tag
before_comma tag (some (name, rest)) = name

abbrev tag_name : Option Text → Text
tag_name none = []
tag_name (some tag) = before_comma tag (cut b',' tag)

-- fieldKey, where a field that is skipped has none
unfoldable pub field_key : FieldDecl → Option Text
unfolding cut text_eq
field_key f =
    let name = tag_name f.tag in
    if not f.exported
    then none
    else if text_eq name (text "-")
    then none
    else if is_empty name
    then some (to_lower f.name)
    else some name

abbrev place : Option Text → ℕ → Dict ℕ → Dict ℕ
place none i fields = fields
place (some key) i fields = insert key i fields

-- The first loop of decodeMap: the place of each key, from the position `i`
unfoldable pub places : ℕ → Struct → Dict ℕ → Dict ℕ
unfolding field_key insert
places i [] fields = fields
places i (slot ∷ slots) fields = places (suc i) slots (place (field_key slot.decl) i fields)

-- assignScalar, where an error is `none`
unfoldable pub assign_scalar : FloatParser → Kind → Text → Option Value
unfolding parse_bool parse_int parse_uint
assign_scalar floats string_kind s = some (text_value s)
assign_scalar floats bool_kind s = as_value bool_value (parse_bool s)
assign_scalar floats (int_kind bits) s = as_value int_value (parse_int bits s)
assign_scalar floats (uint_kind bits) s = as_value uint_value (parse_uint bits s)
assign_scalar floats (float_kind bits) s = as_value float_value (floats bits s)
assign_scalar floats other_kind s = none

abbrev is_string_kind : Kind → Bool
is_string_kind string_kind = true
is_string_kind _ = false

abbrev pub or_converted : {V : Type 0} → Reflect V → Kind → V → Option Value → Option Value
or_converted r k v (some value) = some value
or_converted r k v none =
    if not (r.is_string v) && not (is_string_kind k) then r.converted k v else none

-- assignValue, where an error is `none`
unfoldable pub assign_value :
    {V : Type 0} → FloatParser → Reflect V → Kind → Setting V → Option Value
unfolding assign_scalar
assign_value floats r k (string_setting s) = assign_scalar floats k s
assign_value floats r k (other_setting v) = or_converted r k v (r.assigned k v)

abbrev pub written : Slot → Option Value → Option Slot
written slot none = none
written slot (some value) = some (record slot { value = value })

abbrev pub set_first : Struct → Option Slot → Option Struct
set_first slots none = none
set_first slots (some slot) = some (slot ∷ slots)

abbrev pub after_first : Slot → Option Struct → Option Struct
after_first slot none = none
after_first slot (some slots) = some (slot ∷ slots)

-- An assignment to the field of a position.
unfoldable pub assign_at : (Kind → Option Value) → ℕ → Struct → Option Struct
assign_at f i [] = none
assign_at f zero (slot ∷ slots) = set_first slots (written slot (f slot.kind))
assign_at f (suc i) (slot ∷ slots) = after_first slot (assign_at f i slots)

-- What is decoded so far stays written when the rest fails.
abbrev pub Decoded : Type 0
Decoded = Result (Unit {0}) × Struct

abbrev pub with_written : Struct → (Struct → Decoded) → Option Struct → Decoded
with_written s next none = (err plain, s)
with_written s next (some t) = next t

abbrev pub assign_key : (Kind → Option Value) → Struct → (Struct → Decoded) → Option ℕ → Decoded
assign_key f s next none = (err plain, s)
assign_key f s next (some i) = with_written s next (assign_at f i s)

-- The second loop of decodeMap, in the order in which the keys are met
unfoldable pub decode_keys :
    {V : Type 0} → FloatParser → Reflect V → Dict ℕ → Dict (Setting V) → Struct → Decoded
unfolding assign_value assign_at lookup
decode_keys floats r fields [] s = (ok tt, s)
decode_keys floats r fields ((key, v) ∷ m) s =
    assign_key (λ k. assign_value floats r k v) s (decode_keys floats r fields m)
      (lookup key fields)

-- decodeMap, the function of a MapDecoder
unfoldable pub decode_map :
    {V : Type 0} → FloatParser → Reflect V → Dict (Setting V) → Target → Result (Unit {0}) × Target
unfolding places decode_keys
decode_map floats r m none = (err plain, none)
decode_map floats r m (some s) =
    let (result, out) = decode_keys floats r (places 0 s []) m s in (result, some out)

-- strings.ToUpper
abbrev upper_char : ℕ → ℕ
upper_char c = if leb b'a' c && leb c b'z' then c - 32 else c

abbrev to_upper : Text → Text
to_upper s = map upper_char s

-- The texts of the environment, by the key of a field.
abbrev pub env_value : (Text → Option Text) → Text → Option Text → Option Text
env_value environment prefix none = none
env_value environment prefix (some key) = environment (prefix ++ to_upper key)

abbrev pub first_to : Slot → Decoded → Decoded
first_to slot (result, slots) = (result, slot ∷ slots)

-- One field of an EnvDecoder; a text that does not parse ends the loop.
abbrev pub env_slot : Slot → Struct → Decoded → Option Slot → Decoded
env_slot slot slots rest none = (err plain, slot ∷ slots)
env_slot slot slots rest (some t) = first_to t rest

abbrev pub env_field : FloatParser → Slot → Struct → Decoded → Option Text → Decoded
env_field floats slot slots rest none = first_to slot rest
env_field floats slot slots rest (some s) =
    env_slot slot slots rest (written slot (assign_scalar floats slot.kind s))

-- The loop of an EnvDecoder over the fields
unfoldable pub decode_env : FloatParser → (Text → Option Text) → Text → Struct → Decoded
unfolding field_key assign_scalar
decode_env floats environment prefix [] = (ok tt, [])
decode_env floats environment prefix (slot ∷ slots) =
    env_field floats slot slots (decode_env floats environment prefix slots)
      (env_value environment prefix (field_key slot.decl))
