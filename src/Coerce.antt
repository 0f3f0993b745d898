-- ===== src/Coerce.antt =====
-- flexconf/bind.go: Go values, and the conversion of a scalar's text. Floats, times
-- and durations are what packages strconv and time make of a text.
pub mod Bounds
use go_flexconf.Node.{
  Node, Fields, Items, Scalar, scalar_node, map_node, seq_node, no_field, field, no_item, item,
}
use go_flexconf.Tag.{to_lower}
use go_flexconf.Schema.{Kind, string_kind, bool_kind, other_kind, int_kind, uint_kind, float_kind}
use go_flexconf.Text.{Text, text, text_eq}
use go_flexconf.Base.Int.{ℤ, pos, negsuc}
use go_flexconf.Base.{
  Bool, List, Option, [], ◌∷◌, false, true, if◌then◌else◌, none, some, not, ◌&&◌, ◌||◌, is_empty, ℕ,
  ◌+◌, ◌-◌, ◌*◌, ◌^◌, leb, ltb, ◌==◌, zero, suc,
}

mutual
  -- A map is its keys and its values. A float is its bits, a time is what package time makes it, and
  -- a pointer is a place of the heap. `nil_value` is the nil of every type that has one.
  pub data Value : Type 0 where
    nil_value : Value
    text_value : Text → Value
    bool_value : Bool → Value
    int_value : ℤ → Value
    uint_value float_value time_value : ℕ → Value
    pointer_value : ℕ → Value
    struct_value slice_value : Values → Value
    map_value : List Text → Values → Value

  pub data Values : Type 0 where
    no_value : Values
    value_then : Value → Values → Values

-- What is outside of the sources: a float of a width from a text.
abbrev pub FloatParser : Type 0
FloatParser = ℕ → Text → Option ℕ

abbrev is_digit : ℕ → Bool
is_digit c = leb b'0' c && leb c b'9'

-- The number that a text of digits continues.
unfoldable pub parse_digits : Text → ℕ → Option ℕ
parse_digits [] n = some n
parse_digits (c ∷ s) n =
    let rest = parse_digits s (10 * n + (c - b'0')) in if is_digit c then rest else none

abbrev within : ℕ → Option ℕ → Option ℕ
within limit none = none
within limit (some n) = if ltb n limit then some n else none

-- strconv.ParseUint, of base 10
unfoldable pub parse_uint : ℕ → Text → Option ℕ
unfolding parse_digits
parse_uint bits s = if is_empty s then none else within (2 ^ bits) (parse_digits s 0)

abbrev pub negated : ℕ → ℤ
negated zero = pos zero
negated (suc n) = negsuc n

abbrev signed : ℕ → Bool → Option ℕ → Option ℤ
signed cutoff negative none = none
signed cutoff negative (some n) =
    if not negative && leb cutoff n
    then none
    else if negative && ltb cutoff n
    then none
    else some (if negative then negated n else pos n)

-- strconv.ParseInt, of base 10
unfoldable pub parse_int : ℕ → Text → Option ℤ
unfolding parse_uint
parse_int bits [] = none
parse_int bits (c ∷ s) =
    if c == b'-'
    then signed (2 ^ (bits - 1)) true (parse_uint bits s)
    else if c == b'+'
    then signed (2 ^ (bits - 1)) false (parse_uint bits s)
    else signed (2 ^ (bits - 1)) false (parse_uint bits (c ∷ s))

unfoldable among : Text → List Text → Bool
unfolding text_eq
among s [] = false
among s (t ∷ ts) = text_eq s t || among s ts

-- strconv.ParseBool
unfoldable pub parse_bool : Text → Option Bool
unfolding among
parse_bool s =
    if among s (text "1" ∷ text "t" ∷ text "T" ∷ text "true" ∷ text "TRUE" ∷ text "True" ∷ [])
    then some true
    else if among s
        (text "0" ∷ text "f" ∷ text "F" ∷ text "false" ∷ text "FALSE" ∷ text "False" ∷ [])
    then some false
    else none

abbrev pub as_value : {A : Type 0} → (A → Value) → Option A → Option Value
as_value f none = none
as_value f (some a) = some (f a)

-- coerceScalar, where an error is `none`
unfoldable pub coerce_scalar : FloatParser → Kind → Text → Option Value
unfolding parse_int parse_uint parse_bool
coerce_scalar floats string_kind s = some (text_value s)
coerce_scalar floats bool_kind s = as_value bool_value (parse_bool s)
coerce_scalar floats (int_kind bits) s = as_value int_value (parse_int bits s)
coerce_scalar floats (uint_kind bits) s = as_value uint_value (parse_uint bits s)
coerce_scalar floats (float_kind bits) s = as_value float_value (floats bits s)
coerce_scalar floats other_kind s = none

-- The first of some results, or the text itself.
abbrev first_value : Text → List (Option Value) → Value
first_value s [] = text_value s
first_value s (some v ∷ more) = v
first_value s (none ∷ more) = first_value s more

unfoldable pub scalar_by_tag : FloatParser → Text → Text → Value
unfolding text_eq parse_int parse_bool
scalar_by_tag floats value tag =
    let as_bool = as_value bool_value (parse_bool value) in
    let as_int = as_value int_value (parse_int 64 value) in
    let as_float = as_value float_value (floats 64 value) in
    if text_eq tag (text "!!str")
    then text_value value
    else if text_eq tag (text "!!null")
    then nil_value
    else if text_eq tag (text "!!bool")
    then first_value value (as_bool ∷ [])
    else if text_eq tag (text "!!int")
    then first_value value (as_int ∷ [])
    else if text_eq tag (text "!!float")
    then first_value value (as_float ∷ [])
    else if text_eq value []
    then text_value []
    else if text_eq (to_lower value) (text "null") || text_eq value (text "~")
    then nil_value
    else first_value value (as_int ∷ as_float ∷ as_bool ∷ [])

unfoldable pub field_names : Fields → List Text
field_names no_field = []
field_names (field k n fs) = k ∷ field_names fs

unfoldable mutual
  unfolding scalar_by_tag field_names

  pub generic : FloatParser → Node → Value
  generic floats (scalar_node o s) = scalar_by_tag floats s.value s.tag
  generic floats (map_node o fs) = map_value (field_names fs) (generic_fields floats fs)
  generic floats (seq_node o items) = slice_value (generic_items floats items)

  pub generic_fields : FloatParser → Fields → Values
  generic_fields floats no_field = no_value
  generic_fields floats (field k n fs) = value_then (generic floats n) (generic_fields floats fs)

  pub generic_items : FloatParser → Items → Values
  generic_items floats no_item = no_value
  generic_items floats (item n items) = value_then (generic floats n) (generic_items floats items)
