-- ===== src/Store.antt =====
-- flexconf/bind.go: the memory of a binding, which changes a Go value in place. What a pointer leads to
-- stands in a heap, and no pointer leads into a value that is being bound. The hooks, the parsers of
-- packages time and strconv and the order in which Go meets the fields of a struct are a `Host`.
use go_flexconf.Schema.{GoType, Decls, FieldInfo}
use go_flexconf.Schema.{
  duration_type, time_type, text_unmarshaler, basic, pointer, interface_type, struct_type, map_type,
  slice_type, array_type, no_decl, decl,
}
use go_flexconf.Schema.{string_kind, bool_kind, other_kind, int_kind, uint_kind, float_kind}
use go_flexconf.Coerce.{
  Value, Values, FloatParser, nil_value, text_value, bool_value, int_value, uint_value, float_value,
  time_value, pointer_value, struct_value, no_value, value_then,
}
use go_flexconf.Variant.{Registry}
use go_flexconf.Dict.{Dict}
use go_flexconf.Errors.{Error, plain}
use go_flexconf.Text.{Text}
use go_flexconf.Base.Int.{ℤ, pos}
use go_flexconf.Base.{Bool, List, Option, [], ◌∷◌, ◌++◌, false, none, some, length, ℕ, zero, suc}
use go_flexconf.Vaults.Static.{strings}

-- A variant: its dynamic type, and what its factory's pointer leads to. An instance: the pointer.
pub record Member : Type 0 where
  pub typ : GoType
  pub value : Value

-- `families` has the registry that registryFor finds for a type, by the name of the type; `touched`
-- has the counts to go back to.
pub record Store : Type 0 where
  pub heap : List Value
  pub families : Dict (Registry Member)
  pub touched : Dict ℤ

pub record Host : Type 0 where
  pub floats : FloatParser
  pub parse_duration : Text → Option ℤ
  pub parse_time : Text → Option ℕ
  pub unmarshal_text : Text → Text → Value → Value × Bool
  pub validate : GoType → Value → List Value → Option Error
  pub arrange : List FieldInfo → List FieldInfo
  pub sprint : Value → Text
  pub itoa : ℕ → Text

-- The value and the store that a binding leaves, and its error.
pub record Outcome : Type 0 where
  pub value : Value
  pub store : Store
  pub failure : Option Error

abbrev pub bound : Value → Store → Outcome
bound v s = record { value = v; store = s; failure = none }

abbrev pub failed : Value → Store → Error → Outcome
failed v s e = record { value = v; store = s; failure = some e }

-- Go on from a binding that did not fail.
infixl 5 ◌and_then◌
abbrev pub ◌and_then◌ : Outcome → (Value → Store → Outcome) → Outcome
o and_then next = elim (o.failure) [ none ↦ next o.value o.store | some e ↦ o ]

abbrev pub Binding : Type 0
Binding = GoType → Value → Text → Store → Outcome

unfoldable mutual
  -- reflect.Zero; the zero of a type whose values are opaque is `nil_value`.
  pub zero_value : GoType → Value
  zero_value duration_type = int_value (pos 0)
  zero_value time_type = time_value 0
  zero_value (text_unmarshaler name) = nil_value
  zero_value (basic name string_kind) = text_value []
  zero_value (basic name bool_kind) = bool_value false
  zero_value (basic name (int_kind bits)) = int_value (pos 0)
  zero_value (basic name (uint_kind bits)) = uint_value 0
  zero_value (basic name (float_kind bits)) = float_value 0
  zero_value (basic name other_kind) = nil_value
  zero_value (pointer t) = nil_value
  zero_value (interface_type family) = nil_value
  zero_value (struct_type name ds) = struct_value (zero_fields ds)
  zero_value (map_type strings t) = nil_value
  zero_value (slice_type t) = nil_value
  zero_value (array_type t) = nil_value

  pub zero_fields : Decls → Values
  zero_fields no_decl = no_value
  zero_fields (decl f t ds) = value_then (zero_value t) (zero_fields ds)

unfoldable pub read_heap : ℕ → List Value → Value
read_heap l [] = nil_value
read_heap zero (v ∷ heap) = v
read_heap (suc l) (v ∷ heap) = read_heap l heap

unfoldable pub write_heap : ℕ → Value → List Value → List Value
write_heap l w [] = []
write_heap zero w (v ∷ heap) = w ∷ heap
write_heap (suc l) w (v ∷ heap) = v ∷ write_heap l w heap

-- reflect.New of a value: the heap gets a place.
abbrev pub alloc : Value → Store → Store
alloc v s = record s { heap = s.heap ++ v ∷ [] }

-- Change what place `l` has.
abbrev pub at_place : ℕ → Store → (Value → Store → Outcome) → Outcome
at_place l s act =
    let o = act (read_heap l s.heap) s in
    record {
      value = pointer_value l;
      store = record (o.store) { heap = write_heap l o.value o.store.heap };
      failure = o.failure;
    }

abbrev pub place_of : Value → Option ℕ
place_of (pointer_value l) = some l
place_of v = none

-- Change what a pointer to a `t` leads to; a nil pointer is first set to a new `t`.
unfoldable pub through : GoType → Value → Store → (Value → Store → Outcome) → Outcome
unfolding zero_value read_heap write_heap
through t v s act = elim (place_of v) [
  | some l ↦ at_place l s act
  | none ↦ at_place (length s.heap) (alloc (zero_value t) s) act
]

-- Change the field at a position of a struct.
unfoldable pub at_member : ℕ → Decls → Values → Store → Binding → Text → Outcome
at_member i no_decl vs s act path = failed (struct_value vs) s plain
at_member i (decl f t ds) no_value s act path = failed (struct_value no_value) s plain
at_member zero (decl f t ds) (value_then v vs) s act path =
    let o = act t v path s in record o { value = struct_value (value_then o.value vs) }
at_member (suc i) (decl f t ds) (value_then v vs) s act path =
    let o = at_member i ds vs s act path in
    record o {
      value = elim (o.value) [ struct_value ws ↦ struct_value (value_then v ws) | other ↦ other ];
    }

abbrev pub struct_parts : GoType → Value → Option (Decls × Values)
struct_parts (struct_type name ds) (struct_value vs) = some (ds, vs)
struct_parts t v = none

abbrev pub pointee : GoType → Option GoType
pointee (pointer t) = some t
pointee t = none

abbrev pub at_struct : ℕ → GoType → Value → Store → Binding → Text → Outcome
at_struct i t v s act path = elim (struct_parts t v) [
  | none ↦ failed v s plain
  | some (ds, vs) ↦ at_member i ds vs s act path
]

-- fieldByIndexAlloc, and what is done with the field
unfoldable pub at_index : List ℕ → Binding → Binding
unfolding through at_member
at_index [] act t v path s = act t v path s
at_index (i ∷ index) act t v path s = elim (pointee t) [
  | none ↦ at_struct i t v s (at_index index act) path
  | some e ↦ through e v s (λ w r. at_struct i e w r (at_index index act) path)
]
