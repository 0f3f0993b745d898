-- ===== src/Tag.antt =====
-- flexconf/schema.go: the tags of the fields of a struct. Field names are ASCII.
use go_flexconf.Text.{Text, text, text_eq}
use go_flexconf.Errors.{Result, ok, err, wraps, invalid_tag}
use go_flexconf.Base.{
  Bool, List, Option, [], false, if◌then◌else◌, leb, map, none, some, true, ℕ, ◌&&◌, ◌+◌, ◌==◌, ◌∷◌,
}

-- A field of a struct, but for its type.
pub record FieldDecl : Type 0 where
  pub name : Text
  pub tag : Option Text
  pub exported : Bool
  pub anonymous : Bool

pub record TagOptions : Type 0 where
  pub name : Text
  pub skip : Bool
  pub required : Bool
  pub selector : Bool
  pub inline : Bool

abbrev lower_char : ℕ → ℕ
lower_char c = if leb b'A' c && leb c b'Z' then c + 32 else c

-- strings.ToLower
abbrev pub to_lower : Text → Text
to_lower s = map lower_char s

abbrev first_onto : ℕ → List Text → List Text
first_onto c [] = (c ∷ []) ∷ []
first_onto c (part ∷ parts) = (c ∷ part) ∷ parts

-- strings.Split, at one character
unfoldable pub split : ℕ → Text → List Text
split sep [] = [] ∷ []
split sep (c ∷ s) = let parts = split sep s in if c == sep then [] ∷ parts else first_onto c parts

-- The loop over the options of a tag.
unfoldable pub parse_options : List Text → TagOptions → Result TagOptions
unfolding text_eq
parse_options [] o = ok o
parse_options (opt ∷ opts) o =
    if text_eq opt (text "required")
    then parse_options opts (record o { required = true })
    else if text_eq opt (text "selector")
    then parse_options opts (record o { selector = true })
    else if text_eq opt (text "inline")
    then parse_options opts (record o { inline = true })
    else err (wraps invalid_tag)

abbrev no_options : Text → TagOptions
no_options name = record {
  name = name;
  skip = false;
  required = false;
  selector = false;
  inline = false;
}

abbrev parse_parts : Text → List Text → Result TagOptions
parse_parts field_name [] = ok (no_options (to_lower field_name))
parse_parts field_name (first ∷ opts) =
    let named = parse_options opts (no_options first) in
    let unnamed = parse_options opts (no_options (to_lower field_name)) in
    if text_eq first (text "-")
    then ok (record (no_options []) { skip = true })
    else if text_eq first []
    then unnamed
    else named

unfoldable pub parse_tag : FieldDecl → Result TagOptions
unfolding split parse_options text_eq
parse_tag f = elim (f.tag) [
  | none ↦ ok (no_options (to_lower f.name))
  | some tag ↦ parse_parts f.name (split b',' tag)
]
