-- ===== src/Variant.antt =====
-- internal/variant/variant.go: a family's registered variants and configured instances. `V` is the
-- family; a value that is not a member of it, a nil factory and a panic are `none`.
pub mod Instances
pub mod Resolving
pub mod Families
use go_flexconf.Base.{
  Bool, List, Option, none, some, ◌∷◌, [], false, if◌then◌else◌, is_empty, length, ltb, not, take,
  true, ℕ, ◌++◌, ◌==◌,
}
use go_flexconf.Base.Int.{ℤ, pos, negsuc}
use go_flexconf.Text.{Text, text, text_eq}
use go_flexconf.Dict.{Dict, lookup, has_key, insert, keys}
use go_flexconf.Errors.{
  Result, ok, err, wraps, plain, duplicate_variant, variant_not_found, variant_ambiguous,
}
use go_flexconf.Text.Sorting.{sort_strings}

pub record Selector : Type 0 where
  pub key : Text
  pub value : Text

pub record Instance (V : Type 0) : Type 0 where
  pub value : V
  pub selectors : Dict Text
  pub location : Text

pub record Registry (V : Type 0) : Type 0 where
  pub discriminator : Text
  pub variants : Dict V
  pub instances : List (Instance V)

abbrev pub new_registry : {V : Type 0} → Option Text → Registry V
new_registry none = record { discriminator = text "type"; variants = []; instances = [] }
new_registry (some key) = record { discriminator = key; variants = []; instances = [] }

-- have[key], which is empty for an absent key
unfoldable pub value_at : Dict Text → Text → Text
unfolding lookup
value_at have key = elim (lookup key have) [ none ↦ [] | some v ↦ v ]

-- matchesAll
unfoldable pub matches_all : Dict Text → List Selector → Bool
unfolding value_at text_eq
matches_all have [] = true
matches_all have (s ∷ want) =
    if not (text_eq (value_at have s.key) s.value) then false else matches_all have want

-- The loop of equalSelectors.
unfoldable pub agrees_with : Dict Text → Dict Text → Bool
unfolding value_at text_eq
agrees_with b [] = true
agrees_with b ((k, v) ∷ a) = if not (text_eq (value_at b k) v) then false else agrees_with b a

-- equalSelectors
unfoldable pub equal_selectors : Dict Text → Dict Text → Bool
unfolding agrees_with
equal_selectors a b = if not (length a == length b) then false else agrees_with b a

module _ {V : Type 0} where
  unfoldable pub register_variant : Text → Option V → Registry V → Option (Registry V)
  unfolding has_key insert
  register_variant name none r = none
  register_variant name (some factory) r =
      if is_empty name
      then none
      else if has_key name r.variants
      then none
      else some (record r { variants = insert name factory r.variants })

  -- Variants
  unfoldable pub variant_names : Registry V → List Text
  unfolding sort_strings
  variant_names r = sort_strings (keys r.variants)

  -- New
  unfoldable pub new : Text → Registry V → Result V
  unfolding lookup
  new name r = elim (lookup name r.variants) [ none ↦ err plain | some v ↦ ok v ]

  -- Does an instance with equal selectors exist?
  unfoldable pub has_equal : Dict Text → List (Instance V) → Bool
  unfolding equal_selectors
  has_equal selectors [] = false
  has_equal selectors (i ∷ instances) =
      if equal_selectors i.selectors selectors then true else has_equal selectors instances

  unfoldable pub add_instance : Option V → Dict Text → Text → Registry V → Result (Registry V)
  unfolding has_equal
  add_instance none selectors location r = err plain
  add_instance (some v) selectors location r =
      if has_equal selectors r.instances
      then err (wraps duplicate_variant)
      else ok (record r {
        instances =
            r.instances ++ record { value = v; selectors = selectors; location = location } ∷ [];
      })

  unfoldable pub clear_instances : Registry V → Registry V
  clear_instances r = record r { instances = [] }

  abbrev pub instance_count : Registry V → ℕ
  instance_count r = length r.instances

  unfoldable pub truncate_instances : ℤ → Registry V → Registry V
  truncate_instances (negsuc n) r = r
  truncate_instances (pos n) r =
      if ltb n (length r.instances) then record r { instances = take n r.instances } else r

  unfoldable pub matching : List Selector → List (Instance V) → List (Instance V)
  unfolding matches_all
  matching sel [] = []
  matching sel (i ∷ instances) =
      if matches_all i.selectors sel then i ∷ matching sel instances else matching sel instances

  -- The switch of Resolve on the matches.
  abbrev pub only : List (Instance V) → Result V
  only [] = err (wraps variant_not_found)
  only (i ∷ []) = ok i.value
  only (i ∷ j ∷ rest) = err (wraps variant_ambiguous)

  unfoldable pub resolve : List Selector → Registry V → Result V
  unfolding matching
  resolve sel r = only (matching sel r.instances)
