-- ===== src/Tests/Variants.antt =====
-- A family of numbers with two configured instances.
use go_flexconf.Variant
use go_flexconf.Variant.{
  Instance, Registry, Selector, new_registry, add_instance, truncate_instances, instance_count,
  resolve, equal_selectors,
}
use go_flexconf.Variant.Resolving.{TheOne, resolve_iff}
use go_flexconf.Variant.Instances.{here, next, adds, Distinguished, instances-Distinguished}
use go_flexconf.Dict.{Dict}
use go_flexconf.Base.{String, [], none, refl, some, true, ℕ, ◌↔◌, ◌∷◌, ◌≡◌}
use go_flexconf.Text.{Text, text}
use go_flexconf.Errors.{err, ok, wraps, variant_ambiguous, variant_not_found, duplicate_variant}
use go_flexconf.Driver.Registered.{register}

abbrev empty : Registry ℕ
empty = new_registry none

abbrev labelled : String → String → Dict Text
labelled kind name = (text "type", text kind) ∷ (text "name", text name) ∷ []

abbrev first : Registry ℕ
first = record empty {
  instances = record { value = 1; selectors = labelled "s3" "a"; location = text "stores[0]" } ∷ [];
}

abbrev both : Registry ℕ
both = record empty {
  instances =
      record { value = 1; selectors = labelled "s3" "a"; location = text "stores[0]" }
      ∷ record { value = 2; selectors = labelled "s3" "b"; location = text "stores[1]" }
      ∷ [];
}

abbrev by : String → String → Selector
by key value = record { key = text key; value = text value }

resolve_runs :
    (resolve (by "name" "b" ∷ []) both ≡ ok 2)
    × (resolve (by "type" "s3" ∷ []) both ≡ err (wraps variant_ambiguous))
    × (resolve (by "type" "gcs" ∷ []) both ≡ err (wraps variant_not_found))
    × (add_instance (some 3) (labelled "s3" "b") [] both ≡ err (wraps duplicate_variant))
unfolding resolve add_instance
resolve_runs = (refl, refl, refl, refl)

-- A selector with an empty value counts as the same as one with another key.
empty_value_equal : Variant.equal_selectors ((text "x", []) ∷ []) ((text "y", text "z") ∷ []) ≡ true
unfolding Variant.equal_selectors
empty_value_equal = refl

add_first : add_instance (some 1) (labelled "s3" "a") (text "stores[0]") empty ≡ ok first
unfolding add_instance
add_first = refl

add_second : add_instance (some 2) (labelled "s3" "b") (text "stores[1]") first ≡ ok both
unfolding add_instance
add_second = refl

resolve_iff_example :
    (resolve (by "name" "b" ∷ []) both ≡ ok 2) ↔ TheOne (by "name" "b" ∷ []) both.instances 2
resolve_iff_example = resolve_iff (by "name" "b" ∷ []) both 2

instances-Distinguished_example : Distinguished both.instances
instances-Distinguished_example = instances-Distinguished refl (
    next (next here (adds (some 1) (labelled "s3" "a") (text "stores[0]") empty add_first))
      (adds (some 2) (labelled "s3" "b") (text "stores[1]") first add_second))

abbrev drivers : Dict ℕ
drivers = (text "keepass", 7) ∷ []

register_keepass : register (text "keepass") (some 7) [] ≡ some drivers
unfolding register
register_keepass = refl
