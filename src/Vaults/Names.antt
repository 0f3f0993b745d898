-- ===== src/Vaults/Names.antt =====
-- The list of the names of the defined vaults.
use go_flexconf.Vaults.{Registry, names}
use go_flexconf.Text.Sorting.{Ascending, member, sort_strings-Ascending, member-sort_strings}
use go_flexconf.Dict.{Dict, has_key, keys}
use go_flexconf.Text.{Text}
use go_flexconf.Base.{[], arith, refl, ◌∙◌, ◌∷◌, ◌≡◌}

pub member-keys : {V : Type 0} (n : Text) (m : Dict V) → member n (keys m) ≡ has_key n m
unfolding member has_key
member-keys n [] = refl
member-keys n ((k, v) ∷ m) = ground (arith, member-keys n m)

-- The names are in ascending order, and a string is among them exactly when it has a definition.
pub names_lem :
    (reg : Registry) (n : Text)
    → Ascending (names reg) × (member n (names reg) ≡ has_key n reg.vaults)
unfolding names
names_lem reg n = (
  sort_strings-Ascending (keys reg.vaults),
  member-sort_strings n (keys reg.vaults) ∙ member-keys n reg.vaults,
)
