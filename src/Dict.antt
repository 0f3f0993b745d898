-- ===== src/Dict.antt =====
-- Go maps with string keys as association lists. The order of the entries is the order in which a
-- `range` loop meets them: Go leaves it open, and so do the theorems, which hold at every list.
pub mod Laws
pub mod Reordering
use go_flexconf.Base.{Bool, true, false, List, [], ◌∷◌, Option, none, some, if◌then◌else◌, map}
use go_flexconf.Text.{Text, text_eq}

abbrev pub Dict {ℓ} : Type ℓ → Type ℓ
Dict V = List (Text × V)

module _ {ℓ} {V : Type ℓ} where
  -- v, ok := m[k]
  unfoldable pub lookup : Text → Dict V → Option V
  unfolding text_eq
  lookup k [] = none
  lookup k ((j, v) ∷ m) = if text_eq j k then some v else lookup k m

  -- m[k] = v: in place where the key is there, else a new entry at the end.
  unfoldable pub insert : Text → V → Dict V → Dict V
  unfolding text_eq
  insert k v [] = (k, v) ∷ []
  insert k v ((j, w) ∷ m) = if text_eq j k then (j, v) ∷ m else (j, w) ∷ insert k v m

  -- _, ok := m[k]
  unfoldable pub has_key : Text → Dict V → Bool
  unfolding text_eq
  has_key k [] = false
  has_key k ((j, v) ∷ m) = if text_eq j k then true else has_key k m

  abbrev pub keys : Dict V → List Text
  keys [] = []
  keys ((j, v) ∷ m) = j ∷ keys m
