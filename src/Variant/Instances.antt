-- ===== src/Variant/Instances.antt =====
-- The configured instances as a whole: no two with equal selectors, and the roll back of a failed load.
use go_flexconf.Variant.{
  Instance, Registry, add_instance, clear_instances, truncate_instances, has_equal, equal_selectors,
  instance_count,
}
use go_flexconf.Base.{
  All, All-append, Bool-cases, List, Option, [], arith, false, inl, inr, none, some, suc, take,
  zero, ℕ, ◌++◌, ◌∷◌, ◌≡◌, ap, append-nil, append_assoc, length, ltb, refl, subst, sym, ◌∙◌,
  length-append, true,
}
use go_flexconf.Dict.{Dict}
use go_flexconf.Text.{Text}
use go_flexconf.Errors.{ok}
use go_flexconf.Base.Int.{ℤ, negsuc, pos}

-- No instance has the selectors of an earlier one.
abbrev pub Distinguished : {V : Type 0} → List (Instance V) → Type 0
Distinguished [] = Unit
Distinguished (i ∷ l) =
    All (λ j. equal_selectors i.selectors j.selectors ≡ false) l × Distinguished l

-- One call, whatever its outcome.
pub data Change {V : Type 0} : Registry V → Registry V → Type 0 where
  adds :
      (v : Option V) (selectors : Dict Text) (location : Text) (r : Registry V) {r' : Registry V}
      → add_instance v selectors location r ≡ ok r'
      → Change r r'
  truncates : (n : ℤ) (r : Registry V) → Change r (truncate_instances n r)
  clears : (r : Registry V) → Change r (clear_instances r)

pub data History {V : Type 0} (r : Registry V) : Registry V → Type 0 where
  here : History r r
  next : {s t : Registry V} → History r s → Change s t → History r t

-- Successful registrations, one after the other.
pub data Adds {V : Type 0} (r : Registry V) : Registry V → Type 0 where
  no_more : Adds r r
  one_more :
      {s t : Registry V} (v : Option V) (selectors : Dict Text) (location : Text)
      → Adds r s
      → add_instance v selectors location s ≡ ok t
      → Adds r t

module _ {V : Type 0} where
  All-take : (P : Instance V → Type 0) (n : ℕ) (l : List (Instance V)) → All P l → All P (take n l)
  All-take P zero l h = tt
  All-take P (suc n) [] h = tt
  All-take P (suc n) (i ∷ l) h = (h.0, All-take P n l h.1)

  Distinguished-take : (n : ℕ) (l : List (Instance V)) → Distinguished l → Distinguished (take n l)
  Distinguished-take zero l h = tt
  Distinguished-take (suc n) [] h = tt
  Distinguished-take (suc n) (i ∷ l) h = (All-take _ n l h.0, Distinguished-take n l h.1)

  has_equal-hit :
      (s : Dict Text) (i : Instance V) (l : List (Instance V))
      → has_equal s (i ∷ l) ≡ false
      → (equal_selectors i.selectors s ≡ false) × (has_equal s l ≡ false)
  unfolding has_equal
  has_equal-hit s i l h = ground (arith, h)

  Distinguished-append :
      (l : List (Instance V)) (i : Instance V)
      → has_equal i.selectors l ≡ false
      → Distinguished l
      → Distinguished (l ++ i ∷ [])
  Distinguished-append [] i h d = (tt, tt)
  Distinguished-append (j ∷ l) i h d =
      let (unlike, rest) = has_equal-hit i.selectors j l h in
      (All-append _ l (i ∷ []) d.0 (unlike, tt), Distinguished-append l i rest d.1)

  added :
      (v : V) (selectors : Dict Text) (location : Text) (r : Registry V) {r' : Registry V}
      → has_equal selectors r.instances ≡ false
      → add_instance (some v) selectors location r ≡ ok r'
      → r' ≡ record r {
        instances =
            r.instances ++ record { value = v; selectors = selectors; location = location } ∷ [];
      }
  unfolding add_instance
  added v selectors location r fresh h = ground (arith, h, fresh)

  -- What a registration that succeeds adds.
  pub add_instance-ok :
      (v : Option V) (selectors : Dict Text) (location : Text) (r : Registry V) {r' : Registry V}
      → add_instance v selectors location r ≡ ok r'
      → (i : Instance V) × (has_equal i.selectors r.instances ≡ false)
        × (r' ≡ record r { instances = r.instances ++ i ∷ [] })
  unfolding add_instance
  add_instance-ok none selectors location r h = cc
  add_instance-ok (some v) selectors location r {r'} h =
      elim (Bool-cases (has_equal selectors r.instances)) [
        | inl dup ↦ ground (arith, h, dup)
        | inr fresh ↦ (
          record { value = v; selectors = selectors; location = location },
          fresh,
          added v selectors location r fresh h,
        )
      ]

  truncate-Distinguished :
      (n : ℤ) (r : Registry V)
      → Distinguished r.instances
      → Distinguished (truncate_instances n r).instances
  unfolding truncate_instances
  truncate-Distinguished (negsuc n) r h = h
  truncate-Distinguished (pos n) r h = elim (Bool-cases (ltb n (length r.instances))) [
    | inl less ↦ rw less (Distinguished-take n r.instances h)
    | inr all ↦ rw all h
  ]

  add_instance-Distinguished :
      (v : Option V) (selectors : Dict Text) (location : Text) (r : Registry V) {r' : Registry V}
      → add_instance v selectors location r ≡ ok r'
      → Distinguished r.instances
      → Distinguished r'.instances
  add_instance-Distinguished v selectors location r e h =
      let (i, fresh, same) = add_instance-ok v selectors location r e in
      subst (λ (t : Registry V). Distinguished t.instances) (sym same)
        (Distinguished-append r.instances i fresh h)

  Change-Distinguished :
      {r s : Registry V} → Change r s → Distinguished r.instances → Distinguished s.instances
  unfolding clear_instances
  Change-Distinguished (adds v selectors location r e) h =
      add_instance-Distinguished v selectors location r e h
  Change-Distinguished (truncates n r) h = truncate-Distinguished n r h
  Change-Distinguished (clears r) h = tt

  -- Whatever calls register instances, roll back or clear a registry that had none: no instance has
  -- the selectors of an earlier one, as equalSelectors compares them.
  pub instances-Distinguished :
      {r s : Registry V} → r.instances ≡ [] → History r s → Distinguished s.instances
  instances-Distinguished {r} e here = subst Distinguished (sym e) tt
  instances-Distinguished e (next h c) = Change-Distinguished c (instances-Distinguished e h)

  -- The registrations of `Adds` only put instances at the end.
  Adds-append :
      {r s : Registry V}
      → Adds r s
      → (more : List (Instance V)) × (s ≡ record r { instances = r.instances ++ more })
  Adds-append {r} no_more =
      ([], ap (λ l. record r { instances = l }) (sym (append-nil r.instances)))
  Adds-append {r} (one_more {s} v selectors location h e) =
      let (more, grown) = Adds-append h in
      let (i, fresh, same) = add_instance-ok v selectors location s e in
      (
        more ++ i ∷ [],
        same
            ∙ ap (λ (t : Registry V). record t { instances = t.instances ++ i ∷ [] }) grown
            ∙ ap (λ l. record r { instances = l }) (append_assoc r.instances more (i ∷ [])),
      )

  take-append : (l rest : List (Instance V)) → take (length l) (l ++ rest) ≡ l
  take-append [] rest = refl
  take-append (i ∷ l) rest = ap (◌∷◌ i) (take-append l rest)

  truncate-grown :
      (r : Registry V) (more : List (Instance V))
      → truncate_instances (pos (length r.instances)) (record r { instances = r.instances ++ more })
        ≡ r
  unfolding truncate_instances
  truncate-grown r [] =
      let same : ltb (length r.instances) (length r.instances) ≡ false = ground arith in
      simp (append-nil r.instances, same) refl
  truncate-grown r (i ∷ more) =
      let less : ltb (length r.instances) (length (r.instances ++ i ∷ more)) ≡ true =
        ground (arith, length-append r.instances (i ∷ more)) in
      simp (less, take-append r.instances (i ∷ more)) refl

  -- A load that fails after any number of registrations and truncates to the count it began with
  -- leaves the registry as it found it.
  pub truncate-Adds :
      {r s : Registry V} → Adds r s → truncate_instances (pos (instance_count r)) s ≡ r
  truncate-Adds {r} h =
      let (more, grown) = Adds-append h in
      ap (truncate_instances (pos (length r.instances))) grown ∙ truncate-grown r more
