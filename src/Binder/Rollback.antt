-- ===== src/Binder/Rollback.antt =====
-- The registries while a tree is bound: registrations at their ends, which the roll back takes off.
use go_flexconf.Variant.Instances.{Adds, no_more, truncate-Adds}
use go_flexconf.Dict.Laws.{lookup-insert, has_key-insert, insert-All}
use go_flexconf.Base.{
  All, Bool-cases, Option, [], false, inl, inr, none, refl, some, true, ◌∷◌, ◌≡◌, false≢true, subst,
  sym, ◌∙◌,
}
use go_flexconf.Dict.{Dict, has_key, insert, lookup}
use go_flexconf.Store.{Member}
use go_flexconf.Variant.{Registry, instance_count, truncate_instances}
use go_flexconf.Text.{Text, text_eq}
use go_flexconf.Binder.{rollback}
use go_flexconf.Base.Int.{ℤ, pos}
use go_flexconf.Text.Laws.{text_eq_iff}

-- The registry of a family has more instances at its end.
abbrev pub Extends : Option (Registry Member) → Option (Registry Member) → Type 0
Extends none none = Unit
Extends (some r) (some s) = Adds r s
Extends none (some s) = ⊥
Extends (some r) none = ⊥

pub Extends-some :
    (o : Option (Registry Member)) {s : Registry Member}
    → Extends o (some s)
    → (r : Registry Member) × (o ≡ some r) × Adds r s
Extends-some none h = absurd h
Extends-some (some r) h = (r, refl, h)

Extends-of :
    (o : Option (Registry Member)) {r : Registry Member}
    → Extends (some r) o
    → (s : Registry Member) × (o ≡ some s) × Adds r s
Extends-of none h = absurd h
Extends-of (some s) h = (s, refl, h)

module _ (before : Dict (Registry Member)) where
  -- A count to go back to is the one at the beginning.
  abbrev pub Counted : Text × ℤ → Type 0
  Counted e = (r : Registry Member) × (lookup e.0 before ≡ some r) × (e.1 ≡ pos (instance_count r))

  -- Only the families that were touched have more instances, and each of them has its count.
  pub record Intact (families : Dict (Registry Member)) (touched : Dict ℤ) : Type 0 where
    pub grown : (f : Text) → Extends (lookup f before) (lookup f families)
    pub untouched : (f : Text) → has_key f touched ≡ false → lookup f families ≡ lookup f before
    pub counted : All Counted touched

  grown-insert :
      (family : Text) (families : Dict (Registry Member)) {r s : Registry Member}
      → ((f : Text) → Extends (lookup f before) (lookup f families))
      → lookup family before ≡ some r
      → Adds r s
      → (f : Text) → Extends (lookup f before) (lookup f (insert family s families))
  grown-insert family families {r} {s} h was adds f = elim (Bool-cases (text_eq family f)) [
    | inl same ↦
        let found : lookup f (insert family s families) ≡ some s = rw (lookup-insert, same) refl in
        let start : lookup f before ≡ some r =
          subst (λ (g : Text). lookup g before ≡ some r) ((text_eq_iff family f).0 same) was in
        rw (start, found) adds
    | inr other ↦
        let found : lookup f (insert family s families) ≡ lookup f families =
          rw (lookup-insert, other) refl in
        rw found (h f)
  ]

  apart :
      (family f : Text) (touched : Dict ℤ)
      → has_key family touched ≡ true
      → has_key f touched ≡ false
      → text_eq family f ≡ false
  apart family f touched known new = elim (Bool-cases (text_eq family f)) [
    | inr other ↦ other
    | inl same ↦
        let e : family ≡ f = (text_eq_iff family f).0 same in
        absurd (false≢true (sym new ∙ subst (λ (g : Text). has_key g touched ≡ true) e known))
  ]

  -- One more instance of a family that was touched before.
  pub touched_before :
      (family : Text) (families : Dict (Registry Member)) (touched : Dict ℤ) {r s : Registry Member}
      → Intact families touched
      → lookup family before ≡ some r
      → Adds r s
      → has_key family touched ≡ true
      → Intact (insert family s families) touched
  touched_before family families touched {r} {s} h was adds known = record {
    grown = grown-insert family families h.grown was adds;
    untouched = λ f new. rw (lookup-insert, apart family f touched known new) (h.untouched f new);
    counted = h.counted;
  }

  -- The first instance of a family.
  pub newly_touched :
      (family : Text) (families : Dict (Registry Member)) (touched : Dict ℤ) {r s : Registry Member}
      → Intact families touched
      → lookup family before ≡ some r
      → Adds r s
      → Intact (insert family s families) (insert family (pos (instance_count r)) touched)
  newly_touched family families touched {r} {s} h was adds = record {
    grown = grown-insert family families h.grown was adds;
    untouched = λ f new. elim (Bool-cases (text_eq family f)) [
      | inl same ↦
          let known : has_key f (insert family (pos (instance_count r)) touched) ≡ true =
            rw (has_key-insert, same) refl in
          absurd (false≢true (sym new ∙ known))
      | inr other ↦ rw (lookup-insert, other) (h.untouched f (rw (has_key-insert, other) at new))
    ];
    counted = insert-All Counted family _ touched (r, was, refl) h.counted;
  }

  -- Once every touched family is cut back to its count, each family has the registry of the beginning.
  pub rollback-Intact :
      (touched : Dict ℤ) (families : Dict (Registry Member))
      → Intact families touched
      → (f : Text) → lookup f (rollback touched families) ≡ lookup f before
  unfolding rollback has_key
  rollback-Intact [] families h f = h.untouched f refl
  rollback-Intact ((k, b) ∷ more) families h f =
      let (r, was, count) = h.counted.0 in
      let grown : Extends (some r) (lookup k families) = rw was at (h.grown k) in
      let (s, found, adds) = Extends-of (lookup k families) grown in
      let cut : truncate_instances b s ≡ r = rw count (truncate-Adds adds) in
      rw (found, cut)
        (rollback-Intact more (insert k r families)
          (record {
            grown = grown-insert k families h.grown was no_more;
            untouched = λ g new. elim (Bool-cases (text_eq k g)) [
              | inl same ↦
                  rw (lookup-insert, same)
                    (sym (
                      subst (λ (f : Text). lookup f before ≡ some r) ((text_eq_iff k g).0 same)
                        was))
              | inr other ↦ rw (lookup-insert, other) (h.untouched g (rw other new))
            ];
            counted = h.counted.1;
          })
          f)
