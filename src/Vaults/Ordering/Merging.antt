-- ===== src/Vaults/Ordering/Merging.antt =====
-- internal/vaultreg/registry.go: `mergeFile` over the vaults of a file in two orders.
use mathlib.Core.List.{Permᴰ}
use go_flexconf.Vaults.{Yaml, VaultConf, Paths, merge_vaults, overriding, read_conf}
use go_flexconf.Vaults.Merging.{Replaces, merge_vaults-Replaces}
use go_flexconf.Dict.{Dict, lookup}
use go_flexconf.Dict.Reordering.{Distinct, lookup-Perm, Distinct-Perm}
use go_flexconf.Errors.{>>=-eq-ok, ok, ok_injective}
use go_flexconf.Base.{Option, [], ap, none, refl, some, sym, ◌∷◌, ◌≡◌, subst, ◌∙◌}
use go_flexconf.Text.{Text}

module _ (os : Paths) (path : Text) where
  -- Every definition of the file can be read.
  abbrev pub AllRead : Dict (Dict Yaml) → Type 0
  AllRead [] = Unit
  AllRead (def ∷ defs) = ((conf : VaultConf) × (read_conf os path def.1 ≡ ok conf)) × AllRead defs

  pub AllRead-Perm :
      {defs defs' : Dict (Dict Yaml)} → Permᴰ defs defs' → AllRead defs → AllRead defs'
  AllRead-Perm Permᴰ.nil h = h
  AllRead-Perm (Permᴰ.cons e p) (h, rest) = (
    subst (λ (d : Text × Dict Yaml). (conf : VaultConf) × (read_conf os path d.1 ≡ ok conf)) e h,
    AllRead-Perm p rest,
  )
  AllRead-Perm (Permᴰ.swap e e') (h, (h', rest)) =
      let Read : Text × Dict Yaml → Type 0 =
        λ d. (conf : VaultConf) × (read_conf os path d.1 ≡ ok conf) in
      (subst Read e' h', (subst Read e h, rest))
  AllRead-Perm (Permᴰ.trans p q) h = AllRead-Perm q (AllRead-Perm p h)

  pub merge_vaults-AllRead :
      (defs : Dict (Dict Yaml)) (vaults : Dict VaultConf) {out : Dict VaultConf}
      → merge_vaults os path defs vaults ≡ ok out
      → AllRead defs
  unfolding merge_vaults
  merge_vaults-AllRead [] vaults h = tt
  merge_vaults-AllRead ((name, raw) ∷ defs) vaults h =
      let (conf, read, rest) = >>=-eq-ok (read_conf os path raw) _ h in
      ((conf, read), merge_vaults-AllRead defs _ rest)

  pub AllRead-merge_vaults :
      (defs : Dict (Dict Yaml)) (vaults : Dict VaultConf)
      → AllRead defs
      → (out : Dict VaultConf) × (merge_vaults os path defs vaults ≡ ok out)
  unfolding merge_vaults
  AllRead-merge_vaults [] vaults h = (vaults, refl)
  AllRead-merge_vaults ((name, raw) ∷ defs) vaults ((conf, read), rest) =
      rw read (AllRead-merge_vaults defs _ rest)

  Replaces-unique :
      (raw : Option (Dict Yaml)) (old : Option VaultConf) {new new' : Option VaultConf}
      → Replaces os path raw old new
      → Replaces os path raw old new'
      → new ≡ new'
  Replaces-unique none old h h' = h ∙ sym h'
  Replaces-unique (some raw) old (conf, read, same) (conf', read', same') =
      same ∙ ap (λ c. some (overriding old c)) (ok_injective (sym read ∙ read')) ∙ sym same'

  pub merge_vaults-Perm :
      {defs defs' : Dict (Dict Yaml)} (vaults vaults' : Dict VaultConf) {out out' : Dict VaultConf}
      (n : Text)
      → Distinct defs
      → Permᴰ defs defs'
      → lookup n vaults ≡ lookup n vaults'
      → merge_vaults os path defs vaults ≡ ok out
      → merge_vaults os path defs' vaults' ≡ ok out'
      → lookup n out ≡ lookup n out'
  merge_vaults-Perm {defs} {defs'} vaults vaults' {out} {out'} n d p old h h' =
      let first = merge_vaults-Replaces os path defs vaults n d h in
      let second = merge_vaults-Replaces os path defs' vaults' n (Distinct-Perm p d) h' in
      let moved =
        subst (λ o. Replaces os path o (lookup n vaults) (lookup n out)) (lookup-Perm n p d)
          first in
      Replaces-unique (lookup n defs') (lookup n vaults')
        (subst (λ o. Replaces os path (lookup n defs') o (lookup n out)) old moved) second
