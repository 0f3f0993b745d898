-- ===== src/Vaults/Merging.antt =====
-- What one registry file does to the definitions: whole entries are replaced.
use go_flexconf.Vaults.{
  Yaml, VaultConf, Registry, RegistryFile, Paths, merge_file, merge_vaults, overriding, read_conf,
}
use go_flexconf.Dict.{Dict, lookup, insert, has_key}
use go_flexconf.Dict.Reordering.{Distinct}
use go_flexconf.Dict.Laws.{lookup-insert}
use go_flexconf.Errors.{>>=-eq-ok, ok, ok_injective}
use go_flexconf.Base.{
  Bool-cases, Option, [], ap, arith, false, inl, inr, none, refl, some, sym, ◌∷◌, ◌≡◌, subst, ◌∙◌,
}
use go_flexconf.Text.{Text, text_eq}
use go_flexconf.Text.Laws.{text_eq_iff}

-- What the file's own definition of a name, if it has one, makes of the one that was there.
abbrev pub Replaces :
    Paths → Text → Option (Dict Yaml) → Option VaultConf → Option VaultConf → Type 0
Replaces os path none old new = new ≡ old
Replaces os path (some raw) old new =
    (conf : VaultConf) × (read_conf os path raw ≡ ok conf) × (new ≡ some (overriding old conf))

has_key-lookup : {V : Type 0} (k : Text) (m : Dict V) → has_key k m ≡ false → lookup k m ≡ none
unfolding has_key lookup
has_key-lookup k [] h = refl
has_key-lookup k ((j, v) ∷ m) h = ground (arith, has_key-lookup k m)

pub merge_vaults-Replaces :
    (os : Paths) (path : Text) (defs : Dict (Dict Yaml)) (vaults : Dict VaultConf)
    {out : Dict VaultConf} (n : Text)
    → Distinct defs
    → merge_vaults os path defs vaults ≡ ok out
    → Replaces os path (lookup n defs) (lookup n vaults) (lookup n out)
unfolding merge_vaults lookup
merge_vaults-Replaces os path [] vaults n d h = ap (lookup n) (sym (ok_injective h))
merge_vaults-Replaces os path ((name, raw) ∷ defs) vaults {out} n d h =
    let (conf, read, rest) = >>=-eq-ok (read_conf os path raw) _ h in
    let later = merge_vaults-Replaces os path defs _ n d.1 rest in
    elim (Bool-cases (text_eq name n)) [
      | inl same ↦
          let same_name : name ≡ n = (text_eq_iff name n).0 same in
          let absent : lookup n defs ≡ none =
            subst (λ (k : Text). lookup k defs ≡ none) same_name (has_key-lookup name defs d.0) in
          let kept : lookup n out
              ≡ lookup n (insert name (overriding (lookup name vaults) conf) vaults) =
            rw absent at later in
          let written : lookup n (insert name (overriding (lookup name vaults) conf) vaults)
              ≡ some (overriding (lookup name vaults) conf) =
            lookup-insert name n _ vaults ∙ (rw same) in
          rw same (
            conf,
            read,
            kept ∙ written ∙ ap (λ (k : Text). some (overriding (lookup k vaults) conf)) same_name,
          )
      | inr other ↦
          let before : lookup n (insert name (overriding (lookup name vaults) conf) vaults)
              ≡ lookup n vaults =
            lookup-insert name n _ vaults ∙ (rw other) in
          rw other (subst (λ o. Replaces os path (lookup n defs) o (lookup n out)) before later)
    ]

-- A file that is merged decides the names that it defines and no others: a name that it does not
-- define keeps its definition, and one that it does gets the file's, as a whole, with the sources of
-- those it replaced, if the names in the file are distinct.
pub merge_file-Replaces :
    (os : Paths) (path : Text) (rf : RegistryFile) (reg : Registry) {out : Registry} (n : Text)
    → Distinct rf.vaults
    → merge_file os path rf reg ≡ ok out
    → Replaces os path (lookup n rf.vaults) (lookup n reg.vaults) (lookup n out.vaults)
unfolding merge_file
merge_file-Replaces os path rf reg {out} n d h =
    let (vaults, merged, last) = >>=-eq-ok (merge_vaults os path rf.vaults reg.vaults) _ h in
    subst
      (λ (r : Registry).
        Replaces os path (lookup n rf.vaults) (lookup n reg.vaults) (lookup n r.vaults))
      (ok_injective last) (merge_vaults-Replaces os path rf.vaults reg.vaults n d merged)
