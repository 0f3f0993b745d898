-- ===== src/Schema/Keys.antt =====
-- The keys of a struct's fields, the inlined ones included.
use go_flexconf.Tag.{FieldDecl}
use go_flexconf.Tag.{TagOptions}
use go_flexconf.Tag.{parse_tag}
use go_flexconf.Schema.{
  decl, no_decl, pointer, struct_type, Decls, FieldInfo, GoType, add_info, collect_field,
  collect_fields, collect_inlined, find_info, struct_fields, collect_tagged, skipped,
}
use go_flexconf.Errors.{>>=-eq-ok, err_ne_ok, guard_passed, ok, ok_injective, Result, ◌>>=◌}
use go_flexconf.Base.{
  Bool, Bool-cases, List, Option, [], arith, false, if◌then◌else◌, inl, inr, none, not, refl, some,
  subst, suc, true, ℕ, ◌&&◌, ◌++◌, ◌||◌, ◌∷◌, ◌≡◌,
}
use go_flexconf.Text.{Text, text_eq}
use go_flexconf.Node.{is_some}
use go_flexconf.Text.Laws.{text_eq_iff}

-- No key has two fields.
abbrev pub KeysDistinct : List FieldInfo → Type 0
KeysDistinct [] = Unit
KeysDistinct (info ∷ infos) = (find_info info.key infos ≡ none) × KeysDistinct infos

-- What a step of the collection does to the fields that there are.
abbrev Grows : List FieldInfo → Result (List FieldInfo) → Type 0
Grows out r = (more : List FieldInfo) → r ≡ ok more → KeysDistinct out → KeysDistinct more

find-append :
    (k : Text) (infos : List FieldInfo) (info : FieldInfo)
    → find_info k infos ≡ none
    → text_eq info.key k ≡ false
    → find_info k (infos ++ info ∷ []) ≡ none
unfolding find_info
find-append k [] info h apart = rw apart refl
find-append k (first ∷ infos) info h apart = elim (Bool-cases (text_eq first.key k)) [
  | inl same ↦ let found : some first ≡ none = simp same at h in cc
  | inr other ↦ simp other (find-append k infos info (simp other at h) apart)
]

Distinct-append :
    (infos : List FieldInfo) (info : FieldInfo)
    → find_info info.key infos ≡ none
    → KeysDistinct infos
    → KeysDistinct (infos ++ info ∷ [])
unfolding find_info
Distinct-append [] info new d = (refl, tt)
Distinct-append (first ∷ infos) info new d = elim (Bool-cases (text_eq first.key info.key)) [
  | inl same ↦ let found : some first ≡ none = simp same at new in cc
  | inr other ↦
      let apart : text_eq info.key first.key ≡ false =
        ground (arith, text_eq_iff info.key first.key, text_eq_iff first.key info.key, other) in
      (
        find-append first.key infos info d.0 apart,
        Distinct-append infos info (simp other at new) d.1,
      )
]

not_found : (o : Option FieldInfo) → is_some o ≡ false → o ≡ none
not_found none h = refl
not_found (some info) h = cc

add_info-Grows :
    (f : FieldDecl) (t : GoType) (index : List ℕ) (opts : TagOptions) (out : List FieldInfo)
    → Grows out (add_info f t index opts out)
add_info-Grows f t index opts out more h d =
    let (new, added) = guard_passed (is_some (find_info opts.name out)) _ h in
    subst KeysDistinct (ok_injective added) (Distinct-append out _ (not_found _ new) d)

if-Grows :
    (out : List FieldInfo) (b : Bool) (r q : Result (List FieldInfo))
    → Grows out r
    → Grows out q
    → Grows out (if b then r else q)
if-Grows out true r q h k = h
if-Grows out false r q h k = k

same-Grows : (out : List FieldInfo) → Grows out (ok out)
same-Grows out more h d = subst KeysDistinct (ok_injective h) d

collect_field-Grows :
    (f : FieldDecl) (t : GoType) (index : List ℕ) (inner : Result (List FieldInfo))
    (out : List FieldInfo)
    → Grows out inner
    → Grows out (collect_field f t index inner out)
unfolding collect_field
collect_field-Grows f t index inner out deeper =
    if-Grows out (skipped f t) (ok out)
      (parse_tag f >>= λ opts. collect_tagged f t index inner out opts) (same-Grows out)
      λ more h d.
        let (opts, parsed, rest) =
          >>=-eq-ok (parse_tag f) (λ opts. collect_tagged f t index inner out opts) h in
        if-Grows out opts.skip (ok out) _ (same-Grows out)
          (if-Grows out (opts.inline || (f.anonymous && not (is_some f.tag))) inner
            (add_info f t index opts out) deeper (add_info-Grows f t index opts out))
          more rest d

mutual
  unfolding collect_fields

  fields_grow :
      (ds : Decls) (i : ℕ) (prefix : List ℕ) (out : List FieldInfo)
      → Grows out (collect_fields ds i prefix out)
  fields_grow no_decl i prefix out more h d = same-Grows out more h d
  fields_grow (decl f t ds) i prefix out more h d =
      let (next, collected, rest) =
        >>=-eq-ok
          (collect_field f t (prefix ++ i ∷ []) (collect_inlined t (prefix ++ i ∷ []) out) out) _
          h in
      fields_grow ds (suc i) prefix next more rest (
        collect_field-Grows f t (prefix ++ i ∷ []) _ out (inlined_grow t (prefix ++ i ∷ []) out)
          next collected d)

  inlined_grow :
      (t : GoType) (index : List ℕ) (out : List FieldInfo) → Grows out (collect_inlined t index out)
  inlined_grow (struct_type name ds) index out more h d = fields_grow ds 0 index out more h d
  inlined_grow (pointer (struct_type name ds)) index out more h d =
      fields_grow ds 0 index out more h d
  inlined_grow _ index out more h d = absurd (err_ne_ok h)

-- No two fields of a struct, the promoted ones of its inlined and embedded structs included, have the
-- same key: such a struct is refused.
pub struct_fields-KeysDistinct :
    (ds : Decls) (infos : List FieldInfo) → struct_fields ds ≡ ok infos → KeysDistinct infos
struct_fields-KeysDistinct ds infos h = fields_grow ds 0 [] [] infos h tt
