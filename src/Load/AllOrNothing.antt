-- ===== src/Load/AllOrNothing.antt =====
-- A load that fails leaves the destination and the registries as they were.
use go_flexconf.Schema.{struct_type, Decls, GoType}
use go_flexconf.Node.{map_node, scalar_node, seq_node, Node, merge_trees}
use go_flexconf.Binder.Keeping.{AllKeep, bind_struct-Keeps}
use go_flexconf.Binder.Restoring.{children_keep}
use go_flexconf.Binder.Rollback.{Intact, rollback-Intact, Extends}
use go_flexconf.Variant.Instances.{no_more}
use go_flexconf.Dict.{Dict, has_key, lookup}
use go_flexconf.Errors.{Error, Result, Result-cases, err, ok, plain, is_panic}
use go_flexconf.Store.{Host, Member, Outcome, Store, failed}
use go_flexconf.Base.{
  List, Option, Option-cases, [], inl, inr, none, refl, some, ◌≡◌, ap, map, subst, sym, ◌∙◌,
  some_injective, Bool-cases, false, true,
}
use go_flexconf.Variant.{Registry}
use go_flexconf.Load.{
  Setup, bind_copy, load, load_layers, root_bindings, bind_resolved, load_fueled, load_read,
  read_layers, resolve_merged, settle, struct_of, validate_layers, validate_name,
}
use go_flexconf.Text.{Text}
use go_flexconf.Coerce.{Value}
use go_flexconf.Fuel.{Fueled}
use go_flexconf.Resolve.{resolve_tree}
use go_flexconf.Binder.{rollback}

-- What a failure leaves of the destination `v` and of the registries of `s`.
abbrev pub Untouched : Value → Store → Outcome → Type 0
Untouched v s o =
    (e : Error)
    → is_panic e ≡ false
    → o.failure ≡ some e
    → (o.value ≡ v) × ((f : Text) → lookup f o.store.families ≡ lookup f s.families)

Extends-self : (o : Option (Registry Member)) → Extends o o
Extends-self none = tt
Extends-self (some r) = no_more

fresh-Intact : (families : Dict (Registry Member)) → Intact families families []
unfolding has_key
fresh-Intact families = record {
  grown = λ f. Extends-self (lookup f families);
  untouched = λ f new. refl;
  counted = tt;
}

failed-Untouched : (v : Value) (s : Store) (e : Error) → Untouched v s (failed v s e)
failed-Untouched v s e d returned h = (refl, λ f. refl)

root-AllKeep :
    (before : Dict (Registry Member)) (host : Host) (tree : Node)
    → AllKeep before (root_bindings host tree)
root-AllKeep before host (map_node o fs) = children_keep before host fs
root-AllKeep before host (scalar_node o sc) = tt
root-AllKeep before host (seq_node o items) = tt

settled :
    (v : Value) (o : Outcome) (e : Error)
    → o.failure ≡ some e
    → is_panic e ≡ false
    → settle v o
      ≡ failed v (record (o.store) { families = rollback o.store.touched o.store.families }) e
unfolding settle
settled v o e stopped returned = simp (stopped, returned, settle) refl

settled_panic :
    (v : Value) (o : Outcome) (e : Error)
    → o.failure ≡ some e
    → is_panic e ≡ true
    → settle v o ≡ failed v o.store e
unfolding settle
settled_panic v o e stopped panic = simp (stopped, panic, settle) refl

settle-Untouched :
    (v : Value) (s : Store) (o : Outcome)
    → Intact s.families o.store.families o.store.touched
    → Untouched v s (settle v o)
unfolding settle
settle-Untouched v s o order e returned h = elim (Option-cases o.failure) [
  | inl went ↦
      let same : settle v o ≡ o = simp (went, settle) refl in
      let never : none ≡ some e = sym went ∙ (sym (ap (λ (p : Outcome). p.failure) same) ∙ h) in cc
  | inr (d, stopped) ↦ elim (Bool-cases (is_panic d)) [
    | inl panic ↦
        let same = settled_panic v o d stopped panic in
        let d_is_e : some d ≡ some e = sym (ap (λ (p : Outcome). p.failure) same) ∙ h in
        let never : true ≡ false = sym panic ∙ ap is_panic (some_injective d_is_e) ∙ returned in cc
    | inr back ↦
        let same = settled v o d stopped back in
        (
          ap (λ (p : Outcome). p.value) same,
          λ f.
              ap (λ (p : Outcome). lookup f p.store.families) same
              ∙ rollback-Intact s.families o.store.touched o.store.families order f,
        )
  ]
]

bind_copy-Untouched :
    (host : Host) (tree : Node) (name : Text) (ds : Decls) (v : Value) (s : Store)
    → Untouched v s (bind_copy host tree name ds v s)
unfolding bind_copy
bind_copy-Untouched host tree name ds v s =
    settle-Untouched v s _
      (bind_struct-Keeps s.families host (root_bindings host tree) name ds v []
        (record s { touched = [] }) (root-AllKeep s.families host tree)
        (fresh-Intact s.families)).kept

resolved-Untouched :
    (host : Host) (name : Text) (ds : Decls) (v : Value) (s : Store) (r : Result Node)
    → Untouched v s (bind_resolved host name ds v s r)
resolved-Untouched host name ds v s (err e) = failed-Untouched v s e
resolved-Untouched host name ds v s (ok tree) = bind_copy-Untouched host tree name ds v s

merged-Untouched :
    (setup : Setup) (name : Text) (ds : Decls) (v : Value) (s : Store) (o : Option Node)
    → Untouched v s (resolve_merged setup name ds v s o)
merged-Untouched setup name ds v s none = failed-Untouched v s _
merged-Untouched setup name ds v s (some tree) =
    resolved-Untouched setup.host name ds v s (resolve_tree setup.options tree)

load_layers-Untouched :
    (setup : Setup) (name : Text) (ds : Decls) (v : Value) (s : Store) (layers : List Node)
    → Untouched v s (load_layers setup name ds v s layers)
unfolding load_layers lookup
load_layers-Untouched setup name ds v s layers =
    elim (Result-cases (validate_layers layers (struct_type name ds))) [
      | inr (e, refused) ↦ rw (refused, load_layers) (failed-Untouched v s e)
      | inl (u, fits) ↦
          rw (fits, load_layers)
            (merged-Untouched setup name ds v s (merge_trees (map some layers)))
    ]

read-Untouched :
    (setup : Setup) (name : Text) (ds : Decls) (v : Value) (s : Store) (r : Result (List Node))
    → Untouched v s (load_read setup name ds v s r)
read-Untouched setup name ds v s (err e) = failed-Untouched v s e
read-Untouched setup name ds v s (ok layers) = load_layers-Untouched setup name ds v s layers

ended-Untouched :
    (setup : Setup) (name : Text) (ds : Decls) (v : Value) (s : Store) (m : Fueled (List Node))
    (o : Outcome)
    → load_fueled setup name ds v s m ≡ some o
    → Untouched v s o
ended-Untouched setup name ds v s none o h = cc
ended-Untouched setup name ds v s (some r) o h =
    subst (Untouched v s) (some_injective h) (read-Untouched setup name ds v s r)

-- When `Load` returns an error, at whatever step, and does not panic, the destination has the value it
-- was passed with, and every family has the registry, with the instances, that it had before. Of what
-- the pointers of the destination lead to, nothing is said.
pub load-failed :
    (setup : Setup) (file : Text) (t : GoType) (v : Value) (s : Store) (o : Outcome) (e : Error)
    → load setup file t v s ≡ some o
    → o.failure ≡ some e
    → is_panic e ≡ false
    → (o.value ≡ v) × ((f : Text) → lookup f o.store.families ≡ lookup f s.families)
unfolding load
load-failed setup file t v s o e h failure returned = elim (Result-cases (validate_name file)) [
  | inr (d, refused) ↦
      let same : failed v s d ≡ o = some_injective (rw (refused, load) at h) in
      subst (Untouched v s) same (failed-Untouched v s d) e returned failure
  | inl (u, named) ↦ elim (Option-cases (struct_of t)) [
    | inl other ↦
        let same : failed v s plain ≡ o = some_injective (rw (named, other, load) at h) in
        subst (Untouched v s) same (failed-Untouched v s plain) e returned failure
    | inr ((name, ds), fits) ↦
        ended-Untouched setup name ds v s (read_layers setup file setup.dirs) o
          (rw (named, fits, load) at h) e returned failure
  ]
]
