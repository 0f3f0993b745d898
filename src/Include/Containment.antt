-- ===== src/Include/Containment.antt =====
-- No include reads a file outside its layer's directory.
use go_flexconf.Fuel.{Fueled, Fueled-cases}
use go_flexconf.Include.Ending.{include_target-Allowed}
use go_flexconf.Include.{
  Contents, Files, escapes, expand, expand_scalar, check_include, expand_tree, include_target,
  included, parsed,
}
use go_flexconf.Base.{
  List, [], false, refl, suc, zero, ℕ, ◌++◌, ◌∷◌, ◌≡◌, ap, fun_ext, inl, inr, none, some, sym,
}
use go_flexconf.Node.{Node, Origin, Scalar}
use go_flexconf.Text.{Text}
use go_flexconf.Errors.{Result-cases}
use go_flexconf.Template.{Segment, scan_tokens}

-- The same file system with other contents.
abbrev pub reading : Files → (Text → Contents) → Files
reading files read = record files { read = read }

included-reading :
    (files : Files) (read : Text → Contents) (layer_dir : Text) (chain : List Text) (o : Origin)
    (segs : List Segment)
    → included files layer_dir chain o segs ≡ included (reading files read) layer_dir chain o segs
unfolding included check_include escapes
included-reading files read layer_dir chain o [] = refl
included-reading files read layer_dir chain o (seg ∷ []) = refl
included-reading files read layer_dir chain o (seg ∷ next ∷ segs) = refl

include_target-reading :
    (files : Files) (read : Text → Contents) (layer_dir : Text) (chain : List Text) (o : Origin)
    (s : Scalar)
    → include_target files layer_dir chain o s
      ≡ include_target (reading files read) layer_dir chain o s
unfolding include_target
include_target-reading files read layer_dir chain o s = elim (Result-cases (scan_tokens s.value)) [
  | inr (e, failed) ↦ rw failed refl
  | inl (segs, scanned) ↦ rw (scanned, included-reading files read layer_dir chain o segs) refl
]

expand_scalar-inside :
    (files : Files) (read : Text → Contents) (layer_dir : Text) (chain : List Text)
    (more less : List Text → Node → Fueled Node)
    → ((t : Text) → escapes files layer_dir t ≡ false → files.read t ≡ read t)
    → ((t : Text) (n : Node) → more (chain ++ t ∷ []) n ≡ less (chain ++ t ∷ []) n)
    → (o : Origin) (s : Scalar)
    → expand_scalar files layer_dir chain more o s
      ≡ expand_scalar (reading files read) layer_dir chain less o s
unfolding expand_scalar
expand_scalar-inside files read layer_dir chain more less same deeper o s =
    let same_target = include_target-reading files read layer_dir chain o s in
    elim (Result-cases (include_target files layer_dir chain o s)) [
      | inr (e, failed) ↦ rw (sym same_target, failed) refl
      | inl (none, left) ↦ rw (sym same_target, left) refl
      | inl (some t, found) ↦
          let inside = (include_target-Allowed files layer_dir chain o s found).0 in
          rw (sym same_target, found, same t inside)
            (elim (Fueled-cases (parsed t (read t))) [
              | inl endless ↦ rw endless refl
              | inr (inl (e, failed)) ↦ rw failed refl
              | inr (inr (tree, parsing)) ↦ rw parsing (deeper t tree)
            ])
    ]

-- Two file systems that differ only in what stands outside a layer's directory give the same
-- expansion of any tree of the layer, with any fuel and for any chain of open files: an include never
-- reads a path outside the directory, which is what `filepath.Rel` says it is.
pub expand-inside :
    (fuel : ℕ) (files : Files) (read : Text → Contents) (layer_dir : Text) (chain : List Text)
    (n : Node)
    → ((t : Text) → escapes files layer_dir t ≡ false → files.read t ≡ read t)
    → expand fuel files layer_dir chain n ≡ expand fuel (reading files read) layer_dir chain n
unfolding expand
expand-inside zero files read layer_dir chain n same = refl
expand-inside (suc fuel) files read layer_dir chain n same =
    ap (λ f. expand_tree f n)
      (fun_ext λ o. fun_ext λ s.
        expand_scalar-inside files read layer_dir chain
          (λ longer tree. expand fuel files layer_dir longer tree)
          (λ longer tree. expand fuel (reading files read) layer_dir longer tree) same
          (λ t tree. expand-inside fuel files read layer_dir (chain ++ t ∷ []) tree same) o s)
