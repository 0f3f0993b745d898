-- ===== src/Resolve.antt =====
-- flexconf/template.go and flexconf/resolvers.go: the resolution of the tokens of a merged tree. A
-- resolver is a function of the path behind its scheme. The environment, the files, the vaults, the
-- process-wide resolvers and the joining of paths are parameters.
pub mod Splicing
pub mod Options
use go_flexconf.Node.{
  Node, Fields, Items, Origin, Scalar, scalar_node, map_node, seq_node, no_field, field, no_item,
  item,
}
use go_flexconf.Template.{Segment, scan_tokens, has_tokens, is_token, open_mark}
use go_flexconf.Text.{Text, text, text_eq, contains}
use go_flexconf.Dict.{Dict, lookup}
use go_flexconf.Errors.{
  Result, ok, err, wraps, ◌>>=◌, Sentinel, env_not_set, include_embedded, unknown_scheme,
  file_not_found,
}
use go_flexconf.Base.{
  Bool, List, Option, [], false, if◌then◌else◌, is_empty, none, not, some, true, ◌&&◌, ◌++◌, ◌||◌,
  ◌∷◌,
}

abbrev pub Resolver : Type 0
Resolver = Text → Result Text

-- loaderOptions, of which `fixed` is the field replaced, and what the default set reads
pub record Loader : Type 0 where
  pub scoped : Dict Resolver
  pub fixed : Bool
  pub chosen : Dict Resolver
  pub registered : Dict Resolver
  pub environment : Text → Option Text
  pub read_file : Text → Option Text
  pub resolve_secret : Resolver
  pub is_abs : Text → Bool
  pub beside : Text → Text → Text

unfoldable pub static : Loader → Bool
static l = l.fixed && is_empty l.chosen && is_empty l.scoped

abbrev run_or_unknown : Option Resolver → Text → Result Text
run_or_unknown none path = err (wraps unknown_scheme)
run_or_unknown (some r) path = r path

abbrev or_fail : Sentinel → Option Text → Result Text
or_fail s none = err (wraps s)
or_fail s (some v) = ok v

-- The default set.
abbrev dispatch_default : Loader → Text → Text → Text → Result Text
dispatch_default l scheme path file =
    if text_eq scheme (text "env")
    then or_fail env_not_set (l.environment path)
    else if text_eq scheme (text "file")
    then or_fail file_not_found
        (l.read_file (if not (l.is_abs path) then l.beside file path else path))
    else if text_eq scheme (text "secret")
    then l.resolve_secret path
    else run_or_unknown (lookup scheme l.registered) path

abbrev dispatch_set : Loader → Text → Text → Text → Result Text
dispatch_set l scheme path file =
    if l.fixed
    then run_or_unknown (lookup scheme l.chosen) path
    else dispatch_default l scheme path file

abbrev dispatch_scoped : Loader → Text → Text → Text → Option Resolver → Result Text
dispatch_scoped l scheme path file none = dispatch_set l scheme path file
dispatch_scoped l scheme path file (some r) = r path

unfoldable pub dispatch : Loader → Text → Text → Text → Result Text
unfolding lookup text_eq
dispatch l scheme path file = dispatch_scoped l scheme path file (lookup scheme l.scoped)

-- What one segment contributes.
unfoldable pub resolve_segment : Loader → Text → Segment → Result Text
unfolding text_eq dispatch
resolve_segment l file seg =
    if not (is_token seg)
    then ok seg.literal
    else if text_eq seg.scheme (text "config")
    then err (wraps include_embedded)
    else dispatch l seg.scheme seg.path file

-- The loop of resolveScalar; its results are joined at once.
unfoldable pub resolve_segments : Loader → Text → List Segment → Result Text
unfolding resolve_segment
resolve_segments l file [] = ok []
resolve_segments l file (seg ∷ segs) =
    resolve_segment l file seg >>= λ v. resolve_segments l file segs >>= λ rest. ok (v ++ rest)

-- Is one of the tokens a secret?
unfoldable pub has_secret : List Segment → Bool
unfolding text_eq
has_secret [] = false
has_secret (seg ∷ segs) = text_eq seg.scheme (text "secret") || has_secret segs

abbrev whole_token : List Segment → Bool
whole_token (seg ∷ []) = is_token seg
whole_token _ = false

abbrev first_literal : List Segment → Text
first_literal [] = []
first_literal (seg ∷ segs) = seg.literal

abbrev pub spliced : Scalar → List Segment → Text → Scalar
spliced s segs value = record {
  value = value;
  tag = if whole_token segs then [] else text "!!str";
  secret = s.secret || has_secret segs;
  substituted = true;
}

abbrev resolve_scanned : Loader → Text → Scalar → List Segment → Result Scalar
resolve_scanned l file s segs =
    let resolved = resolve_segments l file segs >>= λ value. ok (spliced s segs value) in
    if not (has_tokens segs)
    then ok (record s { value = first_literal segs })
    else if static l
    then err (wraps unknown_scheme)
    else resolved

unfoldable pub resolve_scalar : Loader → Text → Scalar → Result Scalar
unfolding contains scan_tokens has_tokens static resolve_segments has_secret
resolve_scalar l file s =
    let scanned = scan_tokens s.value >>= λ segs. resolve_scanned l file s segs in
    if not (contains s.value open_mark) then ok s else scanned

unfoldable mutual
  unfolding resolve_scalar

  -- walkResolve
  pub resolve_tree : Loader → Node → Result Node
  resolve_tree l (scalar_node o s) = resolve_scalar l o.file s >>= λ t. ok (scalar_node o t)
  resolve_tree l (map_node o fs) = resolve_fields l fs >>= λ gs. ok (map_node o gs)
  resolve_tree l (seq_node o items) = resolve_items l items >>= λ out. ok (seq_node o out)

  pub resolve_fields : Loader → Fields → Result Fields
  resolve_fields l no_field = ok no_field
  resolve_fields l (field k n fs) =
      resolve_tree l n >>= λ m. resolve_fields l fs >>= λ gs. ok (field k m gs)

  pub resolve_items : Loader → Items → Result Items
  resolve_items l no_item = ok no_item
  resolve_items l (item n items) =
      resolve_tree l n >>= λ m. resolve_items l items >>= λ out. ok (item m out)
