-- ===== src/Text.antt =====
-- Go strings as lists of code points, and the functions of package `strings` that the sources use.
-- The sources split strings at ASCII characters alone, so for valid UTF-8 the code points and the
-- bytes of a string are cut at the same places.
pub mod Laws
pub mod Trim
pub mod Sorting
use go_flexconf.Base.{
  ℕ, zero, suc, Bool, true, false, not, ◌&&◌, ◌||◌, List, [], ◌∷◌, ◌++◌, Option, none, some, ◌==◌,
  leb, if◌then◌else◌, String, Char, code,
}

abbrev pub Text : Type 0
Text = List ℕ

-- The text of a literal.
abbrev pub text : String → Text
text String.[] = []
text (String.◌∷◌ c s) = code c ∷ text s

unfoldable pub text_eq : Text → Text → Bool
text_eq [] [] = true
text_eq (x ∷ xs) (y ∷ ys) = x == y && text_eq xs ys
text_eq _ _ = false

-- strings.HasPrefix(s, p)
unfoldable pub has_prefix : Text → Text → Bool
has_prefix s [] = true
has_prefix [] (p ∷ ps) = false
has_prefix (c ∷ s) (p ∷ ps) = c == p && has_prefix s ps

-- strings.Contains(s, p)
unfoldable pub contains : Text → Text → Bool
unfolding has_prefix
contains [] p = has_prefix [] p
contains (c ∷ s) p = has_prefix (c ∷ s) p || contains s p

-- strings.Contains(s, sep), strings.IndexByte(s, sep) ≥ 0, for a separator of one character.
unfoldable pub contains_char : ℕ → Text → Bool
contains_char sep [] = false
contains_char sep (c ∷ s) = c == sep || contains_char sep s

-- The parts of a successful cut, with one more character before the separator.
abbrev pub push_before : ℕ → Option (Text × Text) → Option (Text × Text)
push_before c none = none
push_before c (some (before, after)) = some (c ∷ before, after)

-- strings.Cut(s, sep) for a separator of one character: `none` where it is not found.
unfoldable pub cut : ℕ → Text → Option (Text × Text)
cut sep [] = none
cut sep (c ∷ s) = if c == sep then some ([], s) else push_before c (cut sep s)

-- unicode.IsSpace.
unfoldable pub is_space : ℕ → Bool
is_space c =
    leb 0x9 c && leb c 0xd
    || c == 0x20
    || c == 0x85
    || c == 0xa0
    || c == 0x1680
    || leb 0x2000 c && leb c 0x200a
    || c == 0x2028
    || c == 0x2029
    || c == 0x202f
    || c == 0x205f
    || c == 0x3000

unfoldable pub trim_left : Text → Text
unfolding is_space
trim_left [] = []
trim_left (c ∷ s) = if is_space c then trim_left s else c ∷ s

-- A character that stays, unless it is a space and nothing stays behind it.
abbrev pub keep_unless_last : ℕ → Text → Text
keep_unless_last c [] = if is_space c then [] else c ∷ []
keep_unless_last c (d ∷ s) = c ∷ d ∷ s

unfoldable pub trim_right : Text → Text
unfolding is_space
trim_right [] = []
trim_right (c ∷ s) = keep_unless_last c (trim_right s)

-- strings.TrimSpace
unfoldable pub trim_space : Text → Text
unfolding trim_left trim_right
trim_space s = trim_right (trim_left s)
