-- ===== src/Text.antt =====
-- What the sources use of Go's packages strings and unicode/utf8. A text is a sequence of code
-- points; the sources get theirs from JSON and YAML, which are valid UTF-8.
pub mod Utf8
pub mod SplitLaws
pub mod Escape
pub mod Unescape
pub mod EscapeLaws
pub mod Segments
use Prim.Native.Char.{code}
use home_server_deployer.Prelude.{
  ℕ, String, Bool, true, false, Option, none, some, List, [], ◌∷◌, ◌&&◌, ◌||◌, leb, ◌==◌, str_eq,
  if◌then◌else◌,
}

-- What follows a prefix.
unfoldable pub strip_prefix : String → String → Option String
strip_prefix String.[] s = some s
strip_prefix (String.◌∷◌ c p) String.[] = none
strip_prefix (String.◌∷◌ c p) (String.◌∷◌ d s) =
    let rest = strip_prefix p s in if code c == code d then rest else none

-- strings.HasPrefix(s, p)
unfoldable pub has_prefix : String → String → Bool
unfolding strip_prefix
has_prefix s p = elim (strip_prefix p s) [ none ↦ false | some _ ↦ true ]

-- strings.TrimPrefix(s, p)
unfoldable pub trim_prefix : String → String → String
unfolding strip_prefix
trim_prefix s p = elim (strip_prefix p s) [ none ↦ s | some rest ↦ rest ]

-- strings.HasSuffix(s, t)
unfoldable pub has_suffix : String → String → Bool
has_suffix String.[] t = str_eq "" t
has_suffix (String.◌∷◌ c s) t =
    let rest = has_suffix s t in if str_eq (String.◌∷◌ c s) t then true else rest

-- strings.HasSuffix for one of several endings
unfoldable pub has_suffix_of : List String → String → Bool
unfolding has_suffix
has_suffix_of [] s = false
has_suffix_of (t ∷ ts) s = let rest = has_suffix_of ts s in if has_suffix s t then true else rest

unfoldable pub elem : ℕ → List ℕ → Bool
elem c [] = false
elem c (d ∷ ds) = let rest = elem c ds in if c == d then true else rest

-- strings.ContainsAny(s, chars)
unfoldable pub contains_any : String → List ℕ → Bool
unfolding elem
contains_any String.[] cs = false
contains_any (String.◌∷◌ c s) cs =
    let rest = contains_any s cs in if elem (code c) cs then true else rest

-- strings.Contains(s, t)
unfoldable pub contains_text : String → String → Bool
unfolding has_prefix
contains_text String.[] t = has_prefix "" t
contains_text (String.◌∷◌ c s) t =
    let rest = contains_text s t in if has_prefix (String.◌∷◌ c s) t then true else rest

-- The first part of a split, one character longer.
abbrev pub onto_first : Prim.Native.Char.Char → List String → List String
onto_first c [] = String.◌∷◌ c "" ∷ []
onto_first c (p ∷ ps) = String.◌∷◌ c p ∷ ps

-- strings.Split(s, sep) at a separator of one character
unfoldable pub split : ℕ → String → List String
split sep String.[] = "" ∷ []
split sep (String.◌∷◌ c s) =
    let parts = split sep s in if code c == sep then "" ∷ parts else onto_first c parts

-- unicode.IsSpace
unfoldable pub is_space : ℕ → Bool
is_space c =
    (leb 9 c && leb c 13)
    || (elem c (0x20 ∷ 0x85 ∷ 0xA0 ∷ 0x1680 ∷ 0x2028 ∷ 0x2029 ∷ 0x202F ∷ 0x205F ∷ 0x3000 ∷ [])
        || (leb 0x2000 c && leb c 0x200A))

unfoldable pub trim_left : String → String
unfolding is_space elem
trim_left String.[] = ""
trim_left (String.◌∷◌ c s) =
    let rest = trim_left s in if is_space (code c) then rest else String.◌∷◌ c s

abbrev pub onto_kept : Prim.Native.Char.Char → String → String
onto_kept c String.[] = if is_space (code c) then "" else String.◌∷◌ c ""
onto_kept c (String.◌∷◌ d s) = String.◌∷◌ c (String.◌∷◌ d s)

unfoldable pub trim_right : String → String
unfolding is_space elem
trim_right String.[] = ""
trim_right (String.◌∷◌ c s) = onto_kept c (trim_right s)

-- strings.TrimSpace
unfoldable pub trim_space : String → String
unfolding trim_left trim_right
trim_space s = trim_right (trim_left s)
