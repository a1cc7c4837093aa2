-- ===== src/Text.antt =====
-- JavaScript strings as lists of UTF-16 code units, and the operations of the language that
-- web/static/admin.js, reveal.js and time.js call on them.
pub mod Trim
use Prim.Native.Char.{code}
use Prim.Native.String.{String}
use secureshare.Prelude.{
  ℕ, Bool, true, false, ◌&&◌, ◌||◌, List, [], ◌∷◌, ◌++◌, Option, none, some, leb, ◌==◌,
  if◌then◌else◌,
}

abbrev pub Text : Type 0
Text = List ℕ

-- The code units of a literal. The scripts' literals hold no character above U+FFFF.
abbrev pub lit : String → Text
lit String.[] = []
lit (String.◌∷◌ c s) = code c ∷ lit s

-- WhiteSpace and LineTerminator of ECMA-262, which `trim` removes.
pub is_space : ℕ → Bool
is_space c =
    (leb 9 c && leb c 13)
    || c == 32
    || c == 160
    || c == 5760
    || (leb 8192 c && leb c 8202)
    || c == 8232
    || c == 8233
    || c == 8239
    || c == 8287
    || c == 12288
    || c == 65279

pub trim_start : Text → Text
trim_start [] = []
trim_start (c ∷ s) = if is_space c then trim_start s else c ∷ s

-- A unit is dropped when nothing but white space follows it and it is white space itself.
pub trim_end : Text → Text
trim_end [] = []
trim_end (c ∷ s) = elim (trim_end s) [ [] ↦ if is_space c then [] else c ∷ [] | d ∷ r ↦ c ∷ d ∷ r ]

unfoldable pub trim : Text → Text
unfolding trim_start trim_end is_space
trim s = trim_end (trim_start s)

-- `s || d` for a string `s`.
abbrev pub or_text : Text → Text → Text
or_text [] d = d
or_text (c ∷ s) d = c ∷ s

-- `o || d` for a value that is a string or undefined.
abbrev pub or_default : Option Text → Text → Text
or_default none d = d
or_default (some s) d = or_text s d

-- `o ?? d`.
abbrev pub coalesce : Option Text → Text → Text
coalesce none d = d
coalesce (some s) d = s

-- `!s`.
abbrev pub is_empty : Text → Bool
is_empty [] = true
is_empty (c ∷ s) = false

-- `parts.join(separator)`.
pub join : Text → List Text → Text
join sep [] = []
join sep (s ∷ []) = s
join sep (s ∷ t ∷ rest) = s ++ sep ++ join sep (t ∷ rest)
