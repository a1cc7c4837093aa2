-- ===== src/Json/Print.antt =====
-- `JSON.stringify`, with the gap that its third argument gives, and the UTF-8 length of a text.
use secureshare.Prelude.{
  ℕ, ◌+◌, ◌/◌, ◌%◌, Bool, true, false, ◌&&◌, ◌||◌, [], ◌∷◌, ◌++◌, leb, ltb, ◌==◌, if◌then◌else◌,
}
use secureshare.Text.{Text, lit}
use secureshare.Json.{
  Json, null, boolean, number, string, array, object, Items, nil, cons, Fields, end, field,
}

abbrev is_lead : ℕ → Bool
is_lead c = leb 0xd800 c && ltb c 0xdc00

abbrev is_trail : ℕ → Bool
is_trail c = leb 0xdc00 c && ltb c 0xe000

abbrev hex_digit : ℕ → ℕ
hex_digit n = if ltb n 10 then b'0' + n else (87 + n)

-- `\uXXXX` in lower case.
unicode_escape : ℕ → Text
unicode_escape c =
    b'\\'
    ∷ b'u'
    ∷ hex_digit (c / 4096)
    ∷ hex_digit (c / 256 % 16)
    ∷ hex_digit (c / 16 % 16)
    ∷ hex_digit (c % 16)
    ∷ []

escape_unit : ℕ → Text
unfolding unicode_escape
escape_unit c =
    if c == 8
    then lit "\\b"
    else if c == 9
    then lit "\\t"
    else if c == 10
    then lit "\\n"
    else if c == 12
    then lit "\\f"
    else if c == 13
    then lit "\\r"
    else if c == b'"'
    then lit "\\\""
    else if c == b'\\'
    then lit "\\\\"
    else if ltb c 32 || is_lead c || is_trail c
    then unicode_escape c
    else c ∷ []

-- The body of a quoted string. A surrogate pair stands as it is, a lone surrogate is escaped.
unfoldable pub escape : Text → Text
unfolding escape_unit
escape [] = []
escape (c ∷ []) = escape_unit c
escape (c ∷ d ∷ s) = elim (is_lead c && is_trail d) [
  | true ↦ c ∷ d ∷ escape s
  | false ↦ escape_unit c ++ escape (d ∷ s)
]

unfoldable pub quote : Text → Text
unfolding escape
quote s = b'"' ∷ escape s ++ lit "\""

-- A line break and the indentation, or nothing without a gap.
abbrev break_line : Text → Text → Text
break_line [] indent = []
break_line (g ∷ gap) indent = 10 ∷ indent

abbrev colon : Text → Text
colon [] = lit ":"
colon (g ∷ gap) = lit ": "

-- `gap` is the unit of indentation, the empty text for `JSON.stringify(value)`; `indent` is the
-- indentation of the value that is written.
unfoldable mutual
  unfolding quote

  pub stringify : Text → Text → Json → Text
  stringify gap indent null = lit "null"
  stringify gap indent (boolean true) = lit "true"
  stringify gap indent (boolean false) = lit "false"
  stringify gap indent (number t) = t
  stringify gap indent (string s) = quote s
  stringify gap indent (array nil) = lit "[]"
  stringify gap indent (array (cons x xs)) =
      lit "["
      ++ break_line gap (indent ++ gap)
      ++ stringify gap (indent ++ gap) x
      ++ stringify_items gap (indent ++ gap) xs
      ++ break_line gap indent
      ++ lit "]"
  stringify gap indent (object end) = lit "{}"
  stringify gap indent (object (field k v rest)) =
      lit "{"
      ++ break_line gap (indent ++ gap)
      ++ quote k
      ++ colon gap
      ++ stringify gap (indent ++ gap) v
      ++ stringify_fields gap (indent ++ gap) rest
      ++ break_line gap indent
      ++ lit "}"

  pub stringify_items : Text → Text → Items → Text
  stringify_items gap indent nil = []
  stringify_items gap indent (cons x xs) =
      lit "," ++ break_line gap indent ++ stringify gap indent x ++ stringify_items gap indent xs

  pub stringify_fields : Text → Text → Fields → Text
  stringify_fields gap indent end = []
  stringify_fields gap indent (field k v rest) =
      lit ","
      ++ break_line gap indent
      ++ quote k
      ++ colon gap
      ++ stringify gap indent v
      ++ stringify_fields gap indent rest

-- `new TextEncoder().encode(s).length`: a surrogate pair takes four bytes, a lone surrogate is
-- written as U+FFFD and takes three.
abbrev unit_size : ℕ → ℕ
unit_size c = if ltb c 0x80 then 1 else if ltb c 0x800 then 2 else 3

unfoldable pub encoded_length : Text → ℕ
encoded_length [] = 0
encoded_length (c ∷ []) = unit_size c
encoded_length (c ∷ d ∷ s) = elim (is_lead c && is_trail d) [
  | true ↦ 4 + encoded_length s
  | false ↦ unit_size c + encoded_length (d ∷ s)
]
