-- ===== src/Recipient/Payload.antt =====
-- `renderField` and `renderSecret` of web/static/reveal.js: a revealed secret on the page.
pub mod Laws
use secureshare.Prelude.{
  Bool, true, false, not, List, [], ◌∷◌, ◌++◌, Option, none, some, if◌then◌else◌, text_eq,
}
use mathlib.Core.Option
use secureshare.Text.{Text, lit, join}
use secureshare.Json.{
  Json, string, array, Items, nil, cons, Value, prop, opt_prop, truthy, or_value, is_string,
  value_text, content_text,
}
use secureshare.Json.Print.{stringify}
use secureshare.Recipient.{Copy, SecretRow, Page}

abbrev pub mask : Text
mask = lit "••••••••••••"

-- `field.label || field.name`; `none` is a TypeError.
abbrev pub field_name : Json → Option Value
field_name f =
    Option.bind (prop (lit "label") (some f))
      λ label. Option.map (λ name. or_value label name) (prop (lit "name") (some f))

unfoldable pub render_field : Copy → Json → Option SecretRow
render_field c f = Option.bind (Option.bind (field_name f) content_text) λ name.
    Option.bind (Option.bind (prop (lit "value") (some f)) value_text) λ value.
      Option.map
        (λ sensitive.
          let is_hidden = truthy sensitive in
          record {
            name = name;
            value = value;
            shown = if is_hidden then mask else value;
            button = c.show;
            button_hidden = not is_hidden;
          })
        (prop (lit "sensitive") (some f))

-- A click on the button of a row.
unfoldable pub toggle_row : Copy → SecretRow → SecretRow
toggle_row c r =
    let showing = text_eq r.shown r.value in
    record r {
      shown = if showing then mask else r.value;
      button = if showing then c.show else c.hide;
    }

-- One line of `revealedText`.
abbrev pub line : Json → Option Text
line f = Option.bind (Option.bind (field_name f) value_text) λ name.
    Option.map (λ value. name ++ lit ": " ++ value)
      (Option.bind (prop (lit "value") (some f)) value_text)

unfoldable pub lines : Items → Option (List Text)
lines nil = some []
lines (cons f fs) = Option.bind (line f) λ t. Option.map (λ ts. t ∷ ts) (lines fs)

-- The rows appended before a field throws, and whether one did.
unfoldable pub append_rows : Copy → Items → List SecretRow → List SecretRow × Bool
append_rows c nil rows = (rows, false)
append_rows c (cons f fs) rows = elim (render_field c f) [
  | none ↦ (rows, true)
  | some r ↦ append_rows c fs (rows ++ r ∷ [])
]

abbrev pub newline : Text
newline = 10 ∷ []

abbrev pub show_plain : Text → Page → Page
show_plain t p = record p { revealed_text = t; secret_code = t; plain_hidden = false }

unfoldable pub show_structured : Copy → Items → Page → Page × Bool
show_structured c fields p = elim (lines fields) [
  | none ↦ (p, true)
  | some ts ↦
      let (rows, threw) = append_rows c fields p.rows in
      (
        record p {
          revealed_text = join newline ts;
          rows = rows;
          structured_hidden = if threw then p.structured_hidden else false;
        },
        threw,
      )
]

-- `JSON.stringify(value, null, 2)`; undefined shows as the empty text.
abbrev pub pretty : Value → Text
pretty none = []
pretty (some v) = stringify (lit "  ") [] v

abbrev pub as_items : Value → Option Items
as_items (some (array fields)) = some fields
as_items _ = none

-- `typeof legacySecret === "string" ? legacySecret : JSON.stringify(legacySecret, null, 2)`.
abbrev pub legacy_text : Value → Text
legacy_text (some (string s)) = s
legacy_text v = pretty v

-- `payload.text || ""`, as the text that it is shown as.
abbrev pub text_or_empty : Value → Option Text
text_or_empty v = if truthy v then value_text v else some []

-- A `payload.text` that has no text throws where it is shown; `revealed_text` then keeps its old
-- text, since it holds no other values.
unfoldable pub show_unstructured : Value → Value → Page → Page × Bool
show_unstructured payload legacy p =
    let type = opt_prop (lit "type") payload in
    if is_string (lit "json") type
    then (show_plain (pretty (opt_prop (lit "value") payload)) p, false)
    else if is_string (lit "text") type
    then elim (text_or_empty (opt_prop (lit "text") payload)) [
      | none ↦ (p, true)
      | some t ↦ (show_plain t p, false)
    ]
    else (show_plain (legacy_text legacy) p, false)

-- `renderSecret(payload, legacySecret)`, and whether it threw.
unfoldable pub render_secret : Copy → Value → Value → Page → Page × Bool
render_secret c payload legacy p =
    let q = record p { rows = []; structured_hidden = true; plain_hidden = true } in
    let fields =
      if is_string (lit "structured") (opt_prop (lit "type") payload)
      then as_items (opt_prop (lit "fields") payload)
      else none in
    elim fields [ none ↦ show_unstructured payload legacy q | some fs ↦ show_structured c fs q ]
