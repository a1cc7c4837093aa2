-- ===== src/Exchange.antt =====
-- What a sender types on the create page is what the recipient of the link sees: `structuredPayload`
-- and `plainPayload` of web/static/admin.js with `renderSecret` and `reveal` of
-- web/static/reveal.js. The server, between them, hands the payload on as it was sent.
pub mod Seen
pub mod Delivered
pub mod Address
use secureshare.Prelude.{
  ℕ, ◌≡◌, refl, sym, ◌∙◌, ap, Bool, true, false, not, List, [], ◌∷◌, ◌++◌, Option, none, some, map,
  if◌then◌else◌, text_eq, arith,
}
use mathlib.Core.Option
use mathlib.Core.List.{append-nil, append_assoc}
use secureshare.Text.{Text, lit, join, or_text, is_empty}
use secureshare.Json.{
  Json, boolean, string, array, object, Items, nil, cons, Fields, end, field, Value, lookup, own,
  prop, opt_prop, truthy, or_value, is_string, value_text, content_text, to_text,
}
use secureshare.Composer.Label.{Label, plain, native_function, object_prototype}
use secureshare.Composer.Payload.{
  SecretField, PayloadModel, structured, json_value, text, field_json, fields_json, payload_json,
}
use secureshare.Recipient.{Copy, SecretRow, Page}
use secureshare.Recipient.Payload.{
  mask, field_name, render_field, line, lines, append_rows, newline, show_structured, show_plain,
  pretty, show_unstructured, text_or_empty, render_secret,
}

-- The name that the recipient reads for a field: its label, or its key where the label is empty or
-- was not sent.
abbrev pub shown_name : SecretField → Text
shown_name f = elim f.label [
  | plain t ↦ or_text t f.name
  | native_function name ↦ f.name
  | object_prototype ↦ lit "[object Object]"
]

-- The row of a field: a sensitive value starts as the mask, with a button to show it.
abbrev pub row_of : Copy → SecretField → SecretRow
row_of c f = record {
  name = shown_name f;
  value = f.value;
  shown = if f.sensitive then mask else f.value;
  button = c.show;
  button_hidden = not f.sensitive;
}

abbrev pub line_of : SecretField → Text
line_of f = shown_name f ++ lit ": " ++ f.value

-- One field, by its label.
labelled_row :
    (c : Copy) (name value : Text) (sensitive multiline : Bool) (label : Label)
    → let f : SecretField = record {
      name = name;
      label = label;
      value = value;
      sensitive = sensitive;
      multiline = multiline;
    } in
      (render_field c (field_json f) ≡ some (row_of c f)) × (line (field_json f) ≡ some (line_of f))
unfolding render_field field_json prop lookup text_eq truthy content_text value_text to_text
    Option.bind
labelled_row c name value sensitive multiline (plain []) = (refl, refl)
labelled_row c name value sensitive multiline (plain (u ∷ t)) = (refl, refl)
labelled_row c name value sensitive multiline (native_function t) = (refl, refl)
labelled_row c name value sensitive multiline object_prototype = (refl, refl)

field_json-row : (c : Copy) (f : SecretField) → render_field c (field_json f) ≡ some (row_of c f)
field_json-row c f = (labelled_row c f.name f.value f.sensitive f.multiline f.label).0

field_json-line : (c : Copy) (f : SecretField) → line (field_json f) ≡ some (line_of f)
field_json-line c f = (labelled_row c f.name f.value f.sensitive f.multiline f.label).1

fields_json-lines :
    (c : Copy) (fs : List SecretField) → lines (fields_json fs) ≡ some (map line_of fs)
unfolding lines fields_json Option.bind
fields_json-lines c [] = refl
fields_json-lines c (f ∷ fs) = rw (field_json-line c f) (rw (fields_json-lines c fs) refl)

fields_json-rows :
    (c : Copy) (fs : List SecretField) (rows : List SecretRow)
    → append_rows c (fields_json fs) rows ≡ (rows ++ map (row_of c) fs, false)
unfolding append_rows fields_json
fields_json-rows c [] rows = ap (λ r. (r, false)) (sym (append-nil rows))
fields_json-rows c (f ∷ fs) rows =
    rw (field_json-row c f, append_rows)
      (fields_json-rows c fs (rows ++ row_of c f ∷ [])
        ∙ ap (λ l. (l, false)) (append_assoc rows (row_of c f ∷ []) (map (row_of c) fs)))

-- What the page of the recipient shows of each kind of payload, with the other view closed.
abbrev pub shown_secret : Copy → PayloadModel → Page → Page
shown_secret c (structured fs) p = record p {
  rows = map (row_of c) fs;
  revealed_text = join newline (map line_of fs);
  structured_hidden = false;
  plain_hidden = true;
}
shown_secret c (json_value v) p =
    show_plain (pretty (some v)) (record p { rows = []; structured_hidden = true })
shown_secret c (text t) p = show_plain t (record p { rows = []; structured_hidden = true })

text_or_empty-string : (t : Text) → text_or_empty (some (string t)) ≡ some t
unfolding truthy value_text to_text
text_or_empty-string [] = refl
text_or_empty-string (u ∷ t) = refl

show_structured-fields_json :
    (c : Copy) (fs : List SecretField) (p : Page)
    → p.rows ≡ []
    → show_structured c (fields_json fs) p ≡ (
      record p {
        rows = map (row_of c) fs;
        revealed_text = join newline (map line_of fs);
        structured_hidden = false;
      },
      false,
    )
unfolding show_structured
show_structured-fields_json c fs p empty =
    let rows : append_rows c (fields_json fs) p.rows ≡ (map (row_of c) fs, false) =
      ap (append_rows c (fields_json fs)) empty ∙ fields_json-rows c fs [] in
    rw (fields_json-lines c fs, show_structured) (rw rows refl)

-- Whatever payload the sender's form makes, the recipient's page shows it whole: the rows of its
-- fields in order, each with its value, masked if it is sensitive; or the text as it was typed; or
-- the value in its layout. The text for the copy button is that of all of it, and the other view is
-- closed, whatever the page showed before.
pub render_secret-payload_json :
    (c : Copy) (m : PayloadModel) (legacy : Value) (p : Page)
    → render_secret c (some (payload_json m)) legacy p ≡ (shown_secret c m p, false)
unfolding render_secret payload_json lookup text_eq is_string opt_prop show_unstructured
render_secret-payload_json c (structured fs) legacy p =
    show_structured-fields_json c fs
      (record p { rows = []; structured_hidden = true; plain_hidden = true }) refl
render_secret-payload_json c (json_value v) legacy p = refl
render_secret-payload_json c (text t) legacy p = rw (text_or_empty-string t) refl
