-- ===== src/Tests/CreateForm.antt =====
-- The create form with ordinary keys, and with two that are not.
use secureshare.Prelude.{
  ◌≡◌, ◌≢◌, ◌≤◌, ◌↔◌, refl, true, false, List, [], ◌∷◌, none, map, arith, length, text_eq,
}
use secureshare.Text.{Text, lit, trim, is_empty}
use secureshare.Json.{own}
use secureshare.Json.Print.{stringify, encoded_length}
use secureshare.Composer.{
  Host, Row, returned, thrown, ascii_lower, max_fields, max_secret_bytes, member,
}
use secureshare.Composer.Label.{label_for_field, plain}
use secureshare.Composer.Rows.{Form, add_empty, pick, remove, run}
use secureshare.Composer.Rows.Laws.{run-limit}
use secureshare.Composer.Payload.{
  field_of, field_json, structured_payload, check_row, collect, fields_json, is_field_name,
  normalized, structured, text, payload_json, payload_model, validate_size, plain_payload,
}
use secureshare.Composer.Payload.Laws.{
  WellNamed, structured_payload_iff, structured_payload-first_error,
}
use secureshare.Composer.Payload.Labels.{inherited_label}
use secureshare.Composer.Payload.Size.{payload_model-plain, SentPlain}

-- A host whose letters are those of ASCII, and whose JSON is empty.
abbrev pub ascii : Host
ascii = record {
  lower_case = map ascii_lower;
  lower_ascii = λ s h. refl;
  json_parse = λ s. none;
  syntax_error = λ s. lit "Unexpected token";
}

abbrev row : Text → Row
row key = record { key = key; value = lit "v"; sensitive = true; multiline = false }

abbrev pub rows : List Row
rows = row (lit " user_name ") ∷ row (lit "Password") ∷ []

abbrev pub form : Form
form = record { rows = rows; structured_error = [] }

label-user_name : label_for_field ascii (lit "user_name") ≡ plain (lit "User Name")
unfolding label_for_field text_eq
label-user_name = refl

run-limit_example :
    length (run ascii form (add_empty ∷ pick (lit "host") ∷ remove 0 ∷ [])).rows ≤ max_fields
run-limit_example =
    run-limit ascii (add_empty ∷ pick (lit "host") ∷ remove 0 ∷ []) form (omega arith)

structured_payload_iff_example :
    (structured_payload ascii rows ≡ returned (map (field_of ascii) rows))
    ↔ ((rows ≢ []) × WellNamed ascii rows × (map (field_of ascii) rows ≡ map (field_of ascii) rows))
structured_payload_iff_example = structured_payload_iff ascii rows (map (field_of ascii) rows)

one-WellNamed : WellNamed ascii (row (lit "Password") ∷ [])
unfolding is_field_name trim
one-WellNamed = ((refl, tt), (tt, tt))

second-Duplicate :
    check_row ascii (normalized ascii (row (lit "Password")) ∷ []) (row (lit "password"))
    ≡ thrown (lit "Duplicate key: password")
unfolding check_row member text_eq is_field_name trim
second-Duplicate = refl

structured_payload-first_error_example :
    structured_payload ascii (row (lit "Password") ∷ row (lit "password") ∷ row [] ∷ [])
    ≡ thrown (lit "Duplicate key: password")
structured_payload-first_error_example =
    structured_payload-first_error ascii (row (lit "Password") ∷ []) (row (lit "password"))
      (row [] ∷ []) (lit "Duplicate key: password") one-WellNamed second-Duplicate

pub rows-sent :
    payload_model ascii true rows [] false ≡ returned (structured (map (field_of ascii) rows))
unfolding payload_model structured_payload collect check_row member is_field_name field_of
    label_for_field validate_size payload_json field_json fields_json stringify encoded_length trim
    text_eq
rows-sent = refl

plain-sent : payload_model ascii false [] (lit " x ") false ≡ returned (text (lit " x "))
unfolding payload_model plain_payload validate_size trim payload_json stringify encoded_length
plain-sent = refl

payload_model-plain_example :
    (encoded_length (stringify [] [] (payload_json (text (lit " x ")))) ≤ max_secret_bytes)
    × (is_empty (trim (lit " x ")) ≡ false)
    × SentPlain ascii (lit " x ") false (text (lit " x "))
payload_model-plain_example =
    payload_model-plain ascii [] (lit " x ") false (text (lit " x ")) plain-sent

inherited_label_example :
    (own (lit "label") (field_json (field_of ascii (row (lit "Constructor")))) ≡ none)
    ↔ (map ascii_lower (trim (lit "Constructor")) ≡ lit "constructor")
unfolding is_field_name trim
inherited_label_example = inherited_label ascii (row (lit "Constructor")) refl

constructor-lower : map ascii_lower (trim (lit "Constructor")) ≡ lit "constructor"
unfolding trim
constructor-lower = refl
