-- ===== src/Composer/Payload.antt =====
-- `structuredPayload`, `plainPayload` and `validateSize` of web/static/admin.js.
pub mod Laws
pub mod Size
pub mod Labels
use secureshare.Prelude.{
  ℕ, Bool, true, false, List, [], ◌∷◌, ◌++◌, Option, none, some, ltb, ◌==◌, ◌&&◌, ◌||◌,
  if◌then◌else◌,
}
use secureshare.Text.{Text, lit, trim, is_empty}
use secureshare.Json.{Json, boolean, string, array, object, Items, nil, cons, Fields, end, field}
use secureshare.Json.Print.{stringify, encoded_length}
use secureshare.Composer.{Host, Outcome, returned, thrown, ◌>>=◌, Row, max_secret_bytes, member}
use secureshare.Composer.Label.{
  Label, plain, native_function, object_prototype, is_alphanumeric, is_separator, label_for_field,
}

-- An entry of `fields`.
pub record SecretField : Type 0 where
  pub name : Text
  pub label : Label
  pub value : Text
  pub sensitive : Bool
  pub multiline : Bool

-- `/^[A-Za-z0-9_.-]+$/.test(key)`.
unfoldable pub all_key_units : Text → Bool
all_key_units [] = true
all_key_units (c ∷ s) = (is_alphanumeric c || is_separator c) && all_key_units s

unfoldable pub is_field_name : Text → Bool
unfolding all_key_units
is_field_name [] = false
is_field_name (c ∷ s) = all_key_units (c ∷ s)

unfoldable pub field_of : Host → Row → SecretField
field_of host r = record {
  name = trim r.key;
  label = label_for_field host (trim r.key);
  value = r.value;
  sensitive = r.sensitive;
  multiline = r.multiline;
}

abbrev pub normalized : Host → Row → Text
normalized host r = host.lower_case (trim r.key)

-- One round of the loop: the checks on a key, with the names seen before.
unfoldable pub check_row : Host → List Text → Row → Outcome SecretField
check_row host seen r =
    let key = trim r.key in
    if is_empty key
    then thrown (lit "Every structured field needs a key.")
    else if is_field_name key
    then if member (normalized host r) seen
      then thrown (lit "Duplicate key: " ++ key)
      else returned (field_of host r)
    else thrown (lit "Invalid field name: " ++ key)

-- The loop, which stops at the first row that throws.
unfoldable pub collect : Host → List Text → List Row → Outcome (List SecretField)
collect host seen [] = returned []
collect host seen (r ∷ rs) = check_row host seen r >>= λ f.
    collect host (normalized host r ∷ seen) rs >>= λ fs. returned (f ∷ fs)

unfoldable pub structured_payload : Host → List Row → Outcome (List SecretField)
structured_payload host [] = thrown (lit "Add at least one structured field.")
structured_payload host (r ∷ rs) = collect host [] (r ∷ rs)

-- The payload of either mode, as `JSON.stringify` reads it.
pub data PayloadModel : Type 0 where
  structured : List SecretField → PayloadModel
  json_value : Json → PayloadModel
  text : Text → PayloadModel

-- `plainPayload`, with the form's `secret_plain` and whether `plain_format` is `json`.
unfoldable pub plain_payload : Host → Text → Bool → Outcome PayloadModel
plain_payload host raw is_json =
    if is_empty (trim raw)
    then thrown (lit "Plain text secret content is required.")
    else if is_json
    then elim (host.json_parse raw) [
      | none ↦ thrown (host.syntax_error raw)
      | some v ↦ returned (json_value v)
    ]
    else returned (text raw)

-- A property whose value is a function is left out, and `Object.prototype` has no own properties.
abbrev with_label : Label → Fields → Fields
with_label (plain t) rest = field (lit "label") (string t) rest
with_label (native_function name) rest = rest
with_label object_prototype rest = field (lit "label") (object end) rest

unfoldable pub field_json : SecretField → Json
field_json f = object (
    field (lit "name") (string f.name) (
      with_label f.label (
        field (lit "value") (string f.value) (
          field (lit "sensitive") (boolean f.sensitive)
            (field (lit "multiline") (boolean f.multiline) end)))))

unfoldable pub fields_json : List SecretField → Items
fields_json [] = nil
fields_json (f ∷ fs) = cons (field_json f) (fields_json fs)

unfoldable pub payload_json : PayloadModel → Json
payload_json (structured fs) = object (
    field (lit "type") (string (lit "structured"))
      (field (lit "fields") (array (fields_json fs)) end))
payload_json (json_value v) =
    object (field (lit "type") (string (lit "json")) (field (lit "value") v end))
payload_json (text t) =
    object (field (lit "type") (string (lit "text")) (field (lit "text") (string t) end))

-- `validateSize`: the payload, or the error that it throws.
unfoldable pub validate_size : PayloadModel → Outcome PayloadModel
validate_size p =
    if ltb max_secret_bytes (encoded_length (stringify [] [] (payload_json p)))
    then thrown (lit "Secret payload exceeds the 32 KB limit.")
    else returned p

-- The `try` block of the submit listener.
unfoldable pub payload_model : Host → Bool → List Row → Text → Bool → Outcome PayloadModel
payload_model host is_structured rows raw is_json =
    (if is_structured
      then (structured_payload host rows >>= λ fs. returned (structured fs))
      else plain_payload host raw is_json)
    >>= λ p. validate_size p
