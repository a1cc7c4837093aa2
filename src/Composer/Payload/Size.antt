-- ===== src/Composer/Payload/Size.antt =====
-- What leaves the form of web/static/admin.js: the size limit, and the labels.
use secureshare.Prelude.{◌≢◌, [], subst, ◌≡◌, ◌≤◌, Bool, true, false, List, [], some, map, arith}
use secureshare.Text.{Text, trim, is_empty}
use secureshare.Json.{Json}
use secureshare.Json.Print.{stringify, encoded_length}
use secureshare.Composer.{Host, returned, ◌>>=◌, Row, max_secret_bytes, >>=-returned}
use secureshare.Composer.Payload.{
  field_of, structured_payload, plain_payload, PayloadModel, structured, json_value, text,
  payload_json, validate_size, payload_model,
}
use secureshare.Composer.Payload.Laws.{WellNamed, structured_payload_iff}

validate_size_inv :
    (p q : PayloadModel)
    → validate_size p ≡ returned q
    → (p ≡ q) × (encoded_length (stringify [] [] (payload_json q)) ≤ max_secret_bytes)
unfolding validate_size
validate_size_inv p q h = ground arith

-- What is sent of a text.
abbrev pub SentPlain : Host → Text → Bool → PayloadModel → Type 0
SentPlain host raw false p = p ≡ text raw
SentPlain host raw true p = (v : Json) × (host.json_parse raw ≡ some v) × (p ≡ json_value v)

plain_payload_inv :
    (host : Host) (raw : Text) (is_json : Bool) (q : PayloadModel)
    → plain_payload host raw is_json ≡ returned q
    → (is_empty (trim raw) ≡ false) × SentPlain host raw is_json q
unfolding plain_payload
plain_payload_inv host raw true q h = ground arith
plain_payload_inv host raw false q h = ground arith

module _ (host : Host) where
  pub payload_model-structured :
      (rows : List Row) (raw : Text) (is_json : Bool) (p : PayloadModel)
      → payload_model host true rows raw is_json ≡ returned p
      → (encoded_length (stringify [] [] (payload_json p)) ≤ max_secret_bytes)
        × (p ≡ structured (map (field_of host) rows))
        × (rows ≢ [])
        × WellNamed host rows
  unfolding payload_model
  payload_model-structured rows raw is_json p h =
      let (q, e, small) =
        >>=-returned (structured_payload host rows >>= λ fs. returned (structured fs))
          (λ p. validate_size p) h in
      let (fs, good, k) =
        >>=-returned (structured_payload host rows) (λ fs. returned (structured fs)) e in
      let (same, bound) = validate_size_inv q p small in
      let (some_row, named, fields) = (structured_payload_iff host rows fs).0 good in
      (bound, ground arith, some_row, named)

  -- In plain mode the text is sent as it was typed, white space included, or as the value that it
  -- parses to; a blank text does not pass.
  pub payload_model-plain :
      (rows : List Row) (raw : Text) (is_json : Bool) (p : PayloadModel)
      → payload_model host false rows raw is_json ≡ returned p
      → (encoded_length (stringify [] [] (payload_json p)) ≤ max_secret_bytes)
        × (is_empty (trim raw) ≡ false)
        × SentPlain host raw is_json p
  unfolding payload_model
  payload_model-plain rows raw is_json p h =
      let (q, e, small) = >>=-returned (plain_payload host raw is_json) (λ p. validate_size p) h in
      let (same, bound) = validate_size_inv q p small in
      let (solid, sent) = plain_payload_inv host raw is_json q e in
      (bound, solid, subst (SentPlain host raw is_json) same sent)
