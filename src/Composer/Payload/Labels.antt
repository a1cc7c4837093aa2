-- ===== src/Composer/Payload/Labels.antt =====
-- Which fields are sent without a label: `labelForField` of web/static/admin.js and `JSON.stringify`.
use secureshare.Prelude.{
  ◌≡◌, ◌↔◌, refl, sym, ◌∙◌, ap, true, false, [], ◌∷◌, Option, none, some, map, All, arith, text_eq,
  text_eq→≡, Bool-cases, inl, inr,
}
use secureshare.Text.{Text, lit, trim}
use secureshare.Json.{object, string, end, Value, own, lookup}
use secureshare.Composer.{Host, Row, ascii_lower, IsAscii}
use secureshare.Composer.Label.{
  Label, plain, native_function, object_prototype, find_property, coalesce_label, spaced,
  capitalized, label_for_field,
}
use secureshare.Composer.Label.Laws.{
  known_properties, AllSent, find_property-constructor, find_property-lower,
}
use secureshare.Composer.Payload.{SecretField, all_key_units, is_field_name, field_of, field_json}

all_key_units-IsAscii : (s : Text) → all_key_units s ≡ true → All IsAscii s
unfolding all_key_units
all_key_units-IsAscii [] h = tt
all_key_units-IsAscii (c ∷ s) h = (ground arith, all_key_units-IsAscii s (ground arith))

is_field_name-IsAscii : (s : Text) → is_field_name s ≡ true → All IsAscii s
unfolding is_field_name
is_field_name-IsAscii [] h = tt
is_field_name-IsAscii (c ∷ s) h = all_key_units-IsAscii (c ∷ s) h

-- A label as `JSON.stringify` writes it.
abbrev written : Label → Value
written (plain t) = some (string t)
written (native_function name) = none
written object_prototype = some (object end)

own-field_json : (f : SecretField) → own (lit "label") (field_json f) ≡ written f.label
unfolding field_json lookup text_eq
own-field_json f =
    elim f.label as (λ l. own (lit "label") (field_json (record f { label = l })) ≡ written l) [
      | plain t ↦ refl
      | native_function name ↦ refl
      | object_prototype ↦ refl
    ]

AllSent-written :
    (o : Option Label) (t : Text) → AllSent o → written (coalesce_label o t) ≡ none → ⊥
AllSent-written none t h e = cc
AllSent-written (some (plain s)) t h e = cc
AllSent-written (some (native_function name)) t h e = h
AllSent-written (some object_prototype) t h e = cc

-- A field with a good name is sent without its label exactly when its trimmed name, in lower case, is
-- `constructor`: of all that the object of the labels has or inherits, this alone is a function
-- that a name in lower case finds.
pub inherited_label :
    (host : Host) (r : Row)
    → is_field_name (trim r.key) ≡ true
    → (own (lit "label") (field_json (field_of host r)) ≡ none)
      ↔ (map ascii_lower (trim r.key) ≡ lit "constructor")
unfolding field_of label_for_field
inherited_label host r named =
    let made = capitalized false (spaced false (trim r.key)) in
    let lower : host.lower_case (trim r.key) ≡ map ascii_lower (trim r.key) =
      host.lower_ascii (trim r.key) (is_field_name-IsAscii (trim r.key) named) in
    let sent : own (lit "label") (field_json (field_of host r))
        ≡ written
            (coalesce_label (find_property (map ascii_lower (trim r.key)) known_properties) made) =
      own-field_json (field_of host r)
      ∙ ap (λ k. written (coalesce_label (find_property k known_properties) made)) lower in
    (
      λ missing. elim (Bool-cases (text_eq (map ascii_lower (trim r.key)) (lit "constructor"))) [
        | inl e ↦ text_eq→≡ (map ascii_lower (trim r.key)) (lit "constructor") e
        | inr other ↦ absurd (
            AllSent-written (find_property (map ascii_lower (trim r.key)) known_properties) made
              (find_property-lower (trim r.key) other) (sym sent ∙ missing))
      ],
      λ found.
          sent
          ∙ ap (λ k. written (coalesce_label (find_property k known_properties) made)) found
          ∙ ap (λ o. written (coalesce_label o made)) find_property-constructor,
    )
