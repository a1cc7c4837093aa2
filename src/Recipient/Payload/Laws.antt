-- ===== src/Recipient/Payload/Laws.antt =====
-- What the recipient sees of a secret: `renderField` and `renderSecret` of web/static/reveal.js.
use secureshare.Prelude.{
  ◌≡◌, refl, sym, ap, subst, Bool, true, false, not, List, [], ◌∷◌, ◌++◌, none, some, arith, inl,
  inr, ◌∙◌, Option-cases, text_eq_iff, text_eq_refl,
}
use mathlib.Core.Option
use mathlib.Core.List.{append-nil, append_assoc}
use secureshare.Text.{Text, lit, join}
use secureshare.Json.{
  Json, null, array, Items, nil, cons, Value, prop, own, opt_prop, truthy, or_value, is_string,
  value_text, content_text,
}
use secureshare.Recipient.{Copy, SecretRow, Page}
use secureshare.Recipient.Payload.{
  mask, render_field, toggle_row, line, lines, append_rows, newline, show_structured,
  show_unstructured, render_secret,
}

-- A row as it is rendered for a sensitive field.
pub record IsMasked (c : Copy) (r : SecretRow) : Type 0 where
  pub hidden_value : r.shown ≡ mask
  pub offers_show : r.button ≡ c.show

module _ (c : Copy) where
  -- Two clicks on the button of a masked row leave it as it was, and after one click the value is
  -- on show, also when the value is the mask itself.
  pub toggle_row-toggle_row :
      (r : SecretRow)
      → IsMasked c r
      → (toggle_row c (toggle_row c r) ≡ r) × ((toggle_row c r).shown ≡ r.value)
  unfolding toggle_row
  toggle_row-toggle_row r m =
      ground (arith, text_eq_iff r.shown r.value, text_eq_refl r.value, text_eq_iff mask r.value)

  content_text-eq_none : (v : Value) → content_text v ≡ none → value_text v ≡ none
  unfolding value_text content_text
  content_text-eq_none none e = cc
  content_text-eq_none (some null) e = cc
  content_text-eq_none (some v) e = e

  -- How the row of a field starts, by whether the field is sensitive.
  abbrev pub Starts : Bool → SecretRow → Type 0
  Starts true r = (r.shown ≡ mask) × (r.button ≡ c.show) × (r.button_hidden ≡ false)
  Starts false r = (r.shown ≡ r.value) × (r.button_hidden ≡ true)

  -- The row that a recipient is to see of a field: its label, or its name if it has none, the text of
  -- its value, and `sensitive` alone decides whether it starts as the mask, with the button to show
  -- it, or as the value, without a button.
  abbrev pub RowOf : Json → SecretRow → Type 0
  RowOf f r =
      (content_text (or_value (own (lit "label") f) (own (lit "name") f)) ≡ some r.name)
      × (value_text (own (lit "value") f) ≡ some r.value)
      × Starts (truthy (own (lit "sensitive") f)) r

  render_field-RowOf : (f : Json) (r : SecretRow) → render_field c f ≡ some r → RowOf f r
  unfolding render_field prop Option.bind
  render_field-RowOf null r e = cc
  render_field-RowOf f r e = ground arith

  -- The line of a field for the copy button: its label, or its name, and the text of its value.
  abbrev pub LineOf : Json → Text → Type 0
  LineOf f t =
      (name : Text) × (value : Text) × (value_text
          (or_value (own (lit "label") f) (own (lit "name") f))
        ≡ some name)
      × (value_text (own (lit "value") f) ≡ some value)
      × (t ≡ name ++ lit ": " ++ value)

  line-LineOf : (f : Json) (t : Text) → line f ≡ some t → LineOf f t
  unfolding prop Option.bind
  line-LineOf null t e = cc
  line-LineOf f t e =
      elim (Option-cases (value_text (or_value (own (lit "label") f) (own (lit "name") f)))) [
        | inl h ↦ absurd (ground arith)
        | inr (name, h) ↦ elim (Option-cases (value_text (own (lit "value") f))) [
          | inl k ↦ absurd (ground arith)
          | inr (value, k) ↦ (name, value, h, k, ground arith)
        ]
      ]

  -- A field that has a line has a row: the row's label, null or undefined, is the empty text.
  line-render_field : (f : Json) → render_field c f ≡ none → line f ≡ none
  unfolding render_field prop Option.bind
  line-render_field null e = refl
  line-render_field f e =
      ground (arith, content_text-eq_none (or_value (own (lit "label") f) (own (lit "name") f)))

  -- The rows of a list of fields, one for each, in order.
  abbrev pub Rendered : Items → List SecretRow → Type 0
  Rendered nil [] = Unit
  Rendered (cons f fs) (r ∷ rs) = RowOf f r × Rendered fs rs
  Rendered _ _ = ⊥

  -- The lines of a list of fields, likewise.
  abbrev pub Listed : Items → List Text → Type 0
  Listed nil [] = Unit
  Listed (cons f fs) (t ∷ ts) = LineOf f t × Listed fs ts
  Listed _ _ = ⊥

  lines-Listed : (fs : Items) (ts : List Text) → lines fs ≡ some ts → Listed fs ts
  unfolding lines Option.bind
  lines-Listed nil [] e = tt
  lines-Listed nil (t ∷ ts) e = cc
  lines-Listed (cons f fs) ts e = elim (Option-cases (line f)) [
    | inl h ↦ absurd (ground arith)
    | inr (t, h) ↦ elim (Option-cases (lines fs)) [
      | inl k ↦ absurd (ground arith)
      | inr (us, k) ↦
          let same : t ∷ us ≡ ts = ground arith in
          subst (Listed (cons f fs)) same (line-LineOf f t h, lines-Listed fs us k)
    ]
  ]

  -- If every field has a line, every field gets its row, in order behind the rows before.
  append_rows_lem :
      (fs : Items) (ts : List Text) (rows : List SecretRow)
      → lines fs ≡ some ts
      → (out : List SecretRow) × (append_rows c fs rows ≡ (rows ++ out, false)) × Rendered fs out
  unfolding append_rows lines Option.bind
  append_rows_lem nil ts rows e = ([], ap (λ r. (r, false)) (sym (append-nil rows)), tt)
  append_rows_lem (cons f fs) ts rows e = elim (Option-cases (line f)) [
    | inl h ↦ absurd (ground arith)
    | inr (t, h) ↦ elim (Option-cases (lines fs)) [
      | inl k ↦ absurd (ground arith)
      | inr (us, k) ↦ elim (Option-cases (render_field c f)) [
        | inl g ↦ absurd (ground (arith, line-render_field f g))
        | inr (r, g) ↦
            let (out, same, all) = append_rows_lem fs us (rows ++ r ∷ []) k in
            (
              r ∷ out,
              rw (g, append_rows) (same ∙ ap (λ l. (l, false)) (append_assoc rows (r ∷ []) out)),
              (render_field-RowOf f r g, all),
            )
      ]
    ]
  ]

  -- Both views are cleared before the payload is read.
  abbrev cleared : Page → Page
  cleared p = record p { rows = []; structured_hidden = true; plain_hidden = true }

  render_secret-show_structured :
      (payload legacy : Value) (fields : Items) (p : Page)
      → is_string (lit "structured") (opt_prop (lit "type") payload) ≡ true
      → opt_prop (lit "fields") payload ≡ some (array fields)
      → render_secret c payload legacy p ≡ show_structured c fields (cleared p)
  unfolding render_secret
  render_secret-show_structured payload legacy fields p kind fs =
      rw (kind, render_secret) (rw fs refl)

  abbrev ShownWhole : Items → List Text → Page → Page × Bool → Type 0
  ShownWhole fields ts p (q, threw) =
      (threw ≡ false)
      × Rendered fields q.rows
      × Listed fields ts
      × (q.revealed_text ≡ join newline ts)
      × (q.structured_hidden ≡ false)
      × (q.plain_hidden ≡ p.plain_hidden)

  show_structured_lem :
      (fields : Items) (ts : List Text) (p : Page)
      → p.rows ≡ []
      → lines fields ≡ some ts
      → ShownWhole fields ts p (show_structured c fields p)
  unfolding show_structured
  show_structured_lem fields ts p empty e =
      let (out, same, all) = append_rows_lem fields ts p.rows e in
      rw (e, show_structured)
        (rw same (
          refl,
          subst (λ l. Rendered fields (l ++ out)) (sym empty) all,
          lines-Listed fields ts e,
          refl,
          refl,
          refl,
        ))

  -- A structured payload whose fields all have texts is shown whole: a row for each field, in order,
  -- with its label, or else its name, and the text of its value, masked exactly if it is sensitive; a
  -- line of the same name and value for each, in order, joined for the copy button; and of the two
  -- views the structured one on display.
  pub render_secret-structured :
      (payload legacy : Value) (fields : Items) (ts : List Text) (p : Page)
      → is_string (lit "structured") (opt_prop (lit "type") payload) ≡ true
      → opt_prop (lit "fields") payload ≡ some (array fields)
      → lines fields ≡ some ts
      → let (q, threw) = render_secret c payload legacy p in
        (threw ≡ false)
        × Rendered fields q.rows
        × Listed fields ts
        × (q.revealed_text ≡ join newline ts)
        × (q.structured_hidden ≡ false)
        × (q.plain_hidden ≡ true)
  render_secret-structured payload legacy fields ts p kind fs e =
      subst (ShownWhole fields ts (cleared p))
        (sym (render_secret-show_structured payload legacy fields p kind fs))
        (show_structured_lem fields ts (cleared p) refl e)

  -- Whatever the payload, if showing it does not throw, then exactly one of the two views is on
  -- display.
  pub render_secret-one_view :
      (payload legacy : Value) (p : Page)
      → let (q, threw) = render_secret c payload legacy p in
        threw ≡ false → q.structured_hidden ≡ not q.plain_hidden
  unfolding render_secret show_structured show_unstructured
  render_secret-one_view payload legacy p h = ground arith
