-- ===== src/Time/Laws.antt =====
-- What the formatter of time.js guarantees.
use secureshare.Prelude.{
  ◌≡◌, ◌≢◌, refl, List, [], ◌∷◌, Option, none, some, arith, Bool-cases, inl, inr, Option-cases,
}
use secureshare.Text.{Text, trim, is_empty, or_default}
use secureshare.Text.Trim.{trim_idem}
use secureshare.Time.{
  IntlOptions, Calendar, Options, Element, intl_options, format_instant, format, apply_to, apply,
}

-- The documented behaviour of the host: a formatted date and an ISO text are never empty.
pub record Speaks (cal : Calendar) : Type 0 where
  pub formats :
      (l : Option Text) (o : IntlOptions) (at : cal.Instant) (t : Text)
      → cal.format_at l o at ≡ some t
      → t ≢ []
  pub iso : (at : cal.Instant) → cal.to_iso at ≢ []

or_default-ne_nil : (o : Option Text) (d : Text) → d ≢ [] → or_default o d ≢ []
or_default-ne_nil none d h = h
or_default-ne_nil (some []) d h = h
or_default-ne_nil (some (c ∷ s)) d h = λ e. cc

module _ (cal : Calendar) where
  -- The second sweep reads what the first one wrote: the trimmed text.
  apply_to_twice :
      (e : Element) (v r : Text)
      → trim v ≡ r
      → let e' = record e { local_time = some v } in
        apply_to cal (apply_to cal e') ≡ apply_to cal e'
  unfolding apply_to
  apply_to_twice e v [] h = rw (h, h)
  apply_to_twice e v (c ∷ s) h =
      let k : trim (c ∷ s) ≡ c ∷ s = rw h at (trim_idem v) in rw h (rw k (ground arith))

  apply_to_idem : (e : Element) → apply_to cal (apply_to cal e) ≡ apply_to cal e
  unfolding apply_to
  apply_to_idem e =
      elim e.local_time
        as (λ o.
          let e' = record e { local_time = o } in
          apply_to cal (apply_to cal e') ≡ apply_to cal e') [
            | none ↦ refl
            | some v ↦ apply_to_twice e v (trim v) refl
          ]

  -- A second sweep over the same elements changes nothing.
  pub apply_idem : (scope : List Element) → apply cal (apply cal scope) ≡ apply cal scope
  unfolding apply
  apply_idem [] = refl
  apply_idem (e ∷ scope) = rw (apply_to_idem e, apply_idem scope)

module _ (cal : Calendar) (host : Speaks cal) where
  format_instant-ne_nil : (o : Options) (at : Option cal.Instant) → format_instant cal o at ≢ []
  unfolding format_instant
  format_instant-ne_nil o none = or_default-ne_nil o.invalid_label _ (λ e. cc)
  format_instant-ne_nil o (some at) =
      elim (Option-cases (cal.format_at o.locale (intl_options o) at)) [
        | inl e ↦ rw (e, format_instant) (host.iso at)
        | inr (t, e) ↦ rw (e, format_instant) (host.formats _ _ at t e)
      ]

  -- If the host's own texts are never empty, then the text that `format` gives is not empty, whatever
  -- the value and the options; the script's own label stands in for an empty one.
  pub format-ne_nil : (value : Option Text) (o : Options) → format cal value o ≢ []
  unfolding format
  format-ne_nil none o = or_default-ne_nil o.empty_label _ (λ e. cc)
  format-ne_nil (some s) o = elim (Bool-cases (is_empty (trim s))) [
    | inl blank ↦ rw blank (or_default-ne_nil o.empty_label _ (λ e. cc))
    | inr solid ↦ rw solid (format_instant-ne_nil o (cal.parse s))
  ]
