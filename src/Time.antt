-- ===== src/Time.antt =====
-- web/static/time.js: the formatter of local times.
pub mod Laws
pub mod Start
use secureshare.Prelude.{
  Bool, true, false, List, [], ◌∷◌, Option, none, some, if◌then◌else◌, map, text_eq,
}
use secureshare.Text.{Text, lit, trim, or_default, coalesce, is_empty}

-- The options of `Intl.DateTimeFormat` that the script sets.
pub record IntlOptions : Type 0 where
  pub year : Text
  pub month : Text
  pub day : Text
  pub hour : Text
  pub minute : Text
  pub second : Option Text
  pub time_zone_name : Option Text
  pub time_zone : Option Text

abbrev pub default_options : IntlOptions
default_options = record {
  year = lit "numeric";
  month = lit "short";
  day = lit "2-digit";
  hour = lit "2-digit";
  minute = lit "2-digit";
  second = some (lit "2-digit");
  time_zone_name = some (lit "short");
  time_zone = none;
}

abbrev pub recipient_options : IntlOptions
recipient_options = record {
  year = lit "numeric";
  month = lit "long";
  day = lit "numeric";
  hour = lit "2-digit";
  minute = lit "2-digit";
  second = none;
  time_zone_name = none;
  time_zone = none;
}

-- What the script takes from the host's calendar and locale data, which differ between browsers.
pub record Calendar : Type 1 where
  pub Instant : Type 0
  -- `new Date(text)`; `none` is an invalid date.
  pub parse : Text → Option Instant
  -- `new Intl.DateTimeFormat(locale, options).format(instant)`; `none` is a RangeError.
  pub format_at : Option Text → IntlOptions → Instant → Option Text
  -- `instant.toISOString()`.
  pub to_iso : Instant → Text

-- The options of `format`; `none` is an option that is left out.
pub record Options : Type 0 where
  pub empty_label : Option Text
  pub invalid_label : Option Text
  pub locale : Option Text
  pub preset : Option Text
  pub time_zone : Option Text

abbrev pub no_options : Options
no_options = record {
  empty_label = none;
  invalid_label = none;
  locale = none;
  preset = none;
  time_zone = none;
}

abbrev is_recipient : Option Text → Bool
is_recipient none = false
is_recipient (some p) = text_eq p (lit "recipient")

-- `getAttribute(…) || undefined`, and the test `if (options.timeZone)`.
abbrev pub non_empty : Option Text → Option Text
non_empty none = none
non_empty (some []) = none
non_empty (some (c ∷ s)) = some (c ∷ s)

intl_options : Options → IntlOptions
intl_options o =
    let base = if is_recipient o.preset then recipient_options else default_options in
    elim (non_empty o.time_zone) [ none ↦ base | some z ↦ record base { time_zone = some z } ]

-- An element: its tag, the attributes that the script reads or writes, and its text.
pub record Element : Type 0 where
  pub is_time : Bool
  pub local_time : Option Text
  pub title : Option Text
  pub datetime : Option Text
  pub empty_label : Option Text
  pub invalid_label : Option Text
  pub time_locale : Option Text
  pub time_preset : Option Text
  pub text : Text

abbrev pub attribute_options : Element → Options
attribute_options e = record {
  empty_label = non_empty e.empty_label;
  invalid_label = non_empty e.invalid_label;
  locale = non_empty e.time_locale;
  preset = non_empty e.time_preset;
  time_zone = none;
}

-- The attributes that `render` sets for a text that is not blank.
abbrev stamp : Text → Element → Element
stamp [] e = e
stamp (c ∷ s) e = record e {
  local_time = some (c ∷ s);
  title = some (c ∷ s);
  datetime = if e.is_time then some (c ∷ s) else e.datetime;
}

module _ (cal : Calendar) where
  open cal use {Instant, parse, format_at, to_iso}

  format_instant : Options → Option Instant → Text
  unfolding intl_options
  format_instant o none = or_default o.invalid_label (lit "Invalid date")
  format_instant o (some at) = elim (format_at o.locale (intl_options o) at) [
    | none ↦ to_iso at
    | some t ↦ t
  ]

  format_text : Options → Text → Text
  unfolding format_instant
  format_text o s =
      if is_empty (trim s)
      then or_default o.empty_label (lit "Never")
      else format_instant o (parse s)

  -- `none` is null or undefined.
  unfoldable pub format : Option Text → Options → Text
  unfolding format_text
  format none o = or_default o.empty_label (lit "Never")
  format (some s) o = format_text o s

  abbrev raw_text : Option Text → Text
  raw_text none = []
  raw_text (some s) = trim s

  -- `render` on an element that is there.
  unfoldable pub render_on : Element → Option Text → Options → Element
  unfolding format
  render_on e value o =
      let raw = raw_text value in record (stamp raw e) { text = format (some raw) o }

  unfoldable pub render : Option Element → Option Text → Options → Option Element
  unfolding render_on
  render none value o = none
  render (some e) value o = some (render_on e value o)

  -- One element of the sweep; `querySelectorAll` passes over those without the attribute.
  apply_to : Element → Element
  unfolding render_on
  apply_to e = elim e.local_time [ none ↦ e | some v ↦ render_on e (some v) (attribute_options e) ]

  unfoldable pub apply : List Element → List Element
  unfolding apply_to
  apply scope = map apply_to scope
