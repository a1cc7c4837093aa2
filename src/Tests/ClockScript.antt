-- ===== src/Tests/ClockScript.antt =====
-- scripts/time-formatter-test.js, the repository's own test of web/static/time.js, on the model; what
-- depends on the host's locale data is left out.
use secureshare.Prelude.{◌≡◌, refl, true, none, some, []}
use secureshare.Text.{Text, lit, trim}
use secureshare.Time.{Calendar, Options, no_options, Element, format, render_on}

abbrev local_options : Options
local_options = record no_options {
  locale = some (lit "en-US");
  time_zone = some (lit "Asia/Tehran");
}

abbrev known_recipient_utc : Text
known_recipient_utc = lit "2026-08-10T13:03:00Z"

abbrev persian_options : Options
persian_options = record no_options {
  locale = some (lit "fa-IR-u-ca-persian");
  preset = some (lit "recipient");
  time_zone = some (lit "Asia/Tehran");
}

abbrev unavailable_options : Options
unavailable_options = record no_options {
  preset = some (lit "recipient");
  empty_label = some (lit "Unavailable");
}

abbrev invalid_options : Options
invalid_options = record no_options {
  preset = some (lit "recipient");
  invalid_label = some (lit "Invalid recipient date");
}

abbrev element : Element
element = record {
  is_time = true;
  local_time = none;
  title = none;
  datetime = none;
  empty_label = none;
  invalid_label = none;
  time_locale = none;
  time_preset = none;
  text = [];
}

abbrev new_year : Text
new_year = lit "2026-01-01T00:00:00Z"

module _ (cal : Calendar) (invalid : cal.parse (lit "not-a-timestamp") ≡ none) where
  labels :
      (format cal none (record no_options { empty_label = some (lit "Never") }) ≡ lit "Never")
      × (format cal (some (lit "not-a-timestamp")) no_options ≡ lit "Invalid date")
      × (format cal none unavailable_options ≡ lit "Unavailable")
      × (format cal (some (lit "not-a-timestamp")) invalid_options ≡ lit "Invalid recipient date")
  unfolding format trim
  labels = rw invalid (refl, refl, refl, refl)

module _ (cal : Calendar) where
  attributes :
      let once = render_on cal element (some new_year) local_options in
      let twice = render_on cal once (some known_recipient_utc) persian_options in
      (once.title ≡ some new_year)
      × (once.datetime ≡ some new_year)
      × (once.local_time ≡ some new_year)
      × (twice.datetime ≡ some known_recipient_utc)
      × (twice.title ≡ some known_recipient_utc)
  unfolding render_on trim
  attributes = (refl, refl, refl, refl, refl)
