-- ===== src/Tests/Clock.antt =====
-- web/static/time.js on a small calendar.
use secureshare.Prelude.{◌≡◌, ◌≢◌, refl, [], ◌∷◌, Option, none, some, true, if◌then◌else◌, text_eq}
use secureshare.Text.{Text, lit, trim}
use secureshare.Time.{Calendar, IntlOptions, Element, apply}
use secureshare.Time.Laws.{Speaks, apply_idem}

-- A host that knows one date, and no locale but the default.
abbrev pub one_day : Calendar
one_day = record {
  Instant = Unit {0};
  parse = λ t. if text_eq t (lit "2026-01-02") then some tt else none;
  format_at = λ l o at. elim l [ none ↦ some (lit "Jan 02, 2026") | some _ ↦ none ];
  to_iso = λ at. lit "2026-01-02T00:00:00.000Z";
}

one_day-formats :
    (l : Option Text) (o : IntlOptions) (at : Unit {0}) (t : Text)
    → one_day.format_at l o at ≡ some t
    → t ≢ []
one_day-formats none o at t e = λ nil. cc
one_day-formats (some l) o at t e = λ nil. cc

pub one_day-Speaks : Speaks one_day
one_day-Speaks = record { formats = one_day-formats; iso = λ at e. cc }

abbrev pub stamped : Element
stamped = record {
  is_time = true;
  local_time = some (lit " 2026-01-02 ");
  title = none;
  datetime = none;
  empty_label = none;
  invalid_label = none;
  time_locale = none;
  time_preset = none;
  text = [];
}

apply-stamped :
    (apply one_day (stamped ∷ []))
    ≡ record stamped {
      local_time = some (lit "2026-01-02");
      title = some (lit "2026-01-02");
      datetime = some (lit "2026-01-02");
      text = lit "Jan 02, 2026";
    }
      ∷ []
unfolding apply trim text_eq
apply-stamped = refl

apply_idem_example : apply one_day (apply one_day (stamped ∷ [])) ≡ apply one_day (stamped ∷ [])
apply_idem_example = apply_idem one_day (stamped ∷ [])
