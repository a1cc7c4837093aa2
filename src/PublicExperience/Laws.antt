-- ===== src/PublicExperience/Laws.antt =====
-- How a save of the recipients' language ends: `setupPublicExperienceSettings` of
-- web/static/admin.js.
use secureshare.Prelude.{if◌then◌else◌, text_eq, Option, none, ◌≡◌, Bool, [], ◌∷◌, some, map}
use mathlib.Core.Option
use secureshare.Text.{Text, lit, coalesce}
use secureshare.Json.{Json, Value, is_string, string, prop, or_value, content_text, value_text}
use secureshare.Fetch.{Reply, failed, answered, is_ok, body_or_empty, failure}
use secureshare.Button.{Button}
use secureshare.PublicExperience.{Page}

abbrev pub saved : Text
saved = lit "Public recipient language saved."

abbrev pub refusal : Text
refusal = lit "Public recipient language could not be saved."

abbrev pub offline : Text
offline = lit "Public recipient language could not be saved. Check your connection and try again."

-- The language that a body names, with its text.
abbrev pub named_locale : Json → Option (Value × Text)
named_locale body =
    Option.bind (prop (lit "public_locale") (some body))
      λ v. Option.map (λ t. (v, t)) (value_text v)

-- The language that an answer saves, if it is a good one.
abbrev pub saved_locale : Reply → Option (Value × Text)
saved_locale failed = none
saved_locale (answered status body) =
    if is_ok status then named_locale (body_or_empty body) else none

-- What the error line tells of an answer that saves nothing.
abbrev pub error_of : Reply → Text
error_of reply = coalesce (failure refusal offline reply) offline

-- The Persian name of Persian.
abbrev pub persian_name : Text
persian_name = 1601 ∷ 1575 ∷ 1585 ∷ 1587 ∷ 1740 ∷ []

module _ (set_parameter : Text → Text → Text) (p : Page) where
  -- By what the answer saves. The language is chosen, if the select offers it, the badge names it, the
  -- links lead to it, and this is told; or the language, the links and the badge stay, nothing is
  -- announced, and the error line says why.
  abbrev pub SaveEnds : Reply → Option (Value × Text) → Page → Type 0
  SaveEnds reply (some (v, t)) q =
      (q.locale ≡ (
        if text_eq t (lit "en") then lit "en" else if text_eq t (lit "fa") then lit "fa" else []))
      × (q.badge ≡ (if is_string (lit "fa") v then persian_name else lit "English"))
      × (q.links ≡ map (λ l. set_parameter l q.locale) p.links)
      × (q.status ≡ saved)
      × (q.error_text ≡ p.error_text)
      × (q.toasts ≡ saved ∷ p.toasts)
  SaveEnds reply none q =
      (q.locale ≡ p.locale)
      × (q.badge ≡ p.badge)
      × (q.links ≡ p.links)
      × (q.status ≡ [])
      × (q.error_text ≡ error_of reply)
      × (q.toasts ≡ p.toasts)

  -- What the `try` block and its `catch` leave.
  abbrev caught : Page × Bool → Page
  caught (q, threw) = if threw then record q { error_text = offline; status = [] } else q

  -- The text that a refusal is told with, if it has one.
  abbrev told_text : Json → Option Text
  told_text body =
      Option.bind (prop (lit "message") (some body))
        λ m. content_text (or_value m (some (string refusal)))
