-- ===== src/Fetch.antt =====
-- What the scripts of web/static take from `fetch`, and how the handlers of admin.js read a refusal.
use secureshare.Prelude.{ℕ, Bool, if◌then◌else◌, Option, none, some, ◌/◌, ◌==◌}
use mathlib.Core.Option
use secureshare.Text.{Text, lit}
use secureshare.Json.{Json, string, object, end, prop, or_value, content_text}

-- What becomes of a `fetch`: a rejection, or a status and what `response.json()` gives, `none` if
-- the body is no JSON.
pub data Reply : Type 0 where
  failed : Reply
  answered : ℕ → Option Json → Reply

-- `response.ok`.
abbrev pub is_ok : ℕ → Bool
is_ok status = status / 100 == 2

-- `response.json().catch(() => ({}))`.
abbrev pub body_or_empty : Option Json → Json
body_or_empty none = object end
body_or_empty (some v) = v

-- What a handler shows for an answer, `none` for a good one: `body.message || refusal`. What the
-- `try` block throws, its `catch` turns into the offline message.
unfoldable pub failure : Text → Text → Reply → Option Text
failure refusal offline failed = some offline
failure refusal offline (answered status body) =
    if is_ok status
    then none
    else elim (Option.bind (prop (lit "message") (some (body_or_empty body)))
        λ m. content_text (or_value m (some (string refusal)))) [
          | none ↦ some offline
          | some t ↦ some t
        ]
