-- ===== src/EmailSettings/Answers.antt =====
-- What the listeners of `setupEmailSettings` in web/static/admin.js make of the server's answers.
use secureshare.Prelude.{
  ℕ, Bool, true, false, ◌||◌, List, [], ◌∷◌, ◌++◌, Option, none, some, text_eq, if◌then◌else◌,
}
use mathlib.Core.Option
use secureshare.Text.{Text, lit, is_empty, join}
use secureshare.Json.{
  Json, boolean, string, array, object, Items, nil, cons, Fields, end, field, Value, prop, own,
  opt_prop, truthy, or_value, value_text, content_text, to_text,
}
use secureshare.Fetch.{Reply, failed, answered, is_ok, body_or_empty}
use secureshare.Effect.{Effect, in_order, write, write_text}
use secureshare.EmailSettings.{
  field_names, EmailAction, test_connection, enable, disable, Page, announce, set_status,
}

abbrev pub one_of : Text → List Text → Bool
one_of t [] = false
one_of t (s ∷ ss) = text_eq t s || one_of t ss

-- `aria-invalid` on the field of this name, where the form has one.
abbrev pub mark : Text → Page → Page
mark name p = if one_of name field_names then record p { invalid = name ∷ p.invalid } else p

-- `Object.entries(fields)`. The names of the items of an array are numbers, which no field has; a
-- name in an answer holds no quote and no backslash.
abbrev entries_of_items : Items → List (Text × Json)
entries_of_items nil = []
entries_of_items (cons v vs) = ([], v) ∷ entries_of_items vs

abbrev entries_of_fields : Fields → List (Text × Json)
entries_of_fields end = []
entries_of_fields (field k v rest) = (k, v) ∷ entries_of_fields rest

abbrev pub entries : Value → List (Text × Json)
entries (some (array vs)) = entries_of_items vs
entries (some (object fs)) = entries_of_fields fs
entries _ = []

-- The fields are marked one after the other; `none` is a TypeError of `String(message)`.
unfoldable pub field_messages : List (Text × Json) → Page → Page × Option (List Text)
field_messages [] p = (p, some [])
field_messages ((name, message) ∷ es) p =
    let (q, rest) = field_messages es (mark name p) in
    elim (to_text message) [
      | none ↦ (mark name p, none)
      | some t ↦ (q, Option.map (λ ts. t ∷ ts) rest)
    ]

abbrev pub non_empty_texts : List Text → List Text
non_empty_texts [] = []
non_empty_texts (t ∷ ts) = if is_empty t then non_empty_texts ts else t ∷ non_empty_texts ts

-- `smtpErrorMessage`.
unfoldable pub smtp_error_message : Json → Text → Page → Page × Option Text
smtp_error_message body fallback p =
    let (q, messages) = field_messages (entries (opt_prop (lit "fields") (some body))) p in
    (
      q,
      Option.bind messages λ ts.
          Option.bind
            (value_text (or_value (opt_prop (lit "message") (some body)) (some (string fallback))))
            λ t. some (join (lit " ") (t ∷ non_empty_texts ts)),
    )

-- Its text is written; nothing more happens if it throws.
unfoldable pub write_error : Json → Text → (Text → Page → Page) → Effect Page
write_error body fallback change p =
    let (q, message) = smtp_error_message body fallback p in write_text message change q

-- How `saveCurrentSettings` ends.
pub data Saved : Type 0 where
  rejected refused saved : Saved

abbrev pub clear_password : Page → Page
clear_password p = record p {
  settings = record p.settings { smtp_password = []; clear_smtp_password = false };
}

-- `status.textContent = body.password_configured ? … : …`, with the toast.
unfoldable pub announce_save : Json → Effect Page
announce_save body =
    write_text
      (Option.map
        (λ configured.
          if truthy configured
          then lit "Settings saved. Password configured."
          else lit "Settings saved. No password is stored.")
        (prop (lit "password_configured") (some body)))
      (λ t p. announce (lit "Email settings saved.") (set_status t p))

-- `saveCurrentSettings` from the answer on.
unfoldable pub read_saved : Bool → Reply → Page → Page × Saved
read_saved tells failed p = (p, rejected)
read_saved tells (answered status body) p =
    if is_ok status
    then (let (q, threw) = announce_save (body_or_empty body) (clear_password p) in
        if tells then (q, if threw then rejected else saved) else (clear_password p, saved))
    else (let (q, threw) =
          write_error (body_or_empty body) (lit "Email settings could not be saved.")
            (λ t r. record r { error_text = t }) p in
        (q, if threw then rejected else refused))

-- `body.ok ? good(body.duration_ms) : smtpErrorMessage(body, bad)`, into a status line.
unfoldable pub timed : Json → Text → Text → (Text → Page → Page) → Effect Page
timed body good bad change p = elim (prop (lit "ok") (some body)) [
  | none ↦ (p, true)
  | some ok ↦
      if truthy ok
      then write_text
          (Option.map (λ t. good ++ t ++ lit " ms.") (value_text (own (lit "duration_ms") body)))
          change p
      else write_error body bad change p
]

-- The status line of an action.
unfoldable pub action_status : EmailAction → ℕ → Json → Effect Page
action_status test_connection status body p =
    timed body (lit "Connection test succeeded in ") (lit "Connection test failed.") set_status p
action_status enable status body p =
    if is_ok status
    then (set_status (lit "SMTP delivery enabled.") p, false)
    else write_error body (lit "SMTP delivery could not be enabled.") set_status p
action_status disable status body p =
    if is_ok status
    then (set_status (lit "SMTP delivery disabled.") p, false)
    else write_error body (lit "SMTP delivery could not be disabled.") set_status p

-- `body.ok !== false`.
abbrev pub is_not_false : Value → Bool
is_not_false (some (boolean false)) = false
is_not_false _ = true

-- The toast of an action; `body.ok` is read after a good status alone.
unfoldable pub action_toast : ℕ → Json → Option Text
action_toast status body =
    if is_ok status
    then Option.map
        (λ ok.
          if is_not_false ok
          then lit "Email settings action completed."
          else lit "Email settings action finished with warnings.")
        (prop (lit "ok") (some body))
    else some (lit "Email settings action finished with warnings.")

unfoldable pub read_action : EmailAction → Reply → Effect Page
read_action a failed p = (p, true)
read_action a (answered status body) p =
    in_order
      (action_status a status (body_or_empty body)
        ∷ write_text (action_toast status (body_or_empty body)) announce
        ∷ [])
      p

unfoldable pub read_test : Reply → Effect Page
read_test failed p = (p, true)
read_test (answered status body) p =
    timed (body_or_empty body) (lit "Test email sent in ") (lit "Test email failed.")
      (λ t q. record q { test_status = t }) p

-- `Subject: ${body.subject}\n\n${body.text}`.
abbrev pub preview_of : Json → Option Text
preview_of body = Option.bind (prop (lit "subject") (some body)) λ subject.
    Option.bind (value_text subject) λ s.
      Option.map (λ t. lit "Subject: " ++ s ++ 10 ∷ 10 ∷ t) (value_text (own (lit "text") body))

unfoldable pub read_preview : Reply → Effect Page
read_preview failed p = (p, true)
read_preview (answered status body) p =
    let b = body_or_empty body in
    if is_ok status
    then in_order
        (write_text (preview_of b) (λ t q. record q { preview_text = t })
          ∷ write_text (value_text (or_value (own (lit "html") b) (some (string []))))
              (λ t q. record q { preview_html = t })
          ∷ write (λ q. record q { preview_hidden = false })
          ∷ [])
        p
    else write_text
        (Option.bind (prop (lit "message") (some b)) λ m.
          content_text
            (or_value m (some (string (lit "Template preview could not be generated.")))))
        set_status p
