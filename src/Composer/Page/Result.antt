-- ===== src/Composer/Page/Result.antt =====
-- `fillResult` of web/static/admin.js: the answer to a created link, written into its panel.
pub mod Laws
use secureshare.Prelude.{
  Bool, true, false, not, List, [], ◌∷◌, ◌++◌, Option, none, some, if◌then◌else◌, ◌==◌, ◌||◌,
}
use mathlib.Core.Option
use secureshare.Text.{Text, lit, or_text, or_default}
use secureshare.Json.{
  Json, null, boolean, string, object, end, field, Value, prop, own, opt_prop, truthy, or_value,
  value_text, content_text, to_text,
}
use secureshare.Time
use secureshare.Time.{Calendar, Element}
use secureshare.Effect.{Effect, in_order, write, write_text}
use secureshare.Composer.Page.{Page, Created, Submission, Email, Retry, selected_lifetime_label}

-- The text that `input.value = value` sets in a field of one line.
abbrev pub single_line : Text → Text
single_line [] = []
single_line (c ∷ s) = if c == 10 || c == 13 then single_line s else c ∷ single_line s

-- Null sets the empty text.
unfoldable pub field_text : Value → Option Text
field_text (some null) = some []
field_text v = Option.map single_line (value_text v)

-- `String(value).trim()` in `render` of time.js, for what is not null or undefined.
unfoldable pub time_value : Value → Option (Option Text)
time_value none = some none
time_value (some null) = some none
time_value (some v) = Option.map some (to_text v)

abbrev pub empty_label : Text → Time.Options
empty_label label = record Time.no_options { empty_label = some label }

-- `response.delivery?.email || { requested: false, status: "not_requested" }`.
abbrev pub email_answer : Json → Value
email_answer body = or_value (opt_prop (lit "email") (own (lit "delivery") body)) (
    some (
      object (
        field (lit "requested") (boolean false)
          (field (lit "status") (string (lit "not_requested")) end))))

-- ` to ${email.to}`, where there is one.
abbrev pub to_suffix : Value → Option Text
to_suffix to = if truthy to then Option.map (λ t. lit " to " ++ t) (value_text to) else some []

unfoldable pub email_status : Value → Option Text
email_status email =
    if truthy (opt_prop (lit "requested") email)
    then (Option.bind (value_text (opt_prop (lit "status") email))
        λ status. Option.map (λ suffix. status ++ suffix) (to_suffix (opt_prop (lit "to") email)))
    else some (lit "Not requested")

abbrev pub retry_of : Option Email → Retry
retry_of none = record { to = []; recipient_name = []; subject = []; message = [] }
retry_of (some e) = record {
  to = e.to;
  recipient_name = e.recipient_name;
  subject = e.subject;
  message = e.message;
}

abbrev pub yes_no : Option Text → Text
yes_no none = lit "No"
yes_no (some password) = lit "Yes"

-- A change of the panel.
abbrev pub in_panel : (Created → Created) → Page → Page
in_panel change p = record p { created = change p.created }

module _ (cal : Calendar) where
  -- `renderLocalTime`; time.js has run before, as in the template.
  abbrev pub render_local_time : Text → Element → Value → Option Element
  render_local_time label e v =
      Option.map (λ t. Time.render_on cal e t (empty_label label)) (time_value v)

  abbrev pub write_time :
      Text → Value → (Created → Element) → (Element → Created → Created) → Effect Page
  write_time label v which change p = elim (render_local_time label (which p.created) v) [
    | none ↦ (p, true)
    | some e ↦ (in_panel (change e) p, false)
  ]

  unfoldable pub put_id : Json → Effect Page
  put_id body =
      write_text (content_text (own (lit "id") body)) (λ t. in_panel (λ r. record r { id = t }))

  unfoldable pub put_expires : Json → Effect Page
  put_expires body =
      write_time (lit "Invalid date") (own (lit "expires_at") body) (λ r. r.expires)
        (λ e r. record r { expires = e })

  unfoldable pub put_facts : Submission → Effect Page
  put_facts s = write (λ p.
      in_panel
        (λ r. record r {
          lifetime = selected_lifetime_label p.inputs;
          password = yes_no s.password;
          recipient = or_text s.recipient_reference (lit "Not provided");
        })
        p)

  unfoldable pub put_url : Json → Effect Page
  put_url body =
      write_text (field_text (own (lit "url") body)) (λ t. in_panel (λ r. record r { url = t }))

  unfoldable pub put_email_status : Json → Effect Page
  put_email_status body =
      write_text (email_status (email_answer body))
        (λ t. in_panel (λ r. record r { email_status = t }))

  unfoldable pub put_sent_at : Json → Effect Page
  put_sent_at body =
      write_time (lit "Not sent") (opt_prop (lit "sent_at") (email_answer body)) (λ r. r.email_sent)
        (λ e r. record r { email_sent = e })

  unfoldable pub put_retry : Json → Submission → Effect Page
  put_retry body s = write (
      in_panel (λ r. record r {
        retry_hidden = not (truthy (opt_prop (lit "requested") (email_answer body)));
        retry = retry_of s.email;
      }))

  unfoldable pub put_link_to : Json → Effect Page
  put_link_to body =
      write_text (Option.map (λ t. lit "/admin/secrets/" ++ t) (value_text (own (lit "id") body)))
        (λ t. in_panel (λ r. record r { meta_href = t }))

  unfoldable pub open_panel : Effect Page
  open_panel = write (λ p. record p { revoke_disabled = false; result_hidden = false })

  -- What follows the id.
  abbrev pub rest_steps : Json → Submission → List (Effect Page)
  rest_steps body s =
      put_expires body
      ∷ put_facts s
      ∷ put_url body
      ∷ put_email_status body
      ∷ put_sent_at body
      ∷ put_retry body s
      ∷ put_link_to body
      ∷ open_panel
      ∷ []

  unfoldable pub fill_result : Json → Submission → Effect Page
  unfolding put_id put_expires put_facts put_url put_email_status put_sent_at put_retry put_link_to
      open_panel
  fill_result null s p = (p, true)
  fill_result body s p =
      in_order (put_id body ∷ rest_steps body s)
        (record p { created_id = own (lit "id") body; created_payload = some s })
