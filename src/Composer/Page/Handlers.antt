-- ===== src/Composer/Page/Handlers.antt =====
-- The handlers of the create page, in `setupCreateSecret` of web/static/admin.js, each cut where it
-- waits for the server.
use secureshare.Prelude.{
  ℕ, Bool, true, false, [], ◌∷◌, ◌++◌, Option, none, some, if◌then◌else◌, ◌==◌,
}
use mathlib.Core.Option
use secureshare.Text.{Text, lit, is_empty, coalesce}
use secureshare.Json.{Json, string, prop, opt_prop, or_value, is_string, value_text, content_text}
use secureshare.Time.{Calendar}
use secureshare.Fetch.{Reply, failed, answered, is_ok, body_or_empty}
use secureshare.Button.{set_button_loading}
use secureshare.Effect.{Effect, in_order, write, write_text}
use secureshare.Composer.{Host, thrown, returned}
use secureshare.Composer.Rows
use secureshare.Composer.Payload.{payload_model}
use secureshare.Composer.Page.{
  Page, Mode, structured_mode, plain_mode, by_link, blank_inputs, Submission, Call, create, revoke,
  preview, send_email, send, announce, submission,
}
use secureshare.Composer.Page.Result.{fill_result}

abbrev pub is_structured : Mode → Bool
is_structured structured_mode = true
is_structured plain_mode = false

abbrev pub loading : Bool → Page → Page
loading on p = record p { submit = set_button_loading on p.submit }

-- The status line shows `message || ""`.
abbrev pub set_status : Text → Page → Page
set_status message p = record p { status = message }

-- The submit listener up to `fetch`.
unfoldable pub start_submit : Host → Page → Page
start_submit host p =
    let q = record p { status = []; result_hidden = true } in
    elim (payload_model host (is_structured p.mode) p.form.rows p.inputs.secret_plain
      p.inputs.is_json) [
        | thrown message ↦ set_status message q
        | returned payload ↦
            send (create (submission p payload))
              (set_status (lit "Creating encrypted one-time link...") (loading true q))
      ]

-- `setStatus(body.message || "The secure link could not be created.")`.
unfoldable pub refuse_submit : Json → Effect Page
refuse_submit body p =
    write_text
      (Option.bind (prop (lit "message") (some body)) λ m.
        content_text (or_value m (some (string (lit "The secure link could not be created.")))))
      set_status p

-- The `try` block of the submit listener, from the answer on. There is no `catch`.
unfoldable pub read_submit : Calendar → Submission → Reply → Effect Page
read_submit cal s failed p = (p, true)
read_submit cal s (answered status body) p =
    if is_ok status
    then in_order
        (fill_result cal (body_or_empty body) s
          ∷ write (λ q.
            announce (lit "One-time link created.") (set_status (lit "Secure link created.") q))
          ∷ [])
        p
    else refuse_submit (body_or_empty body) p

unfoldable pub finish_submit : Calendar → Submission → Reply → Page → Page
finish_submit cal s reply p = loading false (read_submit cal s reply p).0

-- `createdID` in the path of a request.
unfoldable pub start_revoke : Page → Page
start_revoke p = elim (value_text p.created_id) [ none ↦ p | some id ↦ send (revoke id) p ]

unfoldable pub finish_revoke : Reply → Page → Page
finish_revoke failed p = p
finish_revoke (answered status body) p =
    if is_ok status
    then announce (lit "Link revoked.") (record p { revoke_disabled = true })
    else announce (lit "The link was already unavailable.") p

unfoldable pub create_another : Host → Page → Page
create_another host p = record p {
  inputs = blank_inputs;
  created_id = some (string []);
  created_payload = none;
  result_hidden = true;
  mode = structured_mode;
  delivery_mode = by_link;
  status = [];
  form = Rows.step host p.form Rows.create_another;
}

unfoldable pub start_preview : Page → Page
start_preview p = send (preview p.inputs.delivery_subject p.inputs.delivery_message) p

-- What the status of the delivery becomes; `none` is a TypeError.
unfoldable pub preview_text : ℕ → Json → Option Text
preview_text status body =
    if is_ok status
    then (Option.bind (prop (lit "subject") (some body)) λ s.
        Option.map (λ t. lit "Preview ready: " ++ t ++ lit ".")
          (value_text (or_value s (some (string (lit "default subject"))))))
    else (Option.bind (prop (lit "message") (some body))
        λ m. content_text (or_value m (some (string (lit "Preview failed.")))))

unfoldable pub finish_preview : Reply → Page → Page
finish_preview failed p = p
finish_preview (answered status body) p =
    (write_text (preview_text status (body_or_empty body)) (λ t q. record q { delivery_status = t })
      p).0

-- What stands behind the last `#`.
unfoldable pub after_hash : Text → Option Text
after_hash [] = none
after_hash (c ∷ s) = elim (after_hash s) [
  | some t ↦ some t
  | none ↦ if c == b'#' then some s else none
]

-- `url.includes("#") ? url.split("#").pop() : ""`.
abbrev pub token_of_url : Text → Text
token_of_url url = coalesce (after_hash url) []

unfoldable pub start_email : Page → Page
start_email p =
    let token = token_of_url p.created.url in
    if is_empty token
    then announce (lit "Retry is unavailable after the raw token is gone.") p
    else send (send_email token p.created.retry) p

-- The toast for an answer to a retried email; `none` is a TypeError.
unfoldable pub email_toast : ℕ → Json → Option Text
email_toast status body =
    if is_ok status
    then Option.map
        (λ email.
          if is_string (lit "sent") (opt_prop (lit "status") email)
          then lit "Email retry sent."
          else lit "Email retry failed.")
        (prop (lit "email") (some body))
    else some (lit "Email retry failed.")

unfoldable pub finish_email : Reply → Page → Page
finish_email failed p = p
finish_email (answered status body) p =
    (write_text (email_toast status (body_or_empty body)) announce p).0

unfoldable pub finish : Calendar → Option Call → Reply → Page → Page
finish cal none reply p = p
finish cal (some (create s)) reply p = finish_submit cal s reply p
finish cal (some (revoke id)) reply p = finish_revoke reply p
finish cal (some (preview subject message)) reply p = finish_preview reply p
finish cal (some (send_email token fields)) reply p = finish_email reply p
