-- ===== src/ApiClients/Events.antt =====
-- The listeners of the pages of the API clients, `setupAPIClients` of web/static/admin.js, each cut
-- where it waits for the dialog or the server.
use secureshare.Prelude.{
  ℕ, Bool, true, false, List, [], ◌∷◌, Option, none, some, get_elem?, remove_at, modify_at,
  if◌then◌else◌,
}
use secureshare.Text.{Text, lit, trim, is_empty}
use secureshare.Json.{Json}
use secureshare.Time.{Calendar}
use secureshare.Fetch.{Reply, failed, answered, is_ok, body_or_empty}
use secureshare.Button.{set_button_loading}
use secureshare.Effect.{in_order, write}
use secureshare.Dialog
use secureshare.Dialog.{Dialog, Closing, ask, is_confirmed}
use secureshare.Composer.{Outcome, thrown, returned}
use secureshare.ApiClients.{
  ClientFields, ClientAction, rotate_secret, ActionButton, Call, create_client, client_action,
  Credentials, Page, announce, send, hide_result, show_credentials, question, finish_create,
}

abbrev pub set_disabled : ℕ → Bool → Page → Page
set_disabled i off p = record p {
  buttons = modify_at i (λ r. record r { disabled = off }) p.buttons;
}

-- The click listener of a button up to the dialog.
unfoldable pub start_ask : ℕ → Option ActionButton → Page → Page
start_ask i none p = p
start_ask i (some b) p =
    if b.disabled
    then p
    else let (title, message) = question b.action in
      record p { asking = some i; dialog = ask title message p.dialog }

-- From the confirmed dialog up to `fetch`.
unfoldable pub start_action : ℕ → Option ActionButton → Page → Page
start_action i none p = p
start_action i (some b) p =
    send (client_action i b.client_id b.action) (hide_result (set_disabled i true p))

-- The listener goes on with what the dialog holds once it has closed.
unfoldable pub resume : Option ℕ → Page → Page
resume none p = p
resume (some i) p = if is_confirmed p.dialog then start_action i (get_elem? p.buttons i) p else p

-- A good answer to a button.
unfoldable pub accept_action : ℕ → ClientAction → Json → Page → Page
accept_action i rotate_secret client p =
    (in_order
      (show_credentials client
        ∷ write (λ q. set_disabled i false (announce (lit "Client secret rotated.") q))
        ∷ [])
      p).0
accept_action i _ client p = record (announce (lit "API client updated.") p) { reloading = true }

-- From the answer on. A rejected `fetch` ends the listener.
unfoldable pub finish_action : ℕ → ClientAction → Reply → Page → Page
finish_action i action failed p = p
finish_action i action (answered status body) p =
    if is_ok status
    then accept_action i action (body_or_empty body) p
    else set_disabled i false (announce (lit "API client update failed.") p)

unfoldable pub finish : Option Call → Reply → Page → Page
finish none reply p = p
finish (some (create_client fields)) reply p = finish_create reply p
finish (some (client_action i id action)) reply p = finish_action i action reply p

-- The targets of the copy buttons.
pub data CopyTarget : Type 0 where
  copy_id copy_secret : CopyTarget

abbrev pub target_text : CopyTarget → Credentials → Text
target_text copy_id r = r.id
target_text copy_secret r = r.secret

pub data Event : Type 0 where
  type_fields : ClientFields → Event
  submit : Event
  click_copy : CopyTarget → Event
  click_action : ℕ → Event
  close_dialog : Closing → Event
  -- The answer to the pending request at this position.
  answer : ℕ → Reply → Event

-- What the submit listener does when the expiration has been read.
unfoldable pub request_client : Outcome Text → Page → Page
request_client (thrown message) p = record p { error_text = message }
request_client (returned at) p =
    send (create_client (record p.fields { expires_at = at }))
      (record p { create = set_button_loading true p.create })

module _ (cal : Calendar) where
  -- `expirationValue`.
  unfoldable pub expiration_value : Text → Outcome Text
  expiration_value raw =
      let value = trim raw in
      if is_empty value then returned [] else elim (cal.parse value) [
        | none ↦ thrown (lit "Expiration must be a valid date and time.")
        | some at ↦ returned (cal.to_iso at)
      ]

  -- The submit listener up to `fetch`.
  unfoldable pub start_create : Page → Page
  start_create p =
      request_client (expiration_value p.fields.expires_at)
        (record (hide_result p) { error_text = [] })

  -- While the dialog is open, the page behind it takes no clicks.
  unfoldable pub step : Page → Event → Page
  step p (type_fields f) = if p.dialog.is_open then p else record p { fields = f }
  step p submit = if p.dialog.is_open then p else if p.create.disabled then p else start_create p
  step p (click_copy target) =
      if p.dialog.is_open
      then p
      else if p.result.hidden
      then p
      else announce (lit "Copied.") (record p { clipboard = some (target_text target p.result) })
  step p (click_action i) = if p.dialog.is_open then p else start_ask i (get_elem? p.buttons i) p
  step p (close_dialog how) =
      if p.dialog.is_open
      then resume p.asking (record p { asking = none; dialog = Dialog.close how p.dialog })
      else p
  step p (answer k reply) =
      finish (get_elem? p.pending k) reply (record p { pending = remove_at k p.pending })

  unfoldable pub run : Page → List Event → Page
  run p [] = p
  run p (e ∷ es) = run (step p e) es
