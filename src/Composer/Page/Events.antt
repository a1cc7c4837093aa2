-- ===== src/Composer/Page/Events.antt =====
-- What drives the create page: its listeners, the answers of the server, and the dialog.
pub mod Laws
pub mod Requests
pub mod Keeps
use secureshare.Prelude.{
  ℕ, Bool, true, false, not, ◌&&◌, ◌||◌, List, [], ◌∷◌, Option, none, some, get_elem?, remove_at,
  if◌then◌else◌,
}
use secureshare.Text.{Text, lit, is_empty}
use secureshare.Json.{string, truthy}
use secureshare.Time.{Calendar}
use secureshare.Fetch.{Reply}
use secureshare.Button.{Button}
use secureshare.Dialog
use secureshare.Dialog.{Dialog, Closing, ask, is_confirmed}
use secureshare.Composer.{Host}
use secureshare.Composer.Rows
use secureshare.Composer.Page.{
  Page, Created, Inputs, blank_inputs, Mode, structured_mode, plain_mode, DeliveryMode, by_link,
  by_email, Retry, announce,
}
use secureshare.Composer.Page.Result.{in_panel}
use secureshare.Composer.Page.Handlers.{
  is_structured, start_submit, start_revoke, create_another, start_preview, start_email, finish,
}

-- What the user does outside the dialog.
pub data Action : Type 0 where
  pick_mode : Mode → Action
  pick_delivery : DeliveryMode → Action
  -- The rows: their buttons, the field picker, and typing.
  on_rows : Rows.Event → Action
  type_inputs : Inputs → Action
  click_submit click_copy click_revoke click_another click_preview click_email : Action
  type_retry : Retry → Action

pub data Event : Type 0 where
  act : Action → Event
  close_dialog : Closing → Event
  -- The answer to the pending request at this position.
  answer : ℕ → Reply → Event

-- The input listener of the form.
unfoldable pub on_input : Page → Page
on_input p = record p {
  password_summary =
      if is_empty p.inputs.password
      then lit "Password protection is optional."
      else lit "Password protection is enabled for this link.";
  created_payload = none;
}

abbrev pub is_by_email : DeliveryMode → Bool
is_by_email by_link = false
is_by_email by_email = true

-- The rows of the form: typing is an input of the form too, and so is a choice of the field picker, a
-- select whose `input` event comes before its `change` event. The rows have no event of their own
-- for `#create-another`.
abbrev pub change_rows : Host → Rows.Event → Page → Page
change_rows host Rows.create_another p = p
change_rows host (Rows.edit i r) p =
    on_input (record p { form = Rows.step host p.form (Rows.edit i r) })
change_rows host (Rows.pick key) p =
    on_input (record p { form = Rows.step host p.form (Rows.pick key) })
change_rows host e p = record p { form = Rows.step host p.form e }

-- The listener of the revoke button goes on with what the dialog holds once it has closed.
unfoldable pub resume : Page → Page
resume p = if is_confirmed p.dialog then start_revoke p else p

module _ (cal : Calendar) (host : Host) where
  -- A browser sends clicks and keys only to what is on display and enabled.
  unfoldable pub take_action : Action → Page → Page
  take_action (pick_mode m) p = record p { mode = m }
  take_action (pick_delivery m) p = record p { delivery_mode = m }
  take_action (on_rows e) p = if is_structured p.mode then change_rows host e p else p
  take_action (type_inputs i) p = on_input (record p { inputs = i })
  take_action click_submit p = if p.submit.disabled then p else start_submit host p
  take_action click_copy p =
      if p.result_hidden
      then p
      else announce (lit "One-time URL copied.") (record p { clipboard = some p.created.url })
  take_action click_revoke p =
      if not p.result_hidden && not p.revoke_disabled && truthy p.created_id
      then record p {
        dialog =
            ask (lit "Revoke this link?")
              (lit "Recipients will no longer be able to reveal this secret.") p.dialog;
      }
      else p
  take_action click_another p = if p.result_hidden then p else create_another host p
  take_action click_preview p = if is_by_email p.delivery_mode then start_preview p else p
  take_action click_email p =
      if not p.result_hidden && not p.created.retry_hidden then start_email p else p
  take_action (type_retry r) p =
      if not p.result_hidden && not p.created.retry_hidden
      then in_panel (λ c. record c { retry = r }) p
      else p

  -- While the dialog is open, it takes the clicks and keys; answers arrive nevertheless.
  unfoldable pub step : Page → Event → Page
  step p (act a) = if p.dialog.is_open then p else take_action a p
  step p (close_dialog how) =
      if p.dialog.is_open then resume (record p { dialog = Dialog.close how p.dialog }) else p
  step p (answer i reply) =
      finish cal (get_elem? p.pending i) reply (record p { pending = remove_at i p.pending })

  unfoldable pub run : Page → List Event → Page
  run p [] = p
  run p (e ∷ es) = run (step p e) es
