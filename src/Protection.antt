-- ===== src/Protection.antt =====
-- `setupPasswordProtection` of web/static/admin.js on the page of a link, web/templates/secret_detail.html,
-- all elements present. Each handler is cut where it waits for the server.
pub mod Laws
pub mod Outcomes
use secureshare.Prelude.{
  ℕ, Bool, true, false, not, ◌&&◌, ◌||◌, List, [], ◌∷◌, ◌++◌, Option, none, some, get_elem?,
  remove_at, if◌then◌else◌,
}
use mathlib.Core.Option
use secureshare.Text.{Text, lit}
use secureshare.Json.{Json, string, Value, prop, or_value, content_text}
use secureshare.Fetch.{failure, Reply, failed, answered, is_ok, body_or_empty}
use secureshare.Dialog
use secureshare.Dialog.{Dialog, Closing, ask, is_confirmed}
use secureshare.Button.{Button, set_button_loading}

-- A handler that waits for the answer to its request, with the local that it reads afterwards: the
-- submit handler with its `password` and `wasProtected`, or the one of the remove button.
pub data Call : Type 0 where
  put_password : Text → Bool → Call
  delete_password : Call

pub record Page : Type 0 where
  pub is_protected : Bool  -- `form.dataset.passwordProtected === "true"`
  pub status : Text
  pub badge : Text
  pub guidance : Text
  pub save : Button
  pub remove : Button
  pub remove_hidden : Bool
  pub error_text : Text
  pub password : Text  -- the password field
  pub dialog : Dialog
  pub asking : Bool  -- the handler of the remove button waits for the dialog
  pub toasts : List Text
  pub pending : List Call

abbrev pub guidance_text : Bool → Text
guidance_text true =
    lit
      "The current link password cannot be recovered. If it was lost, you can replace it with a new password."
guidance_text false = lit "This active link does not currently require a separate password."

abbrev pub save_text : Bool → Text
save_text b = if b then lit "Replace password" else lit "Set password"

unfoldable pub update_protection_ui : Bool → Page → Page
update_protection_ui now p = record p {
  is_protected = now;
  status = if now then lit "Yes" else lit "No";
  badge = if now then lit "Protected" else lit "Not protected";
  guidance = guidance_text now;
  save = record p.save { text = save_text now };
  remove_hidden = not now;
}

abbrev pub wait_for : Call → Page → Page
wait_for call p = record p { pending = p.pending ++ call ∷ [] }

-- The submit handler up to `fetch`.
unfoldable pub start_save : Page → Page
unfolding set_button_loading
start_save p =
    wait_for (put_password p.password p.is_protected)
      (record p { error_text = []; save = set_button_loading true p.save })

-- The handler of the remove button up to the dialog.
unfoldable pub ask_remove : Page → Page
ask_remove p = record p {
  asking = true;
  dialog =
      ask (lit "Remove link password?")
        (lit "The same one-time URL will remain active without password protection.") p.dialog;
}

-- From the confirmed dialog up to `fetch`.
unfoldable pub start_remove : Page → Page
unfolding set_button_loading
start_remove p =
    wait_for delete_password
      (record p { error_text = []; remove = set_button_loading true p.remove })

abbrev pub announce : Text → Page → Page
announce t p = record p { toasts = t ∷ p.toasts }

-- The text of the error line for an answer to each button, `none` if the link was updated.
abbrev pub save_failure : Reply → Option Text
save_failure =
    failure (lit "Link password could not be updated.")
      (lit "Link password could not be updated. Check your connection and try again.")

abbrev pub remove_failure : Reply → Option Text
remove_failure =
    failure (lit "Link password could not be removed.")
      (lit "Link password could not be removed. Check your connection and try again.")

-- The rest of the submit handler.
unfoldable pub finish_save : Bool → Reply → Page → Page
unfolding set_button_loading
finish_save was_protected reply p =
    let idle = record p { save = set_button_loading false p.save } in
    elim (save_failure reply) [
      | some t ↦ record idle { error_text = t }
      | none ↦
          announce
            (if was_protected then lit "Link password replaced." else lit "Link password set.")
            (update_protection_ui true (record idle { password = [] }))
    ]

-- The rest of the handler of the remove button.
unfoldable pub finish_remove : Reply → Page → Page
unfolding set_button_loading
finish_remove reply p =
    let idle = record p { remove = set_button_loading false p.remove } in
    elim (remove_failure reply) [
      | some t ↦ record idle { error_text = t }
      | none ↦
          announce (lit "Link password removed.")
            (update_protection_ui false (record idle { password = [] }))
    ]

pub data Event : Type 0 where
  submit : Event
  click_remove : Event
  close_dialog : Closing → Event
  type_password : Text → Event
  -- The answer to the pending request at this position.
  answer : ℕ → Reply → Event

unfoldable pub finish : Option Call → Reply → Page → Page
finish none reply p = p
finish (some (put_password w was_protected)) reply p = finish_save was_protected reply p
finish (some delete_password) reply p = finish_remove reply p

-- The handler of the remove button goes on with what the dialog holds once it has closed.
unfoldable pub resume : Bool → Page → Page
resume asked p = if asked && is_confirmed p.dialog then start_remove p else p

-- A browser submits a form, and clicks, only by a button that is enabled and on display, and that no
-- open dialog covers; the password field is covered too. Answers arrive nevertheless.
unfoldable pub step : Page → Event → Page
step p submit = if p.dialog.is_open || p.save.disabled then p else start_save p
step p click_remove =
    if p.dialog.is_open || p.remove.disabled || p.remove_hidden then p else ask_remove p
step p (close_dialog how) =
    if p.dialog.is_open
    then resume p.asking (record p { asking = false; dialog = Dialog.close how p.dialog })
    else p
step p (type_password w) = if p.dialog.is_open then p else record p { password = w }
step p (answer i reply) =
    finish (get_elem? p.pending i) reply (record p { pending = remove_at i p.pending })

unfoldable pub run : Page → List Event → Page
run p [] = p
run p (e ∷ es) = run (step p e) es
