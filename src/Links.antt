-- ===== src/Links.antt =====
-- `setupRevokeButtons` of web/static/admin.js: the revoke buttons of web/templates/secret_list.html
-- and secret_detail.html, under the one dialog of the page.
pub mod Laws
pub mod Asked
use secureshare.Prelude.{
  ℕ, Bool, true, false, List, [], ◌∷◌, ◌++◌, Option, none, some, get_elem?, remove_at, modify_at,
  if◌then◌else◌,
}
use secureshare.Text.{Text, lit}
use secureshare.Fetch.{Reply, failed, answered, is_ok}
use secureshare.Dialog
use secureshare.Dialog.{Dialog, Closing, ask, is_confirmed}

pub record RevokeButton : Type 0 where
  pub id : Text  -- `data-revoke-id`
  pub text : Text
  pub disabled : Bool

pub record Page : Type 0 where
  pub buttons : List RevokeButton
  pub dialog : Dialog
  pub asking : Option ℕ  -- the button whose click waits for the dialog
  pub toasts : List Text
  -- The requests, by the position of their button, and those that wait for an answer.
  pub sent : List (ℕ × Text)
  pub pending : List ℕ

abbrev pub announce : Text → Page → Page
announce t p = record p { toasts = t ∷ p.toasts }

-- The click listener up to the dialog.
unfoldable pub start_ask : ℕ → Option RevokeButton → Page → Page
start_ask i none p = p
start_ask i (some b) p = if b.disabled then p else record p {
  asking = some i;
  dialog =
      ask (lit "Revoke this link?") (lit "Recipients will receive the generic unavailable message.")
        p.dialog;
}

-- From the confirmed dialog up to `fetch`.
unfoldable pub start_revoke : ℕ → Option RevokeButton → Page → Page
start_revoke i none p = p
start_revoke i (some b) p = record p {
  buttons = modify_at i (λ r. record r { disabled = true }) p.buttons;
  sent = (i, b.id) ∷ p.sent;
  pending = p.pending ++ i ∷ [];
}

-- The listener goes on with what the dialog holds once it has closed.
unfoldable pub resume : Option ℕ → Page → Page
resume none p = p
resume (some i) p = if is_confirmed p.dialog then start_revoke i (get_elem? p.buttons i) p else p

abbrev pub relabel : ℕ → Text → Page → Page
relabel i t p = record p { buttons = modify_at i (λ r. record r { text = t }) p.buttons }

-- From the answer on. A rejected `fetch` ends the listener.
unfoldable pub finish : Option ℕ → Reply → Page → Page
finish none reply p = p
finish (some i) failed p = p
finish (some i) (answered status body) p =
    if is_ok status
    then announce (lit "Link revoked.") (relabel i (lit "Revoked") p)
    else announce (lit "The link was already unavailable.") (relabel i (lit "Unavailable") p)

pub data Event : Type 0 where
  click : ℕ → Event
  close_dialog : Closing → Event
  -- The answer to the pending request at this position.
  answer : ℕ → Reply → Event

-- While the dialog is open, the page behind it takes no clicks.
unfoldable pub step : Page → Event → Page
step p (click i) = if p.dialog.is_open then p else start_ask i (get_elem? p.buttons i) p
step p (close_dialog how) =
    if p.dialog.is_open
    then resume p.asking (record p { asking = none; dialog = Dialog.close how p.dialog })
    else p
step p (answer k reply) =
    finish (get_elem? p.pending k) reply (record p { pending = remove_at k p.pending })

unfoldable pub run : Page → List Event → Page
run p [] = p
run p (e ∷ es) = run (step p e) es
