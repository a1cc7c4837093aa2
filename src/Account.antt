-- ===== src/Account.antt =====
-- `setupAccount` of web/static/admin.js on web/templates/account.html, all elements present. The
-- template has no dialog, so that `confirmAction` is `window.confirm`, which the click waits for.
pub mod Laws
use secureshare.Prelude.{
  ℕ, Bool, true, false, List, [], ◌∷◌, ◌++◌, Option, none, some, get_elem?, remove_at,
  if◌then◌else◌,
}
use secureshare.Text.{Text, lit}
use secureshare.Fetch.{Reply, failed, answered, is_ok}
use secureshare.Button.{Button, set_button_loading}

pub record Passwords : Type 0 where
  pub current_password : Text
  pub new_password : Text

pub data Call : Type 0 where
  change_password : Passwords → Call
  revoke_other : Call

pub record Page : Type 0 where
  pub fields : Passwords
  pub error_text : Text
  pub submit : Button
  pub toasts : List Text
  pub reloading : Bool
  pub sent : List Call
  pub pending : List Call

abbrev pub announce : Text → Page → Page
announce t p = record p { toasts = t ∷ p.toasts }

abbrev pub send : Call → Page → Page
send call p = record p { sent = call ∷ p.sent; pending = p.pending ++ call ∷ [] }

-- The submit listener up to `fetch`.
unfoldable pub start_change : Page → Page
start_change p =
    send (change_password p.fields)
      (record p { error_text = []; submit = set_button_loading true p.submit })

-- Its `try` block from the answer on. There is no `catch`.
unfoldable pub read_change : Reply → Page → Page
read_change failed p = p
read_change (answered status body) p =
    if is_ok status
    then announce (lit "Password changed. Your session was rotated.")
        (record p { fields = record { current_password = []; new_password = [] } })
    else record p { error_text = lit "Password could not be changed." }

unfoldable pub finish_change : Reply → Page → Page
finish_change reply p =
    let q = read_change reply p in record q { submit = set_button_loading false q.submit }

-- The click listener of the other sessions, after `window.confirm`.
unfoldable pub start_revoke_other : Bool → Page → Page
start_revoke_other confirmed p = if confirmed then send revoke_other p else p

unfoldable pub finish_revoke_other : Reply → Page → Page
finish_revoke_other failed p = p
finish_revoke_other (answered status body) p =
    if is_ok status
    then announce (lit "Other sessions revoked.") (record p { reloading = true })
    else announce (lit "Session revocation failed.") p

unfoldable pub finish : Option Call → Reply → Page → Page
finish none reply p = p
finish (some (change_password fields)) reply p = finish_change reply p
finish (some revoke_other) reply p = finish_revoke_other reply p

pub data Event : Type 0 where
  type_fields : Passwords → Event
  submit : Event
  -- A click on the button of the other sessions, and the user's choice.
  click_revoke_other : Bool → Event
  -- The answer to the pending request at this position.
  answer : ℕ → Reply → Event

-- A browser submits the form by its button, when that is enabled.
unfoldable pub step : Page → Event → Page
step p (type_fields f) = record p { fields = f }
step p submit = if p.submit.disabled then p else start_change p
step p (click_revoke_other confirmed) = start_revoke_other confirmed p
step p (answer k reply) =
    finish (get_elem? p.pending k) reply (record p { pending = remove_at k p.pending })

unfoldable pub run : Page → List Event → Page
run p [] = p
run p (e ∷ es) = run (step p e) es
