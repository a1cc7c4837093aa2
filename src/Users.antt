-- ===== src/Users.antt =====
-- `setupUserManagement` of web/static/admin.js, on web/templates/user_new.html, user_detail.html and
-- users.html: the forms and the buttons of the three, each with its elements. The templates have no
-- dialog, so that `confirmAction` is `window.confirm`, which the click waits for.
pub mod Laws
use secureshare.Prelude.{
  ℕ, Bool, true, false, ◌&&◌, List, [], ◌∷◌, ◌++◌, Option, none, some, get_elem?, remove_at,
  modify_at, if◌then◌else◌,
}
use mathlib.Core.Option
use secureshare.Text.{Text, lit, or_text}
use secureshare.Json.{Json, prop, value_text}
use secureshare.Fetch.{Reply, failed, answered, is_ok}
use secureshare.Button.{Button, set_button_loading}
use secureshare.Effect.{Effect, in_order, write, write_text}

-- The fields of a user in a form, or in a request.
pub record UserFields : Type 0 where
  pub username : Text
  pub email : Text
  pub role : Text
  pub status : Text
  pub force_password_change : Bool

pub record ActionButton : Type 0 where
  pub user_id : Text
  pub action : Text  -- `disable` or `enable`
  pub disabled : Bool

pub data Call : Type 0 where
  -- The fields, and the password.
  create_user : UserFields → Text → Call
  update_user : Text → UserFields → Call
  -- The id, the password, and whether it must be changed.
  reset_password : Text → Text → Bool → Call
  -- The position of the button, the id and the action.
  user_action : ℕ → Text → Text → Call

pub record Page : Type 0 where
  pub new_user : UserFields
  pub new_password : Text
  pub create : Button
  pub create_error : Text
  pub user_id : Text  -- `data-user-id` of the two forms of a user
  pub user : UserFields
  pub other_password : Text
  pub force_other : Bool
  pub buttons : List ActionButton
  pub toasts : List Text
  pub location : Option Text
  pub reloading : Bool
  pub sent : List Call
  pub pending : List Call

abbrev pub announce : Text → Page → Page
announce t p = record p { toasts = t ∷ p.toasts }

abbrev pub send : Call → Page → Page
send call p = record p { sent = call ∷ p.sent; pending = p.pending ++ call ∷ [] }

-- What is sent of the fields of a form.
unfoldable pub posted : UserFields → UserFields
posted u = record u {
  role = or_text u.role (lit "developer");
  status = or_text u.status (lit "active");
}

-- The submit listener of the form of a new user, up to `fetch`.
unfoldable pub start_create : Page → Page
start_create p =
    send (create_user (posted p.new_user) p.new_password)
      (record p { create_error = []; create = set_button_loading true p.create })

-- The address of the page of a user: `none` is a TypeError.
abbrev pub user_path : Json → Option Text
user_path user =
    Option.bind (prop (lit "id") (some user))
      λ id. Option.map (λ t. lit "/admin/users/" ++ t) (value_text id)

-- What a good answer does: `response.json()` rejects what is no JSON.
unfoldable pub open_user : Option Json → Effect Page
open_user none p = (p, true)
open_user (some user) p =
    in_order
      (write (announce (lit "User created."))
        ∷ write_text (user_path user) (λ t q. record q { location = some t })
        ∷ [])
      p

-- The `try` block of the listener from the answer on. There is no `catch`.
unfoldable pub read_create : Reply → Effect Page
read_create failed p = (p, true)
read_create (answered status body) p =
    if is_ok status
    then open_user body p
    else (record p { create_error = lit "User could not be created." }, false)

unfoldable pub finish_create : Reply → Page → Page
finish_create reply p =
    let q = (read_create reply p).0 in record q { create = set_button_loading false q.create }

unfoldable pub start_update : Page → Page
start_update p = send (update_user p.user_id (posted p.user)) p

unfoldable pub finish_update : Reply → Page → Page
finish_update failed p = p
finish_update (answered status body) p =
    announce (if is_ok status then lit "User updated." else lit "User could not be updated.") p

unfoldable pub start_reset : Page → Page
start_reset p = send (reset_password p.user_id p.other_password p.force_other) p

-- A good answer resets the form: the password is empty, and the box is checked.
unfoldable pub finish_reset : Reply → Page → Page
finish_reset failed p = p
finish_reset (answered status body) p =
    if is_ok status
    then announce (lit "Password reset.") (record p { other_password = []; force_other = true })
    else announce (lit "Password could not be reset.") p

-- The click listener of the buttons in the list, with what `window.confirm` gives.
unfoldable pub start_action : ℕ → Bool → Option ActionButton → Page → Page
start_action i confirmed none p = p
start_action i confirmed (some b) p =
    if b.disabled
    then p
    else if confirmed
    then send (user_action i b.user_id b.action)
        (record p { buttons = modify_at i (λ r. record r { disabled = true }) p.buttons })
    else p

unfoldable pub finish_action : Reply → Page → Page
finish_action failed p = p
finish_action (answered status body) p =
    if is_ok status
    then announce (lit "User updated.") (record p { reloading = true })
    else announce (lit "User update failed.") p

pub data Event : Type 0 where
  submit_create submit_update submit_reset : Event
  type_new : UserFields → Text → Event
  type_user : UserFields → Event
  type_reset : Text → Bool → Event
  -- A click on the button at a position, and the user's choice.
  click_action : ℕ → Bool → Event
  -- The answer to the pending request at this position.
  answer : ℕ → Reply → Event

unfoldable pub finish : Option Call → Reply → Page → Page
finish none reply p = p
finish (some (create_user u w)) reply p = finish_create reply p
finish (some (update_user id u)) reply p = finish_update reply p
finish (some (reset_password id w force)) reply p = finish_reset reply p
finish (some (user_action i id action)) reply p = finish_action reply p

-- A browser submits a form by its button, when that is enabled: those of the forms of a user are
-- never disabled.
unfoldable pub step : Page → Event → Page
step p submit_create = if p.create.disabled then p else start_create p
step p submit_update = start_update p
step p submit_reset = start_reset p
step p (type_new u w) = record p { new_user = u; new_password = w }
step p (type_user u) = record p { user = u }
step p (type_reset w force) = record p { other_password = w; force_other = force }
step p (click_action i confirmed) = start_action i confirmed (get_elem? p.buttons i) p
step p (answer k reply) =
    finish (get_elem? p.pending k) reply (record p { pending = remove_at k p.pending })

unfoldable pub run : Page → List Event → Page
run p [] = p
run p (e ∷ es) = run (step p e) es
