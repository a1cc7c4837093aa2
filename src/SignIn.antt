-- ===== src/SignIn.antt =====
-- `setupLogin` of web/static/admin.js on web/templates/login.html, all elements present, and
-- `setupSecretToggles` for its password field.
pub mod Laws
use secureshare.Prelude.{
  ℕ, Bool, true, false, not, List, [], ◌∷◌, ◌++◌, Option, none, some, get_elem?, remove_at,
  if◌then◌else◌,
}
use secureshare.Text.{Text, lit}
use secureshare.Fetch.{Reply, failed, answered, is_ok}
use secureshare.Button.{Button, set_button_loading}

-- The field of a password with its toggle: whether `input.type` is `password`, and the text of the
-- button.
pub record SecretToggle : Type 0 where
  pub hides : Bool
  pub text : Text

-- The click listener of the toggle.
unfoldable pub toggle_secret : SecretToggle → SecretToggle
toggle_secret t = record { hides = not t.hides; text = if t.hides then lit "Hide" else lit "Show" }

-- The request: the login and the password.
pub record Credentials : Type 0 where
  pub login : Text
  pub password : Text

pub record Page : Type 0 where
  pub fields : Credentials
  pub toggle : SecretToggle
  pub error_text : Text
  pub submit : Button
  pub location : Option Text  -- where `window.location.assign` leads
  pub sent : List Credentials
  pub pending : List Credentials

-- The submit listener up to `fetch`.
unfoldable pub start_login : Page → Page
start_login p = record p {
  error_text = [];
  submit = set_button_loading true p.submit;
  sent = p.fields ∷ p.sent;
  pending = p.pending ++ p.fields ∷ [];
}

-- The `try` and `catch` blocks from the answer on.
unfoldable pub read_login : Reply → Page → Page
read_login failed p = record p { error_text = lit "SecureShare could not be reached." }
read_login (answered status body) p =
    if is_ok status
    then record p { location = some (lit "/admin") }
    else record p { error_text = lit "The username, email, or password was not accepted." }

unfoldable pub finish_login : Option Credentials → Reply → Page → Page
finish_login none reply p = p
finish_login (some c) reply p =
    let q = read_login reply p in record q { submit = set_button_loading false q.submit }

pub data Event : Type 0 where
  type_fields : Credentials → Event
  click_toggle submit : Event
  -- The answer to the pending request at this position.
  answer : ℕ → Reply → Event

-- A browser submits the form by its button, when that is enabled.
unfoldable pub step : Page → Event → Page
step p (type_fields c) = record p { fields = c }
step p click_toggle = record p { toggle = toggle_secret p.toggle }
step p submit = if p.submit.disabled then p else start_login p
step p (answer i reply) =
    finish_login (get_elem? p.pending i) reply (record p { pending = remove_at i p.pending })

unfoldable pub run : Page → List Event → Page
run p [] = p
run p (e ∷ es) = run (step p e) es
