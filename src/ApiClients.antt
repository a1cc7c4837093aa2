-- ===== src/ApiClients.antt =====
-- `setupAPIClients` of web/static/admin.js, on web/templates/api_client_new.html, api_clients.html and
-- api_client_detail.html: the form, the buttons and the panel of the three, each with its elements.
pub mod Events
pub mod Laws
pub mod Buttons
pub mod Keeps
pub mod Outcomes
use secureshare.Prelude.{
  ℕ, Bool, true, false, ◌&&◌, List, [], ◌∷◌, ◌++◌, Option, none, some, get_elem?, remove_at,
  modify_at, if◌then◌else◌,
}
use mathlib.Core.Option
use secureshare.Text.{Text, lit, trim, is_empty}
use secureshare.Json.{
  Json, string, Value, prop, own, null, truthy, or_value, value_text, content_text,
}
use secureshare.Time.{Calendar}
use secureshare.Fetch.{Reply, failed, answered, is_ok, body_or_empty}
use secureshare.Button.{Button, set_button_loading}
use secureshare.Effect.{Effect, in_order, write, write_text}
use secureshare.Dialog
use secureshare.Dialog.{Dialog, Closing, ask, is_confirmed}
use secureshare.Composer.{Outcome, thrown, returned}
use secureshare.Composer.Page.Result.{field_text}

pub record ClientFields : Type 0 where
  pub name : Text
  pub scopes : List Text  -- the values of the boxes that are checked
  pub expires_at : Text

-- The values of `data-api-client-action`.
pub data ClientAction : Type 0 where
  disable enable revoke rotate_secret : ClientAction

pub record ActionButton : Type 0 where
  pub client_id : Text
  pub action : ClientAction
  pub disabled : Bool

pub data Call : Type 0 where
  -- The fields, with the expiration as it is sent.
  create_client : ClientFields → Call
  -- The position of the button, the id and the action.
  client_action : ℕ → Text → ClientAction → Call

-- The panel that shows the credentials once.
pub record Credentials : Type 0 where
  pub id : Text
  pub secret : Text
  pub view_href : Text
  pub has_view : Bool  -- the page of a new client has `#view-api-client`
  pub hidden : Bool

pub record Page : Type 0 where
  pub fields : ClientFields
  pub default_fields : ClientFields  -- what `createForm.reset()` restores
  pub create : Button
  pub error_text : Text
  pub result : Credentials
  pub buttons : List ActionButton
  pub dialog : Dialog
  pub asking : Option ℕ  -- the button whose click waits for the dialog
  pub clipboard : Option Text
  pub toasts : List Text
  pub reloading : Bool
  pub sent : List Call
  pub pending : List Call

abbrev pub announce : Text → Page → Page
announce t p = record p { toasts = t ∷ p.toasts }

abbrev pub send : Call → Page → Page
send call p = record p { sent = call ∷ p.sent; pending = p.pending ++ call ∷ [] }

abbrev pub in_result : (Credentials → Credentials) → Page → Page
in_result change p = record p { result = change p.result }

abbrev pub hide_result : Page → Page
hide_result p = in_result (λ r. record r { hidden = true }) p

-- `client.client_id || ""` in a field of one line.
abbrev pub credential : Text → Json → Option Text
credential key client = field_text (or_value (own key client) (some (string [])))

-- The link, where there is one, is changed when the client has an id.
unfoldable pub put_view : Json → Effect Page
put_view client p =
    if p.result.has_view && truthy (own (lit "id") client)
    then write_text
        (Option.map (λ t. lit "/admin/api-clients/" ++ t) (value_text (own (lit "id") client)))
        (λ t. in_result (λ r. record r { view_href = t })) p
    else (p, false)

unfoldable pub show_credentials : Json → Effect Page
show_credentials null p = (p, true)
show_credentials client p =
    in_order
      (write_text (credential (lit "client_id") client) (λ t. in_result (λ r. record r { id = t }))
        ∷ write_text (credential (lit "client_secret") client)
            (λ t. in_result (λ r. record r { secret = t }))
        ∷ put_view client
        ∷ write (in_result (λ r. record r { hidden = false }))
        ∷ [])
      p

-- The title and the message of the dialog.
abbrev pub question : ClientAction → Text × Text
question disable = (
  lit "Disable this API client?",
  lit "Existing integrations using this client will stop authenticating.",
)
question enable = (
  lit "Enable this API client?",
  lit "Integrations can authenticate again if the client has not expired.",
)
question revoke = (
  lit "Revoke this API client?",
  lit "Revoked clients cannot authenticate and the secret cannot be recovered.",
)
question rotate_secret = (
  lit "Rotate this client secret?",
  lit "The previous client secret will stop authenticating immediately.",
)

-- The rest of the submit listener, for an answer: `body.message || "API client could not be created."`
unfoldable pub refuse_create : Json → Effect Page
refuse_create body =
    write_text
      (Option.bind (prop (lit "message") (some body))
        λ m. content_text (or_value m (some (string (lit "API client could not be created.")))))
      (λ t p. record p { error_text = t })

unfoldable pub read_create : Reply → Effect Page
read_create failed p = (p, true)
read_create (answered status body) p =
    if is_ok status
    then in_order
        (show_credentials (body_or_empty body)
          ∷ write
              (λ q. record (announce (lit "API client created.") q) { fields = q.default_fields })
          ∷ [])
        p
    else refuse_create (body_or_empty body) p

unfoldable pub finish_create : Reply → Page → Page
finish_create reply p =
    let q = (read_create reply p).0 in record q { create = set_button_loading false q.create }
