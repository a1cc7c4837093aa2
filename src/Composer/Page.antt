-- ===== src/Composer/Page.antt =====
-- The create page, web/templates/new_secret.html with `setupCreateSecret` of web/static/admin.js:
-- what the script keeps, reads and writes, and what it sends. All elements are present.
pub mod Result
pub mod Handlers
pub mod Events
pub mod Outcomes
pub mod Round
pub mod Stale
use secureshare.Prelude.{Bool, true, false, List, [], ◌∷◌, ◌++◌, Option, none, some, if◌then◌else◌}
use mathlib.Core.Option
use secureshare.Text.{Text, lit, is_empty, or_text, or_default}
use secureshare.Json.{Value, string}
use secureshare.Time.{Element}
use secureshare.Button.{Button}
use secureshare.Dialog.{Dialog}
use secureshare.Composer.Rows
use secureshare.Composer.Payload.{PayloadModel}

-- `data-secret-mode` of the active button, whose panel is the one on display.
pub data Mode : Type 0 where
  structured_mode plain_mode : Mode

-- `data-delivery-mode` of the active button.
pub data DeliveryMode : Type 0 where
  by_link by_email : DeliveryMode

-- The inputs of the form but for the rows. The texts are what `FormData` gives.
pub record Inputs : Type 0 where
  pub title : Text
  pub description : Text
  pub recipient_reference : Text
  pub secret_plain : Text
  pub is_json : Bool  -- `plain_format` is `json`
  pub lifetime : Option (Text × Text)  -- the chosen radio button: its value, and the text beside it
  pub password : Text
  pub max_failed_attempts : Text
  pub delivery_to : Text
  pub delivery_recipient_name : Text
  pub use_default_template : Bool
  pub delivery_subject : Text
  pub delivery_message : Text

-- What `form.reset()` restores.
abbrev pub blank_inputs : Inputs
blank_inputs = record {
  title = [];
  description = [];
  recipient_reference = [];
  secret_plain = [];
  is_json = false;
  lifetime = some (lit "86400", lit "24 hours");
  password = [];
  max_failed_attempts = lit "5";
  delivery_to = [];
  delivery_recipient_name = [];
  use_default_template = true;
  delivery_subject = [];
  delivery_message = [];
}

pub record Email : Type 0 where
  pub to : Text
  pub recipient_name : Text
  pub use_default_template : Bool
  pub subject : Text
  pub message : Text

-- The request for a link. The two numbers are held as the text that `Number` is called with.
pub record Submission : Type 0 where
  pub title : Text
  pub description : Text
  pub recipient_reference : Text
  pub payload : PayloadModel
  pub expires_in_seconds : Text
  pub password : Option Text
  pub max_failed_attempts : Text
  pub email : Option Email

-- The fields of the panel that retries an email.
pub record Retry : Type 0 where
  pub to : Text
  pub recipient_name : Text
  pub subject : Text
  pub message : Text

-- A handler that waits for the answer to its request.
pub data Call : Type 0 where
  create : Submission → Call
  -- The id in the path.
  revoke : Text → Call
  preview : Text → Text → Call
  -- The token, and the fields.
  send_email : Text → Retry → Call

-- The panel of the result.
pub record Created : Type 0 where
  pub id : Text
  pub expires : Element
  pub lifetime : Text
  pub password : Text
  pub recipient : Text
  pub url : Text
  pub email_status : Text
  pub email_sent : Element
  pub retry_hidden : Bool
  pub retry : Retry
  pub meta_href : Text

pub record Page : Type 0 where
  pub form : Rows.Form
  pub inputs : Inputs
  pub mode : Mode
  pub delivery_mode : DeliveryMode
  pub status : Text
  pub delivery_status : Text
  pub password_summary : Text
  pub submit : Button
  pub created_id : Value
  pub created_payload : Option Submission
  pub result_hidden : Bool
  pub created : Created
  pub revoke_disabled : Bool
  pub dialog : Dialog
  pub clipboard : Option Text
  pub toasts : List Text
  pub sent : List Call  -- every request so far, the latest first
  pub pending : List Call

abbrev pub send : Call → Page → Page
send call p = record p { sent = call ∷ p.sent; pending = p.pending ++ call ∷ [] }

abbrev pub announce : Text → Page → Page
announce message p = record p { toasts = message ∷ p.toasts }

-- `password ? password : null`.
abbrev pub non_empty_text : Text → Option Text
non_empty_text [] = none
non_empty_text (c ∷ s) = some (c ∷ s)

unfoldable pub email_of : DeliveryMode → Inputs → Option Email
email_of by_link i = none
email_of by_email i = some (record {
  to = i.delivery_to;
  recipient_name = i.delivery_recipient_name;
  use_default_template = i.use_default_template;
  subject = i.delivery_subject;
  message = i.delivery_message;
})

-- What is sent for a form whose payload is good.
unfoldable pub submission : Page → PayloadModel → Submission
submission p payload = record {
  title = p.inputs.title;
  description = p.inputs.description;
  recipient_reference = p.inputs.recipient_reference;
  payload = payload;
  expires_in_seconds = or_default (Option.map (λ l. l.0) p.inputs.lifetime) (lit "86400");
  password = non_empty_text p.inputs.password;
  max_failed_attempts = or_text p.inputs.max_failed_attempts (lit "5");
  email = email_of p.delivery_mode p.inputs;
}

-- `selectedLifetimeLabel`.
unfoldable pub selected_lifetime_label : Inputs → Text
selected_lifetime_label i = or_default (Option.map (λ l. l.1) i.lifetime) (lit "Custom")
