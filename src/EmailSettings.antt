-- ===== src/EmailSettings.antt =====
-- `setupEmailSettings` of web/static/admin.js on web/templates/email_settings.html, all elements
-- present: what it keeps, sends and writes.
pub mod Answers
pub mod Events
pub mod Laws
pub mod Keeps
pub mod Waits
pub mod Drains
pub mod Phases
use secureshare.Prelude.{
  ℕ, Bool, true, false, List, [], ◌∷◌, ◌++◌, Option, none, some, map, text_eq, ◌||◌, ◌==◌,
  if◌then◌else◌,
}
use secureshare.Text.{Text, lit, or_text}
use secureshare.Button.{Button, set_button_loading}

-- The form. A number is held as the text of its input, and in a request as the text that `Number` is
-- called with.
pub record Settings : Type 0 where
  pub enabled : Bool
  pub smtp_host : Text
  pub smtp_port : Text
  pub encryption_mode : Text
  pub smtp_username : Text
  pub smtp_password : Text
  pub clear_smtp_password : Bool
  pub from_name : Text
  pub from_email : Text
  pub reply_to_email : Text
  pub connection_timeout_seconds : Text
  pub send_timeout_seconds : Text
  pub default_subject : Text
  pub default_message : Text
  pub footer_text : Text

-- The names of its fields.
abbrev pub field_names : List Text
field_names =
    lit "enabled"
    ∷ lit "smtp_host"
    ∷ lit "smtp_port"
    ∷ lit "encryption_mode"
    ∷ lit "smtp_username"
    ∷ lit "smtp_password"
    ∷ lit "clear_smtp_password"
    ∷ lit "from_name"
    ∷ lit "from_email"
    ∷ lit "reply_to_email"
    ∷ lit "connection_timeout_seconds"
    ∷ lit "send_timeout_seconds"
    ∷ lit "default_subject"
    ∷ lit "default_message"
    ∷ lit "footer_text"
    ∷ []

-- `settingsPayload`.
unfoldable pub settings_payload : Settings → Settings
settings_payload s = record s {
  smtp_port = or_text s.smtp_port (lit "0");
  encryption_mode = or_text s.encryption_mode (lit "starttls");
  connection_timeout_seconds = or_text s.connection_timeout_seconds (lit "5");
  send_timeout_seconds = or_text s.send_timeout_seconds (lit "10");
}

-- The values of `data-email-action`.
pub data EmailAction : Type 0 where
  test_connection enable disable : EmailAction

-- The buttons that wait: of the form, of the actions, of the preview and of the test form.
pub data Which : Type 0 where
  save preview send_test : Which
  on_action : EmailAction → Which

-- What follows when the settings have been saved: nothing, an action, or a test email.
pub data Next : Type 0 where
  after_submit : Next
  before_action : EmailAction → Next
  before_test : Text → Next

pub data Call : Type 0 where
  put_settings : Settings → Next → Call
  post_action : EmailAction → Call
  post_test : Text → Call
  -- The subject, the message and the footer.
  post_preview : Text → Text → Text → Call

pub record Page : Type 0 where
  pub settings : Settings
  pub buttons : Which → Button
  pub error_text : Text
  pub status : Text
  pub invalid : List Text  -- the fields with `aria-invalid`, the latest first
  pub preview_hidden : Bool
  pub preview_text : Text
  pub preview_html : Text
  pub test_to : Text
  pub test_status : Text
  pub toasts : List Text
  pub sent : List Call
  pub pending : List Call

abbrev pub index : Which → ℕ
index save = 0
index preview = 1
index send_test = 2
index (on_action test_connection) = 3
index (on_action enable) = 4
index (on_action disable) = 5

abbrev pub same : Which → Which → Bool
same a b = index a == index b

unfoldable pub loading : Which → Bool → Page → Page
loading which on p = record p {
  buttons = λ b. if same which b then set_button_loading on (p.buttons b) else p.buttons b;
}

abbrev pub announce : Text → Page → Page
announce t p = record p { toasts = t ∷ p.toasts }

abbrev pub set_status : Text → Page → Page
set_status t p = record p { status = t }

abbrev pub send : Call → Page → Page
send call p = record p { sent = call ∷ p.sent; pending = p.pending ++ call ∷ [] }

-- The button that waits for the answer to a request.
abbrev pub waiting_button : Call → Which
waiting_button (put_settings s after_submit) = save
waiting_button (put_settings s (before_action a)) = on_action a
waiting_button (put_settings s (before_test to)) = send_test
waiting_button (post_action a) = on_action a
waiting_button (post_test to) = send_test
waiting_button (post_preview subject message footer) = preview
