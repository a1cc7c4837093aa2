-- ===== src/Recipient.antt =====
-- web/static/reveal.js: the page that a recipient opens. The elements that the script looks up are
-- those of web/templates/recipient.html without its preview, all of them present.
pub mod Payload
pub mod Flow
pub mod Events
pub mod Invariant
pub mod Safety
pub mod Tokens
pub mod Outcomes
pub mod Machine
pub mod Toggle
use secureshare.Prelude.{
  ℕ, Bool, true, false, not, ◌&&◌, ◌||◌, List, [], ◌∷◌, ◌++◌, Option, none, some, map, ◌==◌,
  if◌then◌else◌,
}
use secureshare.Text.{Text, lit, or_default, or_text, coalesce}
use secureshare.Time.{Element}

-- `states`. Every call of `setState` passes one of these names, so its throw is out of reach.
pub data State : Type 0 where
  loading ready submitting password_error revealed unavailable network_error : State

-- `retryAction`.
pub data Action : Type 0 where
  prepare reveal : Action

abbrev tag : State → ℕ
tag loading = 0
tag ready = 1
tag submitting = 2
tag password_error = 3
tag revealed = 4
tag unavailable = 5
tag network_error = 6

abbrev pub is_state : State → State → Bool
is_state s t = tag s == tag t

-- `copy`: the page's wording.
pub record Copy : Type 0 where
  pub locale : Text
  pub ready : Text
  pub available_until : Text
  pub available_until_suffix : Text
  pub reveal : Text
  pub revealing : Text
  pub wrong_password : Text
  pub unavailable_title : Text
  pub unavailable_message : Text
  pub session_lost_title : Text
  pub session_lost_message : Text
  pub show : Text
  pub hide : Text
  pub copy : Text
  pub copy_success : Text
  pub invalid_date : Text

-- The wording from `copySource?.dataset`, a function from the name of a data property.
unfoldable pub copy_of : (Text → Option Text) → Copy
copy_of dataset = record {
  locale = or_default (dataset (lit "locale")) (lit "en");
  ready =
      or_default (dataset (lit "ready"))
        (lit "The information remains available until you choose “Reveal information”.");
  available_until = or_default (dataset (lit "availableUntil")) (lit "Available until");
  available_until_suffix = coalesce (dataset (lit "availableUntilSuffix")) (lit ".");
  reveal = or_default (dataset (lit "reveal")) (lit "Reveal information");
  revealing = or_default (dataset (lit "revealing")) (lit "Revealing information...");
  wrong_password =
      or_default (dataset (lit "wrongPassword")) (lit "The link password is incorrect. Try again.");
  unavailable_title =
      or_default (dataset (lit "unavailableTitle")) (lit "This link is no longer available");
  unavailable_message =
      or_default (dataset (lit "unavailableMessage"))
        (lit "This link has expired, was revoked, or has already been viewed.");
  session_lost_title =
      or_default (dataset (lit "sessionLostTitle")) (lit "Reopen the original secure link");
  session_lost_message = or_default (dataset (lit "sessionLostMessage")) (
      lit
        "For your security, this link is not stored in the browser. Reopen the original link you received.");
  show = or_default (dataset (lit "show")) (lit "Show");
  hide = or_default (dataset (lit "hide")) (lit "Hide");
  copy = or_default (dataset (lit "copy")) (lit "Copy");
  copy_success = or_default (dataset (lit "copySuccess")) (lit "Copied");
  invalid_date = or_default (dataset (lit "invalidDate")) (lit "Invalid date");
}

-- An element with `data-recipient-state-panel`; `is_ready` tells `#ready-state` from the others.
pub record Panel : Type 0 where
  pub name : State
  pub is_ready : Bool
  pub hidden : Bool

-- The children of `#expires-state`.
pub record Expiry : Type 0 where
  pub before : Text
  pub time : Element
  pub after : Text

-- A row of a structured secret: the label, `dataset.value`, the text on show, and its button.
pub record SecretRow : Type 0 where
  pub name : Text
  pub value : Text
  pub shown : Text
  pub button : Text
  pub button_hidden : Bool

-- A request to the server, by its path, with what its body holds.
pub data Request : Type 0 where
  prepare_request : Text → Request
  consume_request : Text → Text → Request

pub record Page : Type 0 where
  pub token : Text
  pub revealed_text : Text  -- undefined, which the script treats like the empty text, is that text
  pub current : State
  pub retry_action : Action
  pub fragment : Text  -- `window.location.hash.slice(1)`
  pub body_state : State
  pub panels : List Panel
  pub error_hidden : Bool
  pub error_text : Text
  pub invalid : Bool  -- `aria-invalid` on the password field
  pub focused : Bool
  pub loading_text : Option Text  -- `revealButton.dataset.loadingText`
  pub button_text : Text
  pub button_disabled : Bool
  pub title : Text
  pub message : Text
  pub password_hidden : Bool
  pub prepare_text : Text
  pub expires : Option Expiry
  pub rows : List SecretRow
  pub structured_hidden : Bool
  pub plain_hidden : Bool
  pub secret_code : Text
  pub clipboard : Option Text
  pub toasts : List Text
  pub sent : List Request  -- every request so far, the latest first
  pub pending : List Request  -- those that wait for an answer

abbrev ready_like : State → Bool
ready_like ready = true
ready_like submitting = true
ready_like password_error = true
ready_like _ = false

abbrev visible : State → Panel → Bool
visible next panel = is_state panel.name next || (panel.is_ready && ready_like next)

abbrev place : State → Panel → Panel
place next panel = record panel { hidden = not (visible next panel) }

unfoldable pub set_state : State → Page → Page
set_state next p = record p {
  current = next;
  body_state = next;
  panels = map (place next) p.panels;
  error_hidden = not (is_state next password_error);
  invalid = is_state next password_error;
}

unfoldable pub set_submitting : Copy → Bool → Page → Page
set_submitting c submits p = record p {
  button_text = if submits then or_default p.loading_text c.revealing else c.reveal;
  button_disabled = submits;
}

-- The function `unavailable`.
unfoldable pub show_unavailable : Copy → Page → Page
unfolding set_state set_submitting
show_unavailable c p =
    let q = set_submitting c false (record p { token = [] }) in
    set_state unavailable
      (record q { title = c.unavailable_title; message = c.unavailable_message })

unfoldable pub session_lost : Copy → Page → Page
unfolding set_state set_submitting
session_lost c p =
    let q = set_submitting c false (record p { token = [] }) in
    set_state unavailable
      (record q { title = c.session_lost_title; message = c.session_lost_message })

-- The function `networkError`.
unfoldable pub show_network_error : Copy → Action → Page → Page
unfolding set_state set_submitting
show_network_error c action p =
    set_state network_error (set_submitting c false (record p { retry_action = action }))
