-- ===== src/Recipient/Events.antt =====
-- What drives the recipient page: the listeners of web/static/reveal.js, the answers of the server,
-- and the address bar.
pub mod Keeps
use secureshare.Prelude.{
  ℕ, zero, suc, Bool, true, false, not, ◌&&◌, ◌||◌, List, [], ◌∷◌, Option, none, some, get_elem?,
  remove_at, modify_at, if◌then◌else◌,
}
use secureshare.Text.{Text, is_empty}
use secureshare.Time.{Calendar}
use secureshare.Recipient.{
  Copy, Page, Panel, State, loading, ready, revealed, unavailable, network_error, Action, prepare,
  reveal, Request, prepare_request, consume_request, SecretRow, is_state,
}
use secureshare.Recipient.Payload.{toggle_row}
use secureshare.Recipient.Flow.{Reply, start_prepare, finish_prepare, start_reveal, finish_reveal}

pub data Event : Type 0 where
  -- The passwords are what the field holds when the listener runs.
  click_reveal : Text → Event
  press_enter : Text → Event
  -- A click on the retry button, with what the password field holds.
  click_retry : Text → Event
  copy_all : Event
  toggle_field : ℕ → Event
  copy_field : ℕ → Event
  -- The answer to the pending request at this position.
  answer : ℕ → Reply → Event
  -- The reader edits the fragment of the address, which no listener watches.
  edit_fragment : Text → Event

-- Whether a panel of this name is on display.
abbrev pub shows : State → List Panel → Bool
shows s [] = false
shows s (panel ∷ rest) = (is_state panel.name s && not panel.hidden) || shows s rest

module _ (cal : Calendar) (c : Copy) where
  -- The click listener of `#network-retry`.
  unfoldable pub retry : Text → Action → Page → Page
  retry password reveal p = start_reveal c password p
  retry password prepare p = start_prepare c p

  -- The click listener of `#copy-secret`.
  unfoldable pub copy_secret : Page → Page
  copy_secret p =
      if is_empty p.revealed_text
      then p
      else record p { clipboard = some p.revealed_text; toasts = c.copy_success ∷ p.toasts }

  -- The click listener of a row's copy button.
  unfoldable pub copy_row : Option SecretRow → Page → Page
  copy_row none p = p
  copy_row (some r) p = record p { clipboard = some r.value; toasts = c.copy_success ∷ p.toasts }

  unfoldable pub finish : Reply → Option Request → Page → Page
  finish reply none p = p
  finish reply (some (prepare_request t)) p = finish_prepare cal c reply p
  finish reply (some (consume_request t w)) p = finish_reveal c reply p

  -- One event. A browser sends clicks and keys only to what is on display and enabled: the ready
  -- panel holds the reveal button and the password field, the others hold their own buttons.
  unfoldable pub step : Page → Event → Page
  step p (click_reveal w) =
      if shows ready p.panels && not p.button_disabled then start_reveal c w p else p
  step p (press_enter w) =
      if shows ready p.panels && not p.password_hidden && not p.button_disabled
      then start_reveal c w p
      else p
  step p (click_retry w) = if shows network_error p.panels then retry w p.retry_action p else p
  step p copy_all = if shows revealed p.panels then copy_secret p else p
  step p (toggle_field i) =
      if shows revealed p.panels then record p { rows = modify_at i (toggle_row c) p.rows } else p
  step p (copy_field i) = if shows revealed p.panels then copy_row (get_elem? p.rows i) p else p
  step p (answer i reply) =
      finish reply (get_elem? p.pending i) (record p { pending = remove_at i p.pending })
  step p (edit_fragment t) = record p { fragment = t }

  unfoldable pub run : Page → List Event → Page
  run p [] = p
  run p (e ∷ es) = run (step p e) es

-- The page before the script, from the template, at an address with this fragment.
unfoldable pub template_panels : List Panel
template_panels =
    record { name = loading; is_ready = false; hidden = false }
    ∷ record { name = ready; is_ready = true; hidden = true }
    ∷ record { name = revealed; is_ready = false; hidden = true }
    ∷ record { name = unavailable; is_ready = false; hidden = true }
    ∷ record { name = network_error; is_ready = false; hidden = true }
    ∷ []

-- The texts are the server's wording, which the script overwrites before it shows them.
unfoldable pub blank_page : Copy → Option Text → Text → Page
blank_page c loading_text fragment = record {
  token = [];
  revealed_text = [];
  current = loading;
  retry_action = prepare;
  fragment = fragment;
  body_state = loading;
  panels = template_panels;
  error_hidden = true;
  error_text = [];
  invalid = false;
  focused = false;
  loading_text = loading_text;
  button_text = c.reveal;
  button_disabled = false;
  title = c.unavailable_title;
  message = c.unavailable_message;
  password_hidden = true;
  prepare_text = c.ready;
  expires = none;
  rows = [];
  structured_hidden = true;
  plain_hidden = true;
  secret_code = [];
  clipboard = none;
  toasts = [];
  sent = [];
  pending = [];
}

-- The last line of the script.
unfoldable pub opened : Copy → Option Text → Text → Page
opened c loading_text fragment = start_prepare c (blank_page c loading_text fragment)
