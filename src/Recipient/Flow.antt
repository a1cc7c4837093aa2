-- ===== src/Recipient/Flow.antt =====
-- `prepare` and `reveal` of web/static/reveal.js. Each is cut where it waits for the server: the part
-- up to `fetch`, and the part that runs on the answer. Nothing of the page changes between the
-- answer's headers and its body, so both arrive in one step.
pub mod Keeps
use secureshare.Prelude.{
  ℕ, Bool, true, false, not, ◌&&◌, ◌||◌, [], ◌∷◌, ◌++◌, Option, none, some, ◌/◌, ◌==◌,
  if◌then◌else◌,
}
use mathlib.Core.Option
pub use secureshare.Fetch.{Reply, failed, answered, is_ok, body_or_empty}
use secureshare.Text.{Text, lit, is_empty}
use secureshare.Json.{Json, object, end, Value, prop, own, truthy, is_string, value_text}
use secureshare.Time
use secureshare.Time.{Calendar, Element}
use secureshare.Recipient.{
  Copy, Page, Request, prepare_request, consume_request, Action, prepare, reveal, loading, ready,
  submitting, password_error, revealed, is_state, set_state, set_submitting, show_unavailable,
  session_lost, show_network_error,
}
use secureshare.Recipient.Payload.{render_secret}

abbrev pub send : Request → Page → Page
send r p = record p { sent = r ∷ p.sent; pending = p.pending ++ r ∷ [] }

-- The fragment becomes the token and leaves the address bar.
abbrev pub take_fragment : Page → Page
take_fragment p = if is_empty p.fragment then p else record p { token = p.fragment; fragment = [] }

unfoldable pub start_prepare : Copy → Page → Page
start_prepare c p =
    let q = take_fragment p in
    if is_empty q.token
    then session_lost c q
    else send (prepare_request q.token) (set_state loading q)

-- `document.createElement("time")`.
abbrev pub new_time : Element
new_time = record {
  is_time = true;
  local_time = none;
  title = none;
  datetime = none;
  empty_label = none;
  invalid_label = none;
  time_locale = none;
  time_preset = none;
  text = [];
}

abbrev pub expiry_options : Copy → Time.Options
expiry_options c = record {
  empty_label = some c.invalid_date;
  invalid_label = some c.invalid_date;
  locale = some c.locale;
  preset = some (lit "recipient");
  time_zone = none;
}

-- The expiration line; time.js has run before, as in the template. `none` is a TypeError.
unfoldable pub show_expiry : Calendar → Copy → Value → Page → Option Page
show_expiry cal c at p =
    if truthy at
    then Option.map
        (λ t. record p {
          expires = some (record {
            before = c.available_until ++ lit " ";
            time = Time.render_on cal new_time (some t) (expiry_options c);
            after = c.available_until_suffix;
          });
        })
        (value_text at)
    else some p

-- The end of `prepare` for a link that may be attempted, and whether it threw.
unfoldable pub make_ready : Calendar → Copy → Json → Page → Page × Bool
make_ready cal c body p =
    let q = record p { password_hidden = not (truthy (own (lit "password_required") body)) } in
    elim (show_expiry cal c (own (lit "expires_at") body) q) [
      | none ↦ (q, true)
      | some r ↦
          (set_state ready (set_submitting c false (record r { prepare_text = c.ready })), false)
    ]

-- A `try` block and its `catch`: what threw ends as a network error.
abbrev pub caught : Copy → Action → Page × Bool → Page
caught c action (p, threw) = if threw then show_network_error c action p else p

-- The part of `prepare` that reads the body of a good answer.
unfoldable pub prepare_body : Calendar → Copy → Json → Page → Page × Bool
prepare_body cal c body p = elim (prop (lit "may_attempt") (some body)) [
  | none ↦ (p, true)
  | some may ↦ if truthy may then make_ready cal c body p else (show_unavailable c p, false)
]

unfoldable pub finish_prepare : Calendar → Copy → Reply → Page → Page
finish_prepare cal c failed p = show_network_error c prepare p
finish_prepare cal c (answered status body) p =
    if is_ok status
    then caught c prepare (prepare_body cal c (body_or_empty body) p)
    else show_network_error c prepare p

unfoldable pub start_reveal : Copy → Text → Page → Page
start_reveal c password p =
    if is_empty p.token
    then session_lost c p
    else send (consume_request p.token password)
        (set_state submitting (set_submitting c true (record p { error_text = [] })))

-- The part of `reveal` that reads the body of a refusal, and `shouldFocusPassword`.
unfoldable pub refused : Copy → ℕ → Value → Page → Page × Bool
refused c status code p =
    if status == 401 && is_string (lit "LINK_PASSWORD_INVALID") code
    then (set_state password_error (record p { error_text = c.wrong_password }), true)
    else if is_string (lit "SECRET_UNAVAILABLE") code
    then (show_unavailable c p, false)
    else (show_network_error c reveal p, false)

-- The part that reads the body of a good answer: the token is dropped first.
unfoldable pub accepted : Copy → Json → Page → Page × Bool
accepted c body p =
    let q = record p { token = [] } in
    elim (prop (lit "payload") (some body)) [
      | none ↦ (show_network_error c reveal q, false)
      | some payload ↦
          let (r, threw) = render_secret c payload (own (lit "secret") body) q in
          (if threw then show_network_error c reveal r else set_state revealed r, false)
    ]

-- The `try` and `catch` of `reveal`.
unfoldable pub reveal_body : Copy → Reply → Page → Page × Bool
reveal_body c failed p = (show_network_error c reveal p, false)
reveal_body c (answered status body) p =
    let v = body_or_empty body in
    if is_ok status then accepted c v p else elim (prop (lit "code") (some v)) [
      | none ↦ (show_network_error c reveal p, false)
      | some code ↦ refused c status code p
    ]

-- Its `finally`. `passwordInput.focus()` does nothing while the field is not on display.
unfoldable pub settle : Copy → Page × Bool → Page
settle c (p, focus) =
    let q = set_submitting c false p in
    let r = if is_state q.current submitting then set_state ready q else q in
    record r { focused = (focus && not r.password_hidden) || r.focused }

unfoldable pub finish_reveal : Copy → Reply → Page → Page
finish_reveal c reply p = settle c (reveal_body c reply p)
