-- ===== src/ApiClients/Outcomes.antt =====
-- How the listeners of the pages of the API clients end: `setupAPIClients` of web/static/admin.js.
use secureshare.Prelude.{
  text_eq, ℕ, ◌≡◌, refl, ap, Bool, true, false, [], ◌∷◌, ◌++◌, none, some, get_elem?, modify_at,
  get_elem?-modify_at, if◌then◌else◌, inl, inr, Bool-cases,
}
use secureshare.Text.{Text, lit, trim, is_empty}
use secureshare.Json.{string, object, Fields, own, truthy, value_text, to_text}
use secureshare.Time.{Calendar}
use secureshare.Fetch.{failed, answered, is_ok}
use secureshare.Button.{set_button_loading}
use secureshare.Effect.{Effect, in_order, in_order-cons, write}
use secureshare.Dialog
use secureshare.Dialog.{Dialog, confirm}
use secureshare.Composer.{Outcome, thrown, returned}
use secureshare.Composer.Page.Result.{field_text, single_line}
use secureshare.ApiClients.{
  rotate_secret, ActionButton, create_client, client_action, Page, Credentials, announce,
  hide_result, show_credentials, put_view, credential,
}
use secureshare.ApiClients.Events.{
  expiration_value, request_client, start_create, set_disabled, start_ask, start_action, resume,
  accept_action, finish_action, finish, click_action, close_dialog, answer, step, run,
}

-- What a submit of the form leaves of the page `p`, by what becomes of the expiration.
abbrev pub CreateEnds : Outcome Text → Page → Page → Type 0
CreateEnds (thrown message) p q =
    (q.error_text ≡ message) × (q.sent ≡ p.sent) × (q.create ≡ p.create)
CreateEnds (returned at) p q =
    (q.error_text ≡ [])
    × (q.sent ≡ create_client (record p.fields { expires_at = at }) ∷ p.sent)
    × (q.create.disabled ≡ true)

request_client-CreateEnds :
    (read : Outcome Text) (p : Page)
    → CreateEnds read p (request_client read (record (hide_result p) { error_text = [] }))
unfolding request_client set_button_loading
request_client-CreateEnds (thrown message) p = (refl, refl, refl)
request_client-CreateEnds (returned at) p = (refl, refl, refl)

request_client-hidden :
    (read : Outcome Text) (p : Page) → (request_client read p).result.hidden ≡ p.result.hidden
unfolding request_client
request_client-hidden (thrown message) p = refl
request_client-hidden (returned at) p = refl

module _ (cal : Calendar) (p : Page) where
  -- A submit of the form hides the credentials. If the expiration is white space, the client is sent
  -- without one; if it is a date, with that date in the form of ISO 8601; otherwise nothing is sent
  -- and the error line tells why.
  pub start_create_lem :
      let q = start_create cal p in
      let value = trim p.fields.expires_at in
      (q.result.hidden ≡ true)
      × CreateEnds
          (if is_empty value then returned [] else elim (cal.parse value) [
            | none ↦ thrown (lit "Expiration must be a valid date and time.")
            | some at ↦ returned (cal.to_iso at)
          ])
          p
          q
  unfolding start_create expiration_value
  start_create_lem = (
    request_client-hidden (expiration_value cal p.fields.expires_at) _,
    request_client-CreateEnds _ p,
  )

  -- If the fetch for a button rejects, the button stays disabled: nothing is announced, and another
  -- click on the button does nothing.
  pub lost_action :
      (i : ℕ) (b : ActionButton)
      → get_elem? p.buttons i ≡ some b
      → b.disabled ≡ false
      → p.dialog.is_open ≡ false
      → p.pending ≡ []
      → let q = run cal p (click_action i ∷ close_dialog confirm ∷ answer 0 failed ∷ []) in
        (q.sent ≡ client_action i b.client_id b.action ∷ p.sent)
        × (q.toasts ≡ p.toasts)
        × (q.pending ≡ [])
        × (step cal q (click_action i) ≡ q)
  unfolding run step start_ask start_action resume finish finish_action Dialog.close text_eq
  lost_action i b at free closed quiet =
      let off : get_elem?
            (modify_at i (λ (r : ActionButton). record r { disabled = true }) p.buttons) i
          ≡ some (record b { disabled = true }) =
        get_elem?-modify_at p.buttons i _ b at in
      simp (at, free, closed, quiet, off) (refl, refl, refl, refl)

-- A property that holds a text that is not empty is written as it is, on one line.
credential-string :
    (key : Text) (fields : Fields) (t : Text)
    → own key (object fields) ≡ some (string t)
    → is_empty t ≡ false
    → credential key (object fields) ≡ some (single_line t)
unfolding field_text truthy value_text to_text
credential-string key fields t h solid = rw h (rw solid refl)

-- Where the link of the panel leads when a client with this id is shown.
abbrev pub link_to : Credentials → Text → Text
link_to r id = if r.has_view then lit "/admin/api-clients/" ++ id else r.view_href

put_view-string :
    (fields : Fields) (id : Text) (p : Page)
    → own (lit "id") (object fields) ≡ some (string id)
    → is_empty id ≡ false
    → put_view (object fields) p
      ≡ (record p { result = record p.result { view_href = link_to p.result id } }, false)
unfolding put_view truthy value_text to_text
put_view-string fields id p h solid = elim (Bool-cases p.result.has_view) [
  | inl e ↦ rw e (rw h (rw solid refl))
  | inr e ↦ rw e refl
]

module _ (p : Page) (i : ℕ) (b : ActionButton) (status : ℕ) (fields : Fields)
    (id client secret : Text) (at : get_elem? p.buttons i ≡ some b) (good : is_ok status ≡ true)
    (c : own (lit "client_id") (object fields) ≡ some (string client))
    (s : own (lit "client_secret") (object fields) ≡ some (string secret))
    (d : own (lit "id") (object fields) ≡ some (string id)) (solid_c : is_empty client ≡ false)
    (solid_s : is_empty secret ≡ false) (solid_d : is_empty id ≡ false) where
  -- The panel with the three.
  abbrev pub opened : Credentials
  opened = record {
    id = single_line client;
    secret = single_line secret;
    view_href = link_to p.result id;
    has_view = p.result.has_view;
    hidden = false;
  }

  show_credentials-opened :
      show_credentials (object fields) p ≡ (record p { result = opened }, false)
  unfolding show_credentials in_order
  show_credentials-opened =
      let first = credential-string (lit "client_id") fields client c solid_c in
      let second = credential-string (lit "client_secret") fields secret s solid_s in
      rw first (rw second (rw (put_view-string fields id _ d solid_d) refl))

  accept_action-opened :
      accept_action i rotate_secret (object fields) p
      ≡ set_disabled i false
          (announce (lit "Client secret rotated.") (record p { result = opened }))
  unfolding accept_action in_order
  accept_action-opened =
      ap (λ (r : Page × Bool). r.0)
        (in_order-cons (show_credentials (object fields)) (note ∷ []) p
          (record p { result = opened }) show_credentials-opened)
    where
      note : Effect Page
      note = write (λ q. set_disabled i false (announce (lit "Client secret rotated.") q))

  -- If a good answer to the rotation of a secret gives an id, a client id and a secret that are not
  -- empty, the panel opens with the client id, the secret and, where it has a link, the link to the
  -- client, the button is enabled, and a toast tells of it.
  pub rotated_lem :
      let q = finish_action i rotate_secret (answered status (some (object fields))) p in
      (q.result ≡ opened)
      × (q.toasts ≡ lit "Client secret rotated." ∷ p.toasts)
      × (get_elem? q.buttons i ≡ some (record b { disabled = false }))
  unfolding finish_action
  rotated_lem =
      let free : get_elem?
            (modify_at i (λ (r : ActionButton). record r { disabled = false }) p.buttons) i
          ≡ some (record b { disabled = false }) =
        get_elem?-modify_at p.buttons i _ b at in
      rw good (rw accept_action-opened (refl, refl, free))
