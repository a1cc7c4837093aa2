-- ===== src/Recipient/Invariant.antt =====
-- What holds of the recipient page of web/static/reveal.js between two events.
use secureshare.Prelude.{◌≡◌, refl, Bool, false, not, List, [], ◌∷◌, Option, map, arith}
use secureshare.Text.{Text, is_empty}
use secureshare.Json.{Value}
use secureshare.Recipient.{
  Copy, Page, Panel, State, loading, submitting, password_error, revealed, unavailable,
  network_error, Action, Request, prepare_request, consume_request, is_state, place, set_state,
  set_submitting, SecretRow, show_unavailable, session_lost, show_network_error,
}
use secureshare.Recipient.Payload.{render_secret, show_structured, show_unstructured}
use secureshare.Recipient.Events.{template_panels}

abbrev pub panels_for : State → List Panel
unfolding template_panels
panels_for s = map (place s) template_panels

-- The request that a state waits for: one in `loading` and in `submitting`, none elsewhere, and it
-- carries the page's token.
abbrev pub Waits : State → Text → List Request → Type 0
Waits loading token pending = pending ≡ prepare_request token ∷ []
Waits submitting token pending = (w : Text) × (pending ≡ consume_request token w ∷ [])
Waits _ token pending = pending ≡ []

-- A token is at hand while the secret can be asked for, and gone once the page is over.
abbrev pub Holds : State → Text → Type 0
Holds revealed token = token ≡ []
Holds unavailable token = token ≡ []
Holds network_error token = Unit
Holds _ token = is_empty token ≡ false

pub record Inv (p : Page) : Type 0 where
  pub panels_shown : p.panels ≡ panels_for p.current
  pub body_agrees : p.body_state ≡ p.current
  pub error_shown : p.error_hidden ≡ not (is_state p.current password_error)
  pub invalid_marked : p.invalid ≡ is_state p.current password_error
  pub button_locked : p.button_disabled ≡ is_state p.current submitting
  pub waits : Waits p.current p.token p.pending
  pub holds : Holds p.current p.token

place-panels : (n s : State) → map (place n) (panels_for s) ≡ panels_for n
unfolding template_panels
place-panels n s = refl

pub set_state-Inv :
    (n s : State) (p : Page)
    → p.panels ≡ panels_for s
    → p.button_disabled ≡ is_state n submitting
    → Waits n p.token p.pending
    → Holds n p.token
    → Inv (set_state n p)
unfolding set_state
set_state-Inv n s p at locked w h = record {
  panels_shown = rw at (place-panels n s);
  body_agrees = refl;
  error_shown = refl;
  invalid_marked = refl;
  button_locked = locked;
  waits = w;
  holds = h;
}

module _ (c : Copy) (p : Page) (s : State) (at : p.panels ≡ panels_for s)
    (idle : p.pending ≡ []) where
  pub show_unavailable-Inv : Inv (show_unavailable c p)
  unfolding show_unavailable
  show_unavailable-Inv =
      let q = set_submitting c false (record p { token = [] }) in
      set_state-Inv unavailable s
        (record q { title = c.unavailable_title; message = c.unavailable_message }) at refl idle
        refl

  pub session_lost-Inv : Inv (session_lost c p)
  unfolding session_lost
  session_lost-Inv =
      let q = set_submitting c false (record p { token = [] }) in
      set_state-Inv unavailable s
        (record q { title = c.session_lost_title; message = c.session_lost_message }) at refl idle
        refl

  pub show_network_error-Inv : (a : Action) → Inv (show_network_error c a p)
  unfolding show_network_error
  show_network_error-Inv a =
      set_state-Inv network_error s (set_submitting c false (record p { retry_action = a })) at refl
        idle tt

-- The invariant does not speak of these fields.
pub aside-Inv :
    (p : Page) (fragment : Text) (focused : Bool) (rows : List SecretRow) (clipboard : Option Text)
    (toasts : List Text)
    → Inv p
    → Inv (record p {
      fragment = fragment;
      focused = focused;
      rows = rows;
      clipboard = clipboard;
      toasts = toasts;
    })
aside-Inv p fragment focused rows clipboard toasts v = record {
  panels_shown = v.panels_shown;
  body_agrees = v.body_agrees;
  error_shown = v.error_shown;
  invalid_marked = v.invalid_marked;
  button_locked = v.button_locked;
  waits = v.waits;
  holds = v.holds;
}

-- What showing a secret leaves alone.
pub render_secret-frame :
    (c : Copy) (payload legacy : Value) (p : Page)
    → let r = (render_secret c payload legacy p).0 in
      (r.panels ≡ p.panels)
      × (r.pending ≡ p.pending)
      × (r.token ≡ p.token)
      × (r.sent ≡ p.sent)
      × (r.fragment ≡ p.fragment)
unfolding render_secret show_structured show_unstructured
render_secret-frame c payload legacy p = ground arith
