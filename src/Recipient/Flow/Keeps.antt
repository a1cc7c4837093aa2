-- ===== src/Recipient/Flow/Keeps.antt =====
-- `prepare` and `reveal` of web/static/reveal.js keep the page's invariant.
use secureshare.Prelude.{
  ℕ, ◌≡◌, refl, sym, Bool, true, false, not, [], some, arith, inl, inr, Bool-cases, Option-cases,
  if◌then◌else◌, ◌==◌, ◌&&◌, ◌||◌,
}
use secureshare.Text.{Text, lit, is_empty}
use secureshare.Json.{Json, Value, prop, own, truthy, is_string}
use secureshare.Time.{Calendar}
use secureshare.Recipient.{
  Copy, Page, State, loading, ready, submitting, password_error, revealed, prepare, reveal,
  prepare_request, consume_request, is_state, set_state, set_submitting, show_unavailable,
  show_network_error,
}
use secureshare.Recipient.Payload.{render_secret}
use secureshare.Recipient.Flow.{
  Reply, failed, answered, start_prepare, finish_prepare, start_reveal, finish_reveal, make_ready,
  prepare_body, show_expiry, accepted, refused, reveal_body, settle, is_ok, take_fragment, send,
  body_or_empty, caught,
}
use secureshare.Recipient.Invariant.{
  panels_for, Inv, set_state-Inv, show_unavailable-Inv, session_lost-Inv, show_network_error-Inv,
  render_secret-frame, aside-Inv,
}

-- No request waits, and the panels are those of some state.
pub record Idle (p : Page) (s : State) : Type 0 where
  pub panels_at : p.panels ≡ panels_for s
  pub nothing_pending : p.pending ≡ []

take_fragment-frame :
    (p : Page)
    → ((take_fragment p).panels ≡ p.panels)
      × ((take_fragment p).pending ≡ p.pending)
      × ((take_fragment p).button_disabled ≡ p.button_disabled)
take_fragment-frame p = ground arith

module _ (c : Copy) (p : Page) (s : State) (i : Idle p s) where
  pub start_reveal-Inv : (w : Text) → Inv (start_reveal c w p)
  unfolding start_reveal set_submitting set_state
  start_reveal-Inv w = elim (Bool-cases (is_empty p.token)) [
    | inl blank ↦ rw blank (session_lost-Inv c p s i.panels_at i.nothing_pending)
    | inr held ↦
        let q =
          send (consume_request p.token w) (set_submitting c true (record p { error_text = [] })) in
        rw held (set_state-Inv submitting s q i.panels_at refl (w, rw i.nothing_pending) held)
  ]

  pub start_prepare-Inv : p.button_disabled ≡ false → Inv (start_prepare c p)
  unfolding start_prepare set_state
  start_prepare-Inv free =
      let (at, idle, unlocked) = take_fragment-frame p in
      let q = take_fragment p in
      let here : q.panels ≡ panels_for s = rw at i.panels_at in
      let quiet : q.pending ≡ [] = rw idle i.nothing_pending in
      elim (Bool-cases (is_empty (take_fragment p).token)) [
        | inl blank ↦ rw blank (session_lost-Inv c q s here quiet)
        | inr held ↦ rw held (
            set_state-Inv loading s (send (prepare_request q.token) q) here (rw unlocked free)
              (rw quiet) held)
      ]

show_expiry-frame :
    (cal : Calendar) (c : Copy) (at : Value) (p r : Page)
    → show_expiry cal c at p ≡ some r
    → (r.panels ≡ p.panels) × (r.pending ≡ p.pending) × (r.token ≡ p.token)
unfolding show_expiry
show_expiry-frame cal c at p r e = ground arith

-- What `try` leaves, thrown or not, is caught into a page that keeps the invariant.
module _ (cal : Calendar) (c : Copy) (s : State) where
  make_ready-Inv :
      (body : Json) (p : Page)
      → Idle p s
      → is_empty p.token ≡ false
      → Inv (caught c prepare (make_ready cal c body p))
  unfolding set_submitting make_ready
  make_ready-Inv body p i held =
      let q = record p { password_hidden = not (truthy (own (lit "password_required") body)) } in
      elim (Option-cases (show_expiry cal c (own (lit "expires_at") body) q)) [
        | inl e ↦
            rw (e, make_ready) (show_network_error-Inv c q s i.panels_at i.nothing_pending prepare)
        | inr (r, e) ↦
            let (at, idle, token) = show_expiry-frame cal c _ q r e in
            rw (e, make_ready)
              (set_state-Inv ready s (set_submitting c false (record r { prepare_text = c.ready }))
                (rw at i.panels_at) refl (rw idle i.nothing_pending) (rw token held))
      ]

  prepare_body-Inv :
      (body : Json) (p : Page)
      → Idle p s
      → is_empty p.token ≡ false
      → Inv (caught c prepare (prepare_body cal c body p))
  unfolding prepare_body
  prepare_body-Inv body p i held = elim (Option-cases (prop (lit "may_attempt") (some body))) [
    | inl e ↦
        rw (e, prepare_body) (show_network_error-Inv c p s i.panels_at i.nothing_pending prepare)
    | inr (may, e) ↦ elim (Bool-cases (truthy may)) [
      | inl go ↦ rw (e, prepare_body) (rw go (make_ready-Inv body p i held))
      | inr stop ↦
          rw (e, prepare_body) (rw stop (show_unavailable-Inv c p s i.panels_at i.nothing_pending))
    ]
  ]

  pub finish_prepare-Inv :
      (reply : Reply) (p : Page)
      → Idle p s
      → is_empty p.token ≡ false
      → Inv (finish_prepare cal c reply p)
  unfolding finish_prepare
  finish_prepare-Inv failed p i held =
      show_network_error-Inv c p s i.panels_at i.nothing_pending prepare
  finish_prepare-Inv (answered status body) p i held = elim (Bool-cases (is_ok status)) [
    | inl good ↦ rw good (prepare_body-Inv (body_or_empty body) p i held)
    | inr bad ↦ rw bad (show_network_error-Inv c p s i.panels_at i.nothing_pending prepare)
  ]

-- What the `finally` of `reveal` needs of the page that it finds.
record Done (c : Copy) (p : Page) : Type 0 where
  unlocked : Inv (set_submitting c false p)
  moved_on : is_state p.current submitting ≡ false

Inv-Done : (c : Copy) (p : Page) → Inv p → is_state p.current submitting ≡ false → Done c p
unfolding set_submitting
Inv-Done c p v h = record {
  unlocked = record {
    panels_shown = v.panels_shown;
    body_agrees = v.body_agrees;
    error_shown = v.error_shown;
    invalid_marked = v.invalid_marked;
    button_locked = sym h;
    waits = v.waits;
    holds = v.holds;
  };
  moved_on = h;
}

module _ (c : Copy) (s : State) where
  network-Done : (p : Page) → Idle p s → Done c (show_network_error c reveal p)
  unfolding show_network_error set_state
  network-Done p i =
      Inv-Done c _ (show_network_error-Inv c p s i.panels_at i.nothing_pending reveal) refl

  unavailable-Done : (p : Page) → Idle p s → Done c (show_unavailable c p)
  unfolding show_unavailable set_state
  unavailable-Done p i =
      Inv-Done c _ (show_unavailable-Inv c p s i.panels_at i.nothing_pending) refl

  refused-Done :
      (status : ℕ) (code : Value) (p : Page)
      → Idle p s
      → is_empty p.token ≡ false
      → Done c (refused c status code p).0
  unfolding refused set_state set_submitting
  refused-Done status code p i held =
      elim (Bool-cases (status == 401 && is_string (lit "LINK_PASSWORD_INVALID") code)) [
        | inl wrong ↦ rw wrong (record {
          unlocked =
              set_state-Inv password_error s
                (set_submitting c false (record p { error_text = c.wrong_password })) i.panels_at
                refl i.nothing_pending held;
          moved_on = refl;
        })
        | inr other ↦ elim (Bool-cases (is_string (lit "SECRET_UNAVAILABLE") code)) [
          | inl gone ↦ rw other (rw gone (unavailable-Done p i))
          | inr unknown ↦ rw other (rw unknown (network-Done p i))
        ]
      ]

  -- After the token is dropped, whether showing the secret threw or not.
  shown-Done :
      (payload legacy : Value) (p : Page)
      → Idle p s
      → let (r, threw) = render_secret c payload legacy (record p { token = [] }) in
        Done c (if threw then show_network_error c reveal r else set_state revealed r)
  unfolding set_state set_submitting
  shown-Done payload legacy p i =
      let q = record p { token = [] } in
      let r = (render_secret c payload legacy q).0 in
      let (at, idle, token, _, _) = render_secret-frame c payload legacy q in
      let here : r.panels ≡ panels_for s = rw at i.panels_at in
      let quiet : r.pending ≡ [] = rw idle i.nothing_pending in
      elim (Bool-cases (render_secret c payload legacy q).1) [
        | inl threw ↦
            rw threw (network-Done r (record { panels_at = here; nothing_pending = quiet }))
        | inr fine ↦ rw fine (record {
          unlocked = set_state-Inv revealed s (set_submitting c false r) here refl quiet token;
          moved_on = refl;
        })
      ]

  accepted-Done : (body : Json) (p : Page) → Idle p s → Done c (accepted c body p).0
  unfolding accepted
  accepted-Done body p i = elim (Option-cases (prop (lit "payload") (some body))) [
    | inl e ↦
        rw (e, accepted)
          (network-Done (record p { token = [] })
            (record { panels_at = i.panels_at; nothing_pending = i.nothing_pending }))
    | inr (payload, e) ↦ rw (e, accepted) (shown-Done payload (own (lit "secret") body) p i)
  ]

  reveal_body-Done :
      (reply : Reply) (p : Page)
      → Idle p s
      → is_empty p.token ≡ false
      → Done c (reveal_body c reply p).0
  unfolding reveal_body
  reveal_body-Done failed p i held = network-Done p i
  reveal_body-Done (answered status body) p i held = elim (Bool-cases (is_ok status)) [
    | inl good ↦ rw good (accepted-Done (body_or_empty body) p i)
    | inr bad ↦ elim (Option-cases (prop (lit "code") (some (body_or_empty body)))) [
      | inl e ↦ rw bad (rw (e, reveal_body) (network-Done p i))
      | inr (code, e) ↦ rw bad (rw (e, reveal_body) (refused-Done status code p i held))
    ]
  ]

  settle-Inv : (r : Page × Bool) → Done c r.0 → Inv (settle c r)
  unfolding settle set_submitting
  settle-Inv (p, focus) d =
      let q = set_submitting c false p in
      rw (d.moved_on, settle)
        (aside-Inv q q.fragment ((focus && not q.password_hidden) || q.focused) q.rows q.clipboard
          q.toasts d.unlocked)

  pub finish_reveal-Inv :
      (reply : Reply) (p : Page)
      → Idle p s
      → is_empty p.token ≡ false
      → Inv (finish_reveal c reply p)
  unfolding finish_reveal
  finish_reveal-Inv reply p i held =
      settle-Inv (reveal_body c reply p) (reveal_body-Done reply p i held)
