-- ===== src/Recipient/Safety.antt =====
-- What a recipient's page of web/static/reveal.js can and cannot send, whatever happens.
use secureshare.Prelude.{
  ℕ, zero, suc, ◌+◌, ◌≡◌, refl, sym, subst, ◌∙◌, true, List, [], ◌∷◌, Option, some, arith, inl, inr,
  Bool-cases, Option-cases, get_elem?, remove_at, All, if◌then◌else◌,
}
use secureshare.Text.{Text, lit}
use secureshare.Json.{Json, Value, prop, own}
use secureshare.Time.{Calendar}
use secureshare.Recipient.{
  Request, prepare_request, consume_request, Copy, Page, Panel, State, loading, revealed,
  network_error, Action, prepare, reveal, set_state, set_submitting, session_lost,
  show_network_error,
}
use secureshare.Recipient.Payload.{render_secret}
use secureshare.Recipient.Flow.{
  answered, start_prepare, start_reveal, finish_reveal, is_ok, accepted, reveal_body, settle,
  body_or_empty,
}
use secureshare.Recipient.Events.{
  Event, click_reveal, press_enter, click_retry, copy_all, toggle_field, copy_field, answer,
  edit_fragment, shows, retry, copy_secret, copy_row, finish, step, run, opened, template_panels,
}
use secureshare.Recipient.Invariant.{panels_for, Inv, render_secret-frame}
use secureshare.Recipient.Events.Keeps.{
  run-opened-Inv, Pending, nothing, preparing, consuming, Waits-Pending,
}

-- How many panels are on display.
pub displayed : List Panel → ℕ
displayed [] = 0
displayed (panel ∷ rest) = (if panel.hidden then 0 else 1) + displayed rest

displayed-panels_for : (s : State) → displayed (panels_for s) ≡ 1
unfolding displayed template_panels
displayed-panels_for loading = refl
displayed-panels_for _ = refl

abbrev pub token_of : Request → Text
token_of (prepare_request t) = t
token_of (consume_request t w) = t

module _ (cal : Calendar) (c : Copy) (loading_text : Option Text) (fragment : Text)
    (es : List Event) where
  -- Whatever the reader does and the server answers, exactly one panel is on display.
  pub one_panel : displayed (run cal c (opened c loading_text fragment) es).panels ≡ 1
  one_panel =
      rw (run-opened-Inv cal c loading_text fragment es).panels_shown (displayed-panels_for _)

abbrev Spent : Page → Type 0
Spent p = (p.token ≡ []) × (p.fragment ≡ []) × (p.pending ≡ [])

-- An event other than an edit of the address.
abbrev pub IsInside : Event → Type 0
IsInside (edit_fragment t) = ⊥
IsInside _ = Unit

module _ (cal : Calendar) (c : Copy) where
  retry-Spent :
      (w : Text) (a : Action) (p : Page)
      → Spent p
      → let r = retry cal c w a p in Spent r × (r.sent ≡ p.sent)
  unfolding retry start_reveal start_prepare session_lost
  retry-Spent w reveal p (t, f, q) = ground arith
  retry-Spent w prepare p (t, f, q) = ground arith

  step-Spent :
      (p : Page) (e : Event)
      → Spent p
      → IsInside e
      → Spent (step cal c p e) × ((step cal c p e).sent ≡ p.sent)
  unfolding step start_reveal session_lost copy_secret copy_row finish
  step-Spent p (click_reveal w) (t, f, q) _ = ground arith
  step-Spent p (press_enter w) (t, f, q) _ = ground arith
  step-Spent p (click_retry w) s _ = elim (Bool-cases (shows network_error p.panels)) [
    | inl h ↦ rw h (retry-Spent w p.retry_action p s)
    | inr h ↦ rw h (s, refl)
  ]
  step-Spent p copy_all (t, f, q) _ = ground arith
  step-Spent p (toggle_field i) (t, f, q) _ = ground arith
  step-Spent p (copy_field i) (t, f, q) _ = ground arith
  step-Spent p (answer i reply) (t, f, q) _ =
      subst
        (λ rs.
          let r = finish cal c reply (get_elem? rs i) (record p { pending = remove_at i rs }) in
          Spent r × (r.sent ≡ p.sent))
        (sym q) ((t, f, refl), refl)
  step-Spent p (edit_fragment u) s h = absurd h

  run-Spent :
      (p : Page) (es : List Event) → Spent p → All IsInside es → (run cal c p es).sent ≡ p.sent
  unfolding run
  run-Spent p [] s h = refl
  run-Spent p (e ∷ es) s h =
      let (s', same) = step-Spent p e s h.0 in run-Spent (step cal c p e) es s' h.1 ∙ same

  shown-frame :
      (payload legacy : Value) (p : Page)
      → let (r, threw) = render_secret c payload legacy (record p { token = [] }) in
        let q = if threw then show_network_error c reveal r else set_state revealed r in
        (q.token ≡ []) × (q.fragment ≡ p.fragment) × (q.pending ≡ p.pending) × (q.sent ≡ p.sent)
  unfolding show_network_error set_state set_submitting
  shown-frame payload legacy p =
      ground (arith, render_secret-frame c payload legacy (record p { token = [] }))

  -- A good answer to a consumption drops the token, and sends nothing.
  pub accepted-frame :
      (status : ℕ) (body : Option Json) (p : Page)
      → is_ok status ≡ true
      → let q = finish_reveal c (answered status body) p in
        (q.token ≡ []) × (q.fragment ≡ p.fragment) × (q.pending ≡ p.pending) × (q.sent ≡ p.sent)
  unfolding finish_reveal settle set_state set_submitting show_network_error reveal_body accepted
  accepted-frame status body p good =
      elim (Option-cases (prop (lit "payload") (some (body_or_empty body)))) [
        | inl e ↦ rw (good, reveal_body) (rw (e, accepted) (ground arith))
        | inr (payload, e) ↦
            rw (good, reveal_body)
              (rw (e, accepted)
                (ground (arith, shown-frame payload (own (lit "secret") (body_or_empty body)) p)))
      ]

  answered-Spent :
      (status : ℕ) (body : Option Json) (o : Option Request) (t w : Text) (p : Page)
      → is_ok status ≡ true
      → o ≡ some (consume_request t w)
      → p.fragment ≡ []
      → p.pending ≡ []
      → let q = finish cal c (answered status body) o p in Spent q × (q.sent ≡ p.sent)
  unfolding finish
  answered-Spent status body o t w p good e f idle =
      let (token, frag, pend, sent) = accepted-frame status body p good in
      rw e ((token, frag ∙ f, pend ∙ idle), sent)

pub consume_waits_alone :
    (i : ℕ) (t t' w : Text) (rs : List Request)
    → Pending t rs
    → get_elem? rs i ≡ some (consume_request t' w)
    → remove_at i rs ≡ []
consume_waits_alone i t t' w rs (nothing e) h = ground arith
consume_waits_alone zero t t' w rs (preparing e held) h = ground arith
consume_waits_alone (suc i) t t' w rs (preparing e held) h = ground arith
consume_waits_alone zero t t' w rs (consuming u e held) h = ground arith
consume_waits_alone (suc i) t t' w rs (consuming u e held) h = ground arith

module _ (cal : Calendar) (c : Copy) where
  consumed_once :
      (p : Page) (v : Inv p) (i status : ℕ) (body : Option Json) (t w : Text) (later : List Event)
      → get_elem? p.pending i ≡ some (consume_request t w)
      → is_ok status ≡ true
      → p.fragment ≡ []
      → All IsInside later
      → (run cal c (step cal c p (answer i (answered status body))) later).sent ≡ p.sent
  unfolding step
  consumed_once p v i status body t w later at good f h =
      let alone =
        consume_waits_alone i p.token t w p.pending (Waits-Pending _ _ _ v.waits v.holds) at in
      let (s, same) =
        answered-Spent cal c status body (get_elem? p.pending i) t w
          (record p { pending = remove_at i p.pending }) good at f alone in
      run-Spent cal c _ later s h ∙ same

  -- A good answer to a waiting consumption, at an address without a fragment, is the last of the
  -- link: afterwards the page sends nothing more, whatever events follow but edits of the address.
  pub consumed-run_sends_nothing :
      (loading_text : Option Text) (fragment : Text) (es later : List Event) (i status : ℕ)
      (body : Option Json) (t w : Text)
      → let p = run cal c (opened c loading_text fragment) es in
        get_elem? p.pending i ≡ some (consume_request t w)
        → is_ok status ≡ true
        → p.fragment ≡ []
        → All IsInside later
        → (run cal c (step cal c p (answer i (answered status body))) later).sent ≡ p.sent
  consumed-run_sends_nothing loading_text fragment es later i status body t w =
      consumed_once _ (run-opened-Inv cal c loading_text fragment es) i status body t w later
