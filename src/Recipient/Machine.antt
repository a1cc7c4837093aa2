-- ===== src/Recipient/Machine.antt =====
-- The states of web/static/reveal.js as a machine: which states follow which.
pub mod Final
use secureshare.Prelude.{
  ℕ, zero, suc, ◌≡◌, refl, sym, subst, ◌∙◌, Bool, true, false, not, ◌&&◌, List, [], ◌∷◌, Option,
  none, some, arith, inl, inr, Bool-cases, Option-cases, get_elem?, remove_at, if◌then◌else◌,
}
use secureshare.Text.{Text, lit, is_empty}
use secureshare.Json.{Json, prop, own, truthy}
use secureshare.Time.{Calendar}
use secureshare.Recipient.{
  Copy, Page, State, loading, ready, submitting, password_error, revealed, unavailable,
  network_error, Action, prepare, reveal, Request, prepare_request, consume_request, is_state,
  set_state, set_submitting, show_unavailable, session_lost, show_network_error, SecretRow,
}
use secureshare.Recipient.Flow.{
  Reply, failed, answered, is_ok, body_or_empty, start_prepare, start_reveal, finish_prepare,
  take_fragment, finish_reveal, prepare_body, make_ready, show_expiry, caught,
}
use secureshare.Recipient.Events.{
  Event, click_reveal, press_enter, click_retry, copy_all, toggle_field, copy_field, answer,
  edit_fragment, shows, retry, copy_secret, copy_row, finish, step, run, opened, template_panels,
}
use secureshare.Recipient.Invariant.{panels_for, Waits, Holds, Inv}
use secureshare.Recipient.Events.Keeps.{run-opened-Inv, step-Inv}
use secureshare.Recipient.Outcomes.{Ends, finish_reveal-Ends}

-- One move of the machine, or none.
pub data Moves : State → State → Type 0 where
  stays : (s : State) → Moves s s
  offers : Moves loading ready
  finds_gone : Moves loading unavailable
  cannot_ask : Moves loading network_error
  asks : Moves ready submitting
  asks_again : Moves password_error submitting
  refuses : Moves submitting password_error
  shows_secret : Moves submitting revealed
  is_gone : Moves submitting unavailable
  is_cut_off : Moves submitting network_error
  prepares : Moves network_error loading
  repeats : Moves network_error submitting
  gives_up : Moves network_error unavailable

reveal-Moves :
    (s : State) (t : Text)
    → (shows ready (panels_for s) && not (is_state s submitting)) ≡ true
    → Holds s t
    → Moves s submitting × (is_empty t ≡ false)
unfolding template_panels
reveal-Moves ready t h held = (asks, held)
reveal-Moves password_error t h held = (asks_again, held)
reveal-Moves _ t h held = cc

retry_state : (s : State) → shows network_error (panels_for s) ≡ true → s ≡ network_error
unfolding template_panels
retry_state network_error h = refl
retry_state _ h = cc

-- What is found where one request waits.
sole :
    (i : ℕ) (r r' : Request) (rs : List Request) → rs ≡ r ∷ [] → get_elem? rs i ≡ some r' → r ≡ r'
sole zero r r' rs e h = ground arith
sole (suc i) r r' rs e h = ground arith

consume_state :
    (s : State) (t t' w : Text) (rs : List Request) (i : ℕ)
    → Waits s t rs
    → get_elem? rs i ≡ some (consume_request t' w)
    → s ≡ submitting
consume_state submitting t t' w rs i h e = refl
consume_state loading t t' w rs i h e = absurd (cc (sole i _ _ rs h e))
consume_state ready t t' w rs i h e = ground arith
consume_state _ t t' w rs i h e = ground arith

prepare_state :
    (s : State) (t t' : Text) (rs : List Request) (i : ℕ)
    → Waits s t rs
    → get_elem? rs i ≡ some (prepare_request t')
    → s ≡ loading
prepare_state loading t t' rs i h e = refl
prepare_state submitting t t' rs i (w, h) e = absurd (cc (sole i _ _ rs h e))
prepare_state _ t t' rs i h e = ground arith

module _ (cal : Calendar) (c : Copy) where
  prepare_body-Moves :
      (body : Json) (p : Page)
      → Moves loading (caught c prepare (prepare_body cal c body p)).current
  unfolding prepare_body make_ready show_unavailable show_network_error set_state
  prepare_body-Moves body p = elim (Option-cases (prop (lit "may_attempt") (some body))) [
    | inl e ↦ rw (e, prepare_body) cannot_ask
    | inr (may, e) ↦ elim (Bool-cases (truthy may)) [
      | inr stop ↦ rw (e, prepare_body) (rw stop finds_gone)
      | inl go ↦
          let q = record p {
            password_hidden = not (truthy (own (lit "password_required") body));
          } in
          elim (Option-cases (show_expiry cal c (own (lit "expires_at") body) q)) [
            | inl k ↦ rw (e, prepare_body) (rw go (rw (k, make_ready) cannot_ask))
            | inr (r, k) ↦ rw (e, prepare_body) (rw go (rw (k, make_ready) offers))
          ]
    ]
  ]

  finish_prepare-Moves :
      (reply : Reply) (p : Page) → Moves loading (finish_prepare cal c reply p).current
  unfolding finish_prepare show_network_error set_state
  finish_prepare-Moves failed p = cannot_ask
  finish_prepare-Moves (answered status body) p = elim (Bool-cases (is_ok status)) [
    | inl good ↦ rw good (prepare_body-Moves (body_or_empty body) p)
    | inr bad ↦ rw bad cannot_ask
  ]

  Ends-Moves : (s : State) (p q : Page) → Ends c s p q → Moves submitting s
  Ends-Moves password_error p q h = refuses
  Ends-Moves revealed p q h = shows_secret
  Ends-Moves unavailable p q h = is_gone
  Ends-Moves network_error p q h = is_cut_off
  Ends-Moves _ p q h = absurd h

  finish_reveal-Moves :
      (reply : Reply) (p : Page) → Moves submitting (finish_reveal c reply p).current
  finish_reveal-Moves reply p = Ends-Moves _ p _ (finish_reveal-Ends c p reply).1

  retry-Moves : (w : Text) (a : Action) (p : Page) → Moves network_error (retry cal c w a p).current
  unfolding retry start_reveal start_prepare session_lost set_state set_submitting
  retry-Moves w reveal p = elim (Bool-cases (is_empty p.token)) [
    | inl e ↦ rw e gives_up
    | inr e ↦ rw e repeats
  ]
  retry-Moves w prepare p = elim (Bool-cases (is_empty (take_fragment p).token)) [
    | inl e ↦ rw (e, start_prepare) gives_up
    | inr e ↦ rw (e, start_prepare) prepares
  ]

  finish-Moves :
      (reply : Reply) (i : ℕ) (o : Option Request) (p : Page) (v : Inv p)
      → get_elem? p.pending i ≡ o
      → Moves p.current
          (finish cal c reply o (record p { pending = remove_at i p.pending })).current
  unfolding finish
  finish-Moves reply i none p v e = stays p.current
  finish-Moves reply i (some (prepare_request t)) p v e =
      let at = prepare_state p.current p.token t p.pending i v.waits e in
      subst
        (λ s.
          Moves s
            (finish_prepare cal c reply (record p { pending = remove_at i p.pending })).current)
        (sym at) (finish_prepare-Moves reply _)
  finish-Moves reply i (some (consume_request t w)) p v e =
      let at = consume_state p.current p.token t w p.pending i v.waits e in
      subst
        (λ s.
          Moves s (finish_reveal c reply (record p { pending = remove_at i p.pending })).current)
        (sym at) (finish_reveal-Moves reply _)

  start_reveal-Moves :
      (w : Text) (p : Page) (v : Inv p)
      → (shows ready p.panels && not p.button_disabled) ≡ true
      → Moves p.current (start_reveal c w p).current
  unfolding start_reveal set_state set_submitting
  start_reveal-Moves w p v h =
      let (move, held) =
        reveal-Moves p.current p.token (rw (v.panels_shown, v.button_locked) at h) v.holds in
      rw held move

  keeps-Moves :
      (b : Bool) (q p : Page) → q.current ≡ p.current → Moves p.current (if b then q else p).current
  keeps-Moves true q p e = subst (λ s. Moves p.current s) (sym e) (stays p.current)
  keeps-Moves false q p e = stays p.current

  copy_secret-current : (p : Page) → (copy_secret cal c p).current ≡ p.current
  unfolding copy_secret
  copy_secret-current p = ground arith

  copy_row-current : (o : Option SecretRow) (p : Page) → (copy_row cal c o p).current ≡ p.current
  unfolding copy_row
  copy_row-current none p = refl
  copy_row-current (some r) p = refl

  pub step-Moves : (p : Page) (v : Inv p) (e : Event) → Moves p.current (step cal c p e).current
  unfolding step copy_secret
  step-Moves p v (click_reveal w) =
      elim (Bool-cases (shows ready p.panels && not p.button_disabled)) [
        | inl h ↦ rw h (start_reveal-Moves w p v h)
        | inr h ↦ rw h (stays p.current)
      ]
  step-Moves p v (press_enter w) =
      elim (Bool-cases (shows ready p.panels && not p.password_hidden && not p.button_disabled)) [
        | inl h ↦ rw h (start_reveal-Moves w p v (ground arith))
        | inr h ↦ rw h (stays p.current)
      ]
  step-Moves p v (click_retry w) = elim (Bool-cases (shows network_error p.panels)) [
    | inl h ↦ rw h (
        subst (λ s. Moves s (retry cal c w p.retry_action p).current)
          (sym (retry_state p.current (rw v.panels_shown at h))) (retry-Moves w p.retry_action p))
    | inr h ↦ rw h (stays p.current)
  ]
  step-Moves p v copy_all = keeps-Moves _ _ p (copy_secret-current p)
  step-Moves p v (toggle_field i) = keeps-Moves _ _ p refl
  step-Moves p v (copy_field i) = keeps-Moves _ _ p (copy_row-current _ p)
  step-Moves p v (answer i reply) = finish-Moves reply i _ p v refl
  step-Moves p v (edit_fragment t) = stays p.current

  -- On a page opened at any address, after any events, each further event makes one move of the
  -- machine or none.
  pub run-step-Moves :
      (loading_text : Option Text) (fragment : Text) (es : List Event) (e : Event)
      → let p = run cal c (opened c loading_text fragment) es in
        Moves p.current (step cal c p e).current
  run-step-Moves loading_text fragment es e =
      step-Moves _ (run-opened-Inv cal c loading_text fragment es) e
