-- ===== src/Recipient/Tokens.antt =====
-- The tokens that the recipient's page of web/static/reveal.js sends are never empty.
pub mod Own
use secureshare.Prelude.{
  ◌≡◌, refl, subst, sym, false, List, [], ◌∷◌, Option, none, some, arith, inl, inr, Bool-cases,
  get_elem?, All,
}
use secureshare.Text.{Text, is_empty}
use secureshare.Time.{Calendar}
use secureshare.Recipient.{
  Copy, Page, Action, prepare, reveal, Request, prepare_request, consume_request, SecretRow,
  set_state, set_submitting, show_unavailable, session_lost, show_network_error,
}
use secureshare.Recipient.Flow.{
  Reply, failed, answered, start_prepare, start_reveal, finish_prepare, finish_reveal, is_ok,
  prepare_body, make_ready, show_expiry, reveal_body, refused, settle,
}
use secureshare.Recipient.Events.{
  Event, click_reveal, press_enter, click_retry, copy_all, toggle_field, copy_field, answer,
  edit_fragment, retry, copy_secret, copy_row, finish, step, run, opened, blank_page,
}
use secureshare.Recipient.Safety.{token_of, accepted-frame}

module _ (cal : Calendar) (c : Copy) where
  abbrev IsOpenToken : Request → Type 0
  IsOpenToken r = is_empty (token_of r) ≡ false

  start_reveal-sent :
      (w : Text) (p : Page) → All IsOpenToken p.sent → All IsOpenToken (start_reveal c w p).sent
  unfolding start_reveal session_lost set_state set_submitting
  start_reveal-sent w p h = ground arith

  start_prepare-sent :
      (p : Page) → All IsOpenToken p.sent → All IsOpenToken (start_prepare c p).sent
  unfolding start_prepare session_lost set_state set_submitting
  start_prepare-sent p h = ground arith

  finish_prepare-sent : (reply : Reply) (p : Page) → (finish_prepare cal c reply p).sent ≡ p.sent
  unfolding finish_prepare set_state set_submitting prepare_body make_ready show_expiry
      show_unavailable show_network_error
  finish_prepare-sent failed p = refl
  finish_prepare-sent (answered status body) p = ground arith

  finish_reveal-sent : (reply : Reply) (p : Page) → (finish_reveal c reply p).sent ≡ p.sent
  unfolding finish_reveal reveal_body settle set_state set_submitting refused show_unavailable
      show_network_error
  finish_reveal-sent failed p = refl
  finish_reveal-sent (answered status body) p = elim (Bool-cases (is_ok status)) [
    | inl good ↦ (accepted-frame cal c status body p good).3
    | inr bad ↦ ground arith
  ]

  retry-sent :
      (w : Text) (a : Action) (p : Page)
      → All IsOpenToken p.sent
      → All IsOpenToken (retry cal c w a p).sent
  unfolding retry
  retry-sent w reveal p h = start_reveal-sent w p h
  retry-sent w prepare p h = start_prepare-sent p h

  finish-sent :
      (reply : Reply) (o : Option Request) (p : Page) → (finish cal c reply o p).sent ≡ p.sent
  unfolding finish
  finish-sent reply none p = refl
  finish-sent reply (some (prepare_request t)) p = finish_prepare-sent reply p
  finish-sent reply (some (consume_request t w)) p = finish_reveal-sent reply p

  copy_row-sent : (o : Option SecretRow) (p : Page) → (copy_row cal c o p).sent ≡ p.sent
  unfolding copy_row
  copy_row-sent none p = refl
  copy_row-sent (some r) p = refl

  step-sent :
      (p : Page) (e : Event) → All IsOpenToken p.sent → All IsOpenToken (step cal c p e).sent
  unfolding step copy_secret
  step-sent p (click_reveal w) h = ground (arith, start_reveal-sent w p h)
  step-sent p (press_enter w) h = ground (arith, start_reveal-sent w p h)
  step-sent p (click_retry w) h = ground (arith, retry-sent w p.retry_action p h)
  step-sent p copy_all h = ground arith
  step-sent p (toggle_field i) h = ground arith
  step-sent p (copy_field i) h = ground (arith, copy_row-sent (get_elem? p.rows i) p)
  step-sent p (answer i reply) h = subst (All IsOpenToken) (sym (finish-sent reply _ _)) h
  step-sent p (edit_fragment u) h = h

  run-sent :
      (p : Page) (es : List Event) → All IsOpenToken p.sent → All IsOpenToken (run cal c p es).sent
  unfolding run
  run-sent p [] h = h
  run-sent p (e ∷ es) h = run-sent (step cal c p e) es (step-sent p e h)

  -- Every request that a page ever sends carries a token that is not empty.
  pub sent-tokens :
      (loading_text : Option Text) (fragment : Text) (es : List Event)
      → All
          (λ r. is_empty (token_of r) ≡ false)
          (run cal c (opened c loading_text fragment) es).sent
  unfolding opened blank_page
  sent-tokens loading_text fragment es =
      run-sent _ es (start_prepare-sent (blank_page c loading_text fragment) tt)
