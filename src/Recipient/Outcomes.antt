-- ===== src/Recipient/Outcomes.antt =====
-- How `reveal` and the retry of web/static/reveal.js end, for each answer of the server.
use secureshare.Prelude.{
  ℕ, ◌≡◌, refl, ◌∙◌, true, false, List, [], ◌∷◌, Option, some, arith, inl, inr, ◌⊎◌, Bool-cases,
  Option-cases, get_elem?, remove_at, ◌==◌, ◌&&◌, ◌||◌, not,
}
use secureshare.Text.{Text, lit, is_empty}
use secureshare.Json.{Json, Value, prop, own, is_string}
use secureshare.Time.{Calendar}
use secureshare.Recipient.{
  Copy, Page, State, submitting, password_error, revealed, unavailable, network_error, reveal,
  Request, consume_request, set_state, set_submitting, session_lost, show_network_error,
  show_unavailable,
}
use secureshare.Recipient.Payload.{render_secret}
use secureshare.Recipient.Flow.{
  Reply, failed, answered, start_reveal, finish_reveal, is_ok, accepted, refused, reveal_body,
  settle, body_or_empty,
}
use secureshare.Recipient.Events.{
  Event, click_retry, answer, retry, finish, step, run, opened, template_panels,
}
use secureshare.Recipient.Invariant.{panels_for, render_secret-frame}
use secureshare.Recipient.Events.Keeps.{
  run-opened-Inv, Pending, nothing, preparing, consuming, Waits-Pending,
}

-- What a page in a final state of `reveal` keeps of the page `p` that sent the request.
abbrev pub Ends : Copy → State → Page → Page → Type 0
Ends c password_error p q =
    (q.token ≡ p.token)
    × (q.error_text ≡ c.wrong_password)
    × (q.password_hidden ≡ p.password_hidden)
    × (q.focused ≡ (not p.password_hidden || p.focused))
Ends c unavailable p q = q.token ≡ []
Ends c revealed p q = q.token ≡ []
Ends c network_error p q = (q.retry_action ≡ reveal) × ((q.token ≡ p.token) ⊎ (q.token ≡ []))
Ends c _ p q = ⊥

module _ (c : Copy) (p : Page) where
  accepted-Ends :
      (status : ℕ) (body : Option Json)
      → is_ok status ≡ true
      → let q = finish_reveal c (answered status body) p in
        (q.button_disabled ≡ false) × Ends c q.current p q
  unfolding finish_reveal reveal_body accepted settle set_state set_submitting show_network_error
  accepted-Ends status body good =
      elim (Option-cases (prop (lit "payload") (some (body_or_empty body)))) [
        | inl e ↦ rw (good, reveal_body) (rw (e, accepted) (refl, (refl, inr refl)))
        | inr (payload, e) ↦
            let legacy = own (lit "secret") (body_or_empty body) in
            let q = record p { token = [] } in
            let (_, _, token, _, _) = render_secret-frame c payload legacy q in
            elim (Bool-cases (render_secret c payload legacy q).1) [
              | inl threw ↦
                  rw (good, reveal_body) (rw (e, accepted) (rw threw (refl, (refl, inr token))))
              | inr shown ↦ rw (good, reveal_body) (rw (e, accepted) (rw shown (refl, token)))
            ]
      ]

  refused-Ends :
      (status : ℕ) (body : Option Json)
      → is_ok status ≡ false
      → let q = finish_reveal c (answered status body) p in
        (q.button_disabled ≡ false) × Ends c q.current p q
  unfolding finish_reveal reveal_body refused settle set_state set_submitting show_network_error
      show_unavailable
  refused-Ends status body bad =
      elim (Option-cases (prop (lit "code") (some (body_or_empty body)))) [
        | inl e ↦ rw (bad, reveal_body) (rw (e, reveal_body) (refl, (refl, inl refl)))
        | inr (code, e) ↦
            elim (Bool-cases (status == 401 && is_string (lit "LINK_PASSWORD_INVALID") code)) [
              | inl wrong ↦
                  rw (bad, reveal_body)
                    (rw (e, reveal_body) (rw (wrong, refused) (refl, (refl, refl, refl, refl))))
              | inr other ↦ elim (Bool-cases (is_string (lit "SECRET_UNAVAILABLE") code)) [
                | inl gone ↦
                    rw (bad, reveal_body)
                      (rw (e, reveal_body) (rw (other, refused) (rw gone (refl, refl))))
                | inr unknown ↦
                    rw (bad, reveal_body)
                      (rw (e, reveal_body)
                        (rw (other, refused) (rw unknown (refl, (refl, inl refl)))))
              ]
            ]
      ]

  -- However the server answers a consumption, or fails to, the reveal button is enabled again and
  -- the page is in one of four states: `password_error` with the token kept and the message set,
  -- where the password field is focused if it was on display, and stays hidden, its message with
  -- it, if it was not; `unavailable` and `revealed` without the token; `network_error` with a retry
  -- that repeats the consumption, its token kept or gone.
  pub finish_reveal-Ends :
      (reply : Reply)
      → let q = finish_reveal c reply p in (q.button_disabled ≡ false) × Ends c q.current p q
  finish_reveal-Ends failed =
      unfold finish_reveal reveal_body settle set_state set_submitting show_network_error in
      (refl, (refl, inl refl))
  finish_reveal-Ends (answered status body) = elim (Bool-cases (is_ok status)) [
    | inl good ↦ accepted-Ends status body good
    | inr bad ↦ refused-Ends status body bad
  ]

-- A consumption that waits carries the page's token.
consume_token :
    (t w t' : Text) (rs : List Request)
    → Pending t' rs
    → get_elem? rs 0 ≡ some (consume_request t w)
    → (t ≡ t') × (is_empty t' ≡ false)
consume_token t w t' rs (nothing e) h = ground arith
consume_token t w t' rs (preparing e held) h = ground arith
consume_token t w t' rs (consuming u e held) h = ground arith

module _ (cal : Calendar) (c : Copy) where
  failed-retry :
      (p : Page) (s : State) (w' : Text)
      → p.panels ≡ panels_for s
      → is_empty p.token ≡ false
      → let q = step cal c (finish_reveal c failed p) (click_retry w') in
        (q.sent ≡ consume_request p.token w' ∷ p.sent) × (q.current ≡ submitting)
  unfolding step retry start_reveal finish_reveal reveal_body settle set_state set_submitting
      show_network_error template_panels
  failed-retry p s w' at held = rw (at, held) (refl, refl)

  finish-retry :
      (p : Page) (s : State) (o : Option Request) (t w w' : Text)
      → o ≡ some (consume_request t w)
      → t ≡ p.token
      → p.panels ≡ panels_for s
      → is_empty p.token ≡ false
      → let q = step cal c (finish cal c failed o p) (click_retry w') in
        (q.sent ≡ consume_request t w' ∷ p.sent) × (q.current ≡ submitting)
  unfolding finish
  finish-retry p s o t w w' e same at held = rw (e, same) (failed-retry p s w' at held)

  -- If a consumption is the first request that waits, and its answer is lost, a click on retry sends
  -- it again: the same token, with the password that the field holds then.
  pub retry-consume :
      (loading_text : Option Text) (fragment : Text) (es : List Event) (t w w' : Text)
      → let p = run cal c (opened c loading_text fragment) es in
        get_elem? p.pending 0 ≡ some (consume_request t w)
        → let q = step cal c (step cal c p (answer 0 failed)) (click_retry w') in
          (q.sent ≡ consume_request t w' ∷ p.sent) × (q.current ≡ submitting)
  unfolding step
  retry-consume loading_text fragment es t w w' at =
      let p = run cal c (opened c loading_text fragment) es in
      let v = run-opened-Inv cal c loading_text fragment es in
      let (same, held) =
        consume_token t w p.token p.pending (Waits-Pending _ _ _ v.waits v.holds) at in
      finish-retry (record p { pending = remove_at 0 p.pending }) p.current (get_elem? p.pending 0)
        t w w' at same v.panels_shown held

  -- On a page whose panels are those of a state, a good answer whose payload throws when it is shown
  -- loses the secret: the page offers a retry of the consumption, and a click on it sends nothing,
  -- and tells the reader to reopen the link.
  pub unshown_secret_is_lost :
      (p : Page) (s : State) (status : ℕ) (body : Option Json) (payload : Value) (w : Text)
      → p.panels ≡ panels_for s
      → is_ok status ≡ true
      → prop (lit "payload") (some (body_or_empty body)) ≡ some payload
      → (render_secret c payload
          (own (lit "secret") (body_or_empty body))
          (record p { token = [] })).1
        ≡ true
      → let q = finish_reveal c (answered status body) p in
        let r = step cal c q (click_retry w) in
        (q.current ≡ network_error)
        × (q.retry_action ≡ reveal)
        × (r.current ≡ unavailable)
        × (r.message ≡ c.session_lost_message)
        × (r.sent ≡ p.sent)
  unfolding step retry start_reveal session_lost finish_reveal reveal_body accepted settle set_state
      set_submitting show_network_error template_panels
  unshown_secret_is_lost p s status body payload w at good e threw =
      let (at', _, token, sent, _) =
        render_secret-frame c payload (own (lit "secret") (body_or_empty body))
          (record p { token = [] }) in
      rw (good, reveal_body)
        (rw (e, accepted) (rw threw (rw (token, at' ∙ at) (refl, refl, refl, refl, sent))))
