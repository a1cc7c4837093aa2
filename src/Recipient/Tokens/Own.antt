-- ===== src/Recipient/Tokens/Own.antt =====
-- A recipient's page of web/static/reveal.js sends no token but that of its address.
use secureshare.Prelude.{
  ℕ, Bool, Option-cases, either_case, ◌||◌, ◌≡◌, refl, sym, subst, ◌∙◌, ◌⊎◌, false, List, [], ◌∷◌,
  Option, none, some, arith, inl, inr, ◌==◌, Bool-cases, get_elem?, remove_at, All, either_branch,
  ◌&&◌, not,
}
use secureshare.Text.{Text, lit, is_empty}
use secureshare.Json.{Json, Value, prop, own, truthy, is_string}
use secureshare.Time.{Calendar}
use secureshare.Recipient.{
  Copy, Page, is_state, submitting, ready, revealed, network_error, Action, prepare, reveal,
  Request, prepare_request, consume_request, SecretRow, set_state, set_submitting, show_unavailable,
  session_lost, show_network_error,
}
use secureshare.Recipient.Flow.{
  Reply, failed, answered, start_prepare, start_reveal, finish_prepare, finish_reveal, is_ok,
  body_or_empty, prepare_body, make_ready, show_expiry, reveal_body, refused, settle,
}
use secureshare.Recipient.Events.{
  Event, click_reveal, press_enter, click_retry, copy_all, toggle_field, copy_field, answer,
  edit_fragment, shows, retry, copy_secret, copy_row, finish, step, run, opened, blank_page,
}
use secureshare.Recipient.Safety.{token_of, accepted-frame, IsInside}

-- The page holds this token or none, its address has no fragment, and all that it has sent carries
-- this token.
abbrev pub Own : Text → Page → Type 0
Own t p = ((p.token ≡ []) ⊎ (p.token ≡ t)) × (p.fragment ≡ []) × All (λ r. token_of r ≡ t) p.sent

-- What an answer leaves of the three.
abbrev Settled : Page → Page → Type 0
Settled p q = ((q.token ≡ []) ⊎ (q.token ≡ p.token)) × (q.fragment ≡ p.fragment) × (q.sent ≡ p.sent)

Settled-Own : (t : Text) (p q : Page) → Settled p q → Own t p → Own t q
Settled-Own t p q (inl gone, fragment, sent) (held, none_left, all) =
    (inl gone, fragment ∙ none_left, subst (All (λ r. token_of r ≡ t)) (sym sent) all)
Settled-Own t p q (inr same, fragment, sent) (inl gone, none_left, all) =
    (inl (same ∙ gone), fragment ∙ none_left, subst (All (λ r. token_of r ≡ t)) (sym sent) all)
Settled-Own t p q (inr same, fragment, sent) (inr own, none_left, all) =
    (inr (same ∙ own), fragment ∙ none_left, subst (All (λ r. token_of r ≡ t)) (sym sent) all)

module _ (cal : Calendar) (c : Copy) where
  show_expiry-Settled : (at : Value) (p q : Page) → show_expiry cal c at p ≡ some q → Settled p q
  unfolding show_expiry
  show_expiry-Settled at p q e = (inr (ground arith), ground arith, ground arith)

  make_ready-Settled : (body : Json) (p : Page) → Settled p (make_ready cal c body p).0
  unfolding make_ready set_state set_submitting
  make_ready-Settled body p =
      let q = record p { password_hidden = not (truthy (own (lit "password_required") body)) } in
      elim (Option-cases (show_expiry cal c (own (lit "expires_at") body) q)) [
        | inl e ↦ rw (e, make_ready) (inr refl, refl, refl)
        | inr (r, e) ↦
            let s : Settled q r = show_expiry-Settled (own (lit "expires_at") body) q r e in
            rw (e, make_ready) s
      ]

  prepare_body-Settled : (body : Json) (p : Page) → Settled p (prepare_body cal c body p).0
  unfolding prepare_body show_unavailable set_state set_submitting
  prepare_body-Settled body p =
      either_case (λ (r : Page × Bool). Settled p r.0) (prop (lit "may_attempt") (some body)) _ _
        (inr refl, refl, refl)
        (λ may.
          either_branch (λ (r : Page × Bool). Settled p r.0) (truthy may) _ _
            (λ e. make_ready-Settled body p) (λ e. (inl refl, refl, refl)))

  finish_prepare-Settled : (reply : Reply) (p : Page) → Settled p (finish_prepare cal c reply p)
  unfolding finish_prepare show_network_error set_state set_submitting
  finish_prepare-Settled failed p = (inr refl, refl, refl)
  finish_prepare-Settled (answered status body) p =
      let (read, threw) = prepare_body cal c (body_or_empty body) p in
      let s : Settled p read = prepare_body-Settled (body_or_empty body) p in
      either_branch (Settled p) (is_ok status) _ _
        (λ e. either_branch (Settled p) threw _ read (λ h. s) (λ h. s))
        (λ e. (inr refl, refl, refl))

  refused-Settled : (status : ℕ) (code : Value) (p : Page) → Settled p (refused c status code p).0
  unfolding refused show_unavailable show_network_error set_state set_submitting
  refused-Settled status code p =
      elim (Bool-cases (status == 401 && is_string (lit "LINK_PASSWORD_INVALID") code)) [
        | inl wrong ↦ rw (wrong, refused) (inr refl, refl, refl)
        | inr other ↦ elim (Bool-cases (is_string (lit "SECRET_UNAVAILABLE") code)) [
          | inl gone ↦ rw (other, refused) (rw gone (inl refl, refl, refl))
          | inr unknown ↦ rw (other, refused) (rw unknown (inr refl, refl, refl))
        ]
      ]

  settle-Settled : (p q : Page) (focus : Bool) → Settled p q → Settled p (settle c (q, focus))
  unfolding settle set_state set_submitting
  settle-Settled p q focus s =
      either_branch
        (λ (r : Page).
          Settled p (record r { focused = (focus && not r.password_hidden) || r.focused }))
        (is_state q.current submitting) _ _ (λ e. s) (λ e. s)

  finish_reveal-Settled : (reply : Reply) (p : Page) → Settled p (finish_reveal c reply p)
  unfolding finish_reveal reveal_body show_network_error set_state set_submitting
  finish_reveal-Settled failed p = settle-Settled p _ false (inr refl, refl, refl)
  finish_reveal-Settled (answered status body) p = elim (Bool-cases (is_ok status)) [
    | inl good ↦
        let (token, fragment, _, sent) = accepted-frame cal c status body p good in
        (inl token, fragment, sent)
    | inr bad ↦ elim (Option-cases (prop (lit "code") (some (body_or_empty body)))) [
      | inl e ↦
          rw (bad, reveal_body)
            (rw (e, reveal_body)
              (settle-Settled p (show_network_error c reveal p) false (inr refl, refl, refl)))
      | inr (code, e) ↦
          rw (bad, reveal_body)
            (rw (e, reveal_body)
              (settle-Settled p (refused c status code p).0 (refused c status code p).1
                (refused-Settled status code p)))
    ]
  ]

  finish-Settled :
      (reply : Reply) (o : Option Request) (p : Page) → Settled p (finish cal c reply o p)
  unfolding finish
  finish-Settled reply none p = (inr refl, refl, refl)
  finish-Settled reply (some (prepare_request t)) p = finish_prepare-Settled reply p
  finish-Settled reply (some (consume_request t w)) p = finish_reveal-Settled reply p

  module _ (t : Text) where
    start_reveal-Own : (w : Text) (p : Page) → Own t p → Own t (start_reveal c w p)
    unfolding start_reveal session_lost set_state set_submitting
    start_reveal-Own w p (inl gone, none_left, all) = ground arith
    start_reveal-Own w p (inr own, none_left, all) = ground arith

    start_prepare-Own : (p : Page) → Own t p → Own t (start_prepare c p)
    unfolding start_prepare session_lost set_state set_submitting
    start_prepare-Own p (inl gone, none_left, all) = ground arith
    start_prepare-Own p (inr own, none_left, all) = ground arith

    retry-Own : (w : Text) (a : Action) (p : Page) → Own t p → Own t (retry cal c w a p)
    unfolding retry
    retry-Own w reveal p h = start_reveal-Own w p h
    retry-Own w prepare p h = start_prepare-Own p h

    copy_row-Own : (o : Option SecretRow) (p : Page) → Own t p → Own t (copy_row cal c o p)
    unfolding copy_row
    copy_row-Own none p h = h
    copy_row-Own (some r) p h = h

    step-Own : (p : Page) (e : Event) → IsInside e → Own t p → Own t (step cal c p e)
    unfolding step copy_secret
    step-Own p (click_reveal w) i h =
        either_branch (Own t) (shows ready p.panels && not p.button_disabled) _ p
          (λ e. start_reveal-Own w p h) (λ e. h)
    step-Own p (press_enter w) i h =
        either_branch (Own t)
          (shows ready p.panels && not p.password_hidden && not p.button_disabled) _ p
          (λ e. start_reveal-Own w p h) (λ e. h)
    step-Own p (click_retry w) i h =
        either_branch (Own t) (shows network_error p.panels) _ p
          (λ e. retry-Own w p.retry_action p h) (λ e. h)
    step-Own p copy_all i h =
        either_branch (Own t) (shows revealed p.panels) _ p
          (λ e. either_branch (Own t) (is_empty p.revealed_text) p _ (λ k. h) (λ k. h)) (λ e. h)
    step-Own p (toggle_field n) i h =
        either_branch (Own t) (shows revealed p.panels) _ p (λ e. h) (λ e. h)
    step-Own p (copy_field n) i h =
        either_branch (Own t) (shows revealed p.panels) _ p
          (λ e. copy_row-Own (get_elem? p.rows n) p h) (λ e. h)
    step-Own p (answer k reply) i h =
        let rest = record p { pending = remove_at k p.pending } in
        Settled-Own t rest (finish cal c reply (get_elem? p.pending k) rest)
          (finish-Settled reply (get_elem? p.pending k) rest) h
    step-Own p (edit_fragment u) i h = absurd i

    run-Own : (p : Page) (es : List Event) → All IsInside es → Own t p → Own t (run cal c p es)
    unfolding run
    run-Own p [] i h = h
    run-Own p (e ∷ es) i h = run-Own (step cal c p e) es i.1 (step-Own p e i.0 h)

  -- The page that has just been opened.
  opened-Own : (loading_text : Option Text) (token : Text) → Own token (opened c loading_text token)
  unfolding opened blank_page start_prepare session_lost set_state set_submitting
  opened-Own loading_text [] = (inl refl, refl, tt)
  opened-Own loading_text (u ∷ t) = (inr refl, refl, (refl, tt))

  -- Unless the reader edits the address, every request that a page ever sends carries the token with
  -- which it was opened, and the address bar holds no token any more.
  pub run-own_token :
      (loading_text : Option Text) (token : Text) (es : List Event)
      → All IsInside es
      → let p = run cal c (opened c loading_text token) es in
        All (λ r. token_of r ≡ token) p.sent × (p.fragment ≡ [])
  run-own_token loading_text token es inside =
      let (_, cleared, all) =
        run-Own token (opened c loading_text token) es inside (opened-Own loading_text token) in
      (all, cleared)
