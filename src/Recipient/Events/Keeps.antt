-- ===== src/Recipient/Events/Keeps.antt =====
-- Every event keeps the invariant of the recipient page of web/static/reveal.js.
use secureshare.Prelude.{
  ℕ, zero, suc, ◌≡◌, refl, sym, subst, ◌∙◌, Bool, true, false, not, ◌&&◌, List, [], ◌∷◌, Option,
  none, some, arith, inl, inr, Bool-cases, get_elem?, remove_at,
}
use secureshare.Text.{Text, is_empty}
use secureshare.Time.{Calendar}
use secureshare.Recipient.{
  Copy, Page, State, loading, ready, submitting, password_error, revealed, network_error, Action,
  prepare, reveal, Request, prepare_request, consume_request, is_state, SecretRow,
}
use secureshare.Recipient.Flow.{Reply}
use secureshare.Recipient.Flow.Keeps.{
  Idle, start_reveal-Inv, start_prepare-Inv, finish_prepare-Inv, finish_reveal-Inv,
}
use secureshare.Recipient.Events.{
  Event, click_reveal, press_enter, click_retry, copy_all, toggle_field, copy_field, answer,
  edit_fragment, shows, retry, copy_secret, copy_row, finish, step, run, opened, blank_page,
  template_panels,
}
use secureshare.Recipient.Invariant.{panels_for, Waits, Holds, Inv, aside-Inv}

-- The panels tell the state: a reveal button that is on display and not locked is one of `ready` and
-- `password_error`, and the retry button is one of `network_error`.
reveal_enabled-idle :
    (s : State) (t : Text) (rs : List Request)
    → (shows ready (panels_for s) && not (is_state s submitting)) ≡ true
    → Waits s t rs
    → rs ≡ []
unfolding template_panels
reveal_enabled-idle ready t rs h w = w
reveal_enabled-idle password_error t rs h w = w
reveal_enabled-idle _ t rs h w = cc

retry_shown-idle :
    (s : State) (t : Text) (rs : List Request)
    → shows network_error (panels_for s) ≡ true
    → Waits s t rs
    → (rs ≡ []) × (is_state s submitting ≡ false)
unfolding template_panels
retry_shown-idle network_error t rs h w = (w, refl)
retry_shown-idle _ t rs h w = cc

-- What may be pending.
pub data Pending (t : Text) (rs : List Request) : Type 0 where
  nothing : rs ≡ [] → Pending t rs
  preparing : rs ≡ prepare_request t ∷ [] → is_empty t ≡ false → Pending t rs
  consuming : (w : Text) → rs ≡ consume_request t w ∷ [] → is_empty t ≡ false → Pending t rs

pub Waits-Pending :
    (s : State) (t : Text) (rs : List Request) → Waits s t rs → Holds s t → Pending t rs
Waits-Pending loading t rs w h = preparing w h
Waits-Pending submitting t rs (w, e) h = consuming w e h
Waits-Pending ready t rs w h = nothing w
Waits-Pending _ t rs w h = nothing w

and_ends : (a b d : Bool) → (a && b && d) ≡ true → (a && d) ≡ true
and_ends a b d h = ground arith

module _ (cal : Calendar) (c : Copy) (p : Page) (v : Inv p) where
  pending-Inv : (rs : List Request) → p.pending ≡ rs → Inv (record p { pending = rs })
  pending-Inv rs e = subst (λ rs. Inv (record p { pending = rs })) e v

  idle : p.pending ≡ [] → Idle p p.current
  idle e = record { panels_at = v.panels_shown; nothing_pending = e }

  reveal_enabled-pending : (shows ready p.panels && not p.button_disabled) ≡ true → p.pending ≡ []
  reveal_enabled-pending h =
      reveal_enabled-idle p.current p.token p.pending (rw (v.panels_shown, v.button_locked) at h)
        v.waits

  retry-Inv :
      (w : Text) (a : Action) → shows network_error p.panels ≡ true → Inv (retry cal c w a p)
  unfolding retry
  retry-Inv w reveal h =
      let (e, free) =
        retry_shown-idle p.current p.token p.pending (rw v.panels_shown at h) v.waits in
      start_reveal-Inv c p p.current (idle e) w
  retry-Inv w prepare h =
      let (e, free) =
        retry_shown-idle p.current p.token p.pending (rw v.panels_shown at h) v.waits in
      start_prepare-Inv c p p.current (idle e) (v.button_locked ∙ free)

  -- The answer to a request that is not there changes nothing.
  no_answer-Inv :
      (reply : Reply) (rs : List Request)
      → p.pending ≡ rs
      → Inv (finish cal c reply none (record p { pending = rs }))
  unfolding finish
  no_answer-Inv reply rs e = pending-Inv rs e

  alone : Idle (record p { pending = [] }) p.current
  alone = record { panels_at = v.panels_shown; nothing_pending = refl }

  abbrev Answered : ℕ → Reply → List Request → Type 0
  Answered i reply rs =
      Inv (finish cal c reply (get_elem? rs i) (record p { pending = remove_at i rs }))

  answer_one :
      (i : ℕ) (reply : Reply) (r : Request)
      → p.pending ≡ r ∷ []
      → Inv (finish cal c reply (some r) (record p { pending = [] }))
      → Answered i reply (r ∷ [])
  answer_one zero reply r e v' = v'
  answer_one (suc i) reply r e v' = no_answer-Inv reply (r ∷ []) e

  answer-Inv : (i : ℕ) (reply : Reply) → Pending p.token p.pending → Answered i reply p.pending
  unfolding finish
  answer-Inv i reply (nothing e) = subst (Answered i reply) (sym e) (no_answer-Inv reply [] e)
  answer-Inv i reply (preparing e held) = subst (Answered i reply) (sym e) (
      answer_one i reply (prepare_request p.token) e
        (finish_prepare-Inv cal c p.current reply (record p { pending = [] }) alone held))
  answer-Inv i reply (consuming w e held) = subst (Answered i reply) (sym e) (
      answer_one i reply (consume_request p.token w) e
        (finish_reveal-Inv c p.current reply (record p { pending = [] }) alone held))

  copy_secret-Inv : (b : Bool) → is_empty p.revealed_text ≡ b → Inv (copy_secret cal c p)
  unfolding copy_secret
  copy_secret-Inv true e = rw e v
  copy_secret-Inv false e = rw e (aside-Inv p p.fragment p.focused p.rows _ _ v)

  copy_row-Inv : (r : Option SecretRow) → Inv (copy_row cal c r p)
  unfolding copy_row
  copy_row-Inv none = v
  copy_row-Inv (some r) = aside-Inv p p.fragment p.focused p.rows _ _ v

  -- Every event keeps the invariant.
  pub step-Inv : (e : Event) → Inv (step cal c p e)
  unfolding step
  step-Inv (click_reveal w) = elim (Bool-cases (shows ready p.panels && not p.button_disabled)) [
    | inl h ↦ rw h (start_reveal-Inv c p p.current (idle (reveal_enabled-pending h)) w)
    | inr h ↦ rw h v
  ]
  step-Inv (press_enter w) =
      elim (Bool-cases (shows ready p.panels && not p.password_hidden && not p.button_disabled)) [
        | inl h ↦
            let e =
              reveal_enabled-pending (
                and_ends (shows ready p.panels) (not p.password_hidden) (not p.button_disabled)
                  h) in
            rw h (start_reveal-Inv c p p.current (idle e) w)
        | inr h ↦ rw h v
      ]
  step-Inv (click_retry w) = elim (Bool-cases (shows network_error p.panels)) [
    | inl h ↦ rw h (retry-Inv w p.retry_action h)
    | inr h ↦ rw h v
  ]
  step-Inv copy_all = elim (Bool-cases (shows revealed p.panels)) [
    | inl h ↦ rw h (copy_secret-Inv (is_empty p.revealed_text) refl)
    | inr h ↦ rw h v
  ]
  step-Inv (toggle_field i) = elim (Bool-cases (shows revealed p.panels)) [
    | inl h ↦ rw h (aside-Inv p p.fragment p.focused _ p.clipboard p.toasts v)
    | inr h ↦ rw h v
  ]
  step-Inv (copy_field i) = elim (Bool-cases (shows revealed p.panels)) [
    | inl h ↦ rw h (copy_row-Inv (get_elem? p.rows i))
    | inr h ↦ rw h v
  ]
  step-Inv (answer i reply) =
      answer-Inv i reply (Waits-Pending p.current p.token p.pending v.waits v.holds)
  step-Inv (edit_fragment t) = aside-Inv p t p.focused p.rows p.clipboard p.toasts v

module _ (cal : Calendar) (c : Copy) where
  run-Inv_from : (p : Page) (es : List Event) → Inv p → Inv (run cal c p es)
  unfolding run
  run-Inv_from p [] v = v
  run-Inv_from p (e ∷ es) v = run-Inv_from (step cal c p e) es (step-Inv cal c p v e)

  opened-Inv : (loading_text : Option Text) (fragment : Text) → Inv (opened c loading_text fragment)
  unfolding opened blank_page template_panels
  opened-Inv loading_text fragment =
      start_prepare-Inv c (blank_page c loading_text fragment) loading
        (record { panels_at = refl; nothing_pending = refl }) refl

  -- After any events in any order, on a page opened at any address: the panels, the body's state, the
  -- message and the mark of the password field, and the lock of the button are those of the current
  -- state; one request waits in `loading` and in `submitting`, with the page's token, and none
  -- elsewhere; and the token is there while it is needed and gone in `revealed` and `unavailable`.
  pub run-opened-Inv :
      (loading_text : Option Text) (fragment : Text) (es : List Event)
      → Inv (run cal c (opened c loading_text fragment) es)
  run-opened-Inv loading_text fragment es = run-Inv_from _ es (opened-Inv loading_text fragment)
