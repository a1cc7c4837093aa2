-- ===== src/Links/Asked.antt =====
-- What the dialog decides about the links: `confirmAction` and `setupRevokeButtons` of
-- web/static/admin.js.
use secureshare.Prelude.{
  ℕ, ◌≡◌, ◌≢◌, refl, ◌∙◌, Bool, true, false, List, [], ◌∷◌, Option, none, some, All, get_elem?,
  modify_at, remove_at, either_branch, get_elem?-modify_at_other, text_eq,
}
use secureshare.Text.{Text}
use secureshare.Fetch.{Reply, failed, answered}
use secureshare.Dialog.{Dialog, Closing, cancel, confirm, escape, close, is_confirmed}
use secureshare.Links.{
  RevokeButton, Page, start_ask, start_revoke, resume, finish, Event, click, close_dialog, answer,
  step, run,
}

abbrev pub is_confirm : Closing → Bool
is_confirm confirm = true
is_confirm _ = false

abbrev pub confirms : Event → Bool
confirms (close_dialog how) = is_confirm how
confirms _ = false

-- The page has sent nothing beyond `sent`, and the dialog does not hold a confirmation.
abbrev Calm : List (ℕ × Text) → Page → Type 0
Calm sent p = (p.sent ≡ sent) × (is_confirmed p.dialog ≡ false)

close-unconfirmed :
    (how : Closing) (d : Dialog)
    → is_confirm how ≡ false
    → is_confirmed d ≡ false
    → is_confirmed (close how d) ≡ false
unfolding close text_eq
close-unconfirmed cancel d h c = refl
close-unconfirmed confirm d h c = cc
close-unconfirmed escape d h c = c

module _ (sent : List (ℕ × Text)) where
  start_ask-Calm :
      (i : ℕ) (b : Option RevokeButton) (p : Page) → Calm sent p → Calm sent (start_ask i b p)
  unfolding start_ask
  start_ask-Calm i none p c = c
  start_ask-Calm i (some b) p c = either_branch (Calm sent) b.disabled p _ (λ e. c) (λ e. c)

  resume-Calm : (who : Option ℕ) (p : Page) → Calm sent p → Calm sent (resume who p)
  unfolding resume
  resume-Calm none p c = c
  resume-Calm (some i) p (same, calm) = rw calm (same, calm)

  finish-Calm :
      (who : Option ℕ) (reply : Reply) (p : Page) → Calm sent p → Calm sent (finish who reply p)
  unfolding finish
  finish-Calm none reply p c = c
  finish-Calm (some i) failed p c = c
  finish-Calm (some i) (answered status body) p c =
      either_branch (Calm sent) _ _ _ (λ e. c) (λ e. c)

  step-Calm : (e : Event) (p : Page) → confirms e ≡ false → Calm sent p → Calm sent (step p e)
  unfolding step
  step-Calm (click i) p h c =
      either_branch (Calm sent) p.dialog.is_open p (start_ask i (get_elem? p.buttons i) p) (λ e. c)
        (λ e. start_ask-Calm i (get_elem? p.buttons i) p c)
  step-Calm (close_dialog how) p h (same, calm) =
      let q = record p { asking = none; dialog = close how p.dialog } in
      either_branch (Calm sent) p.dialog.is_open (resume p.asking q) p
        (λ e. resume-Calm p.asking q (same, close-unconfirmed how p.dialog h calm))
        (λ e. (same, calm))
  step-Calm (answer k reply) p h c =
      finish-Calm (get_elem? p.pending k) reply (record p { pending = remove_at k p.pending }) c

  run-Calm :
      (es : List Event) (p : Page)
      → All (λ e. confirms e ≡ false) es
      → Calm sent p
      → Calm sent (run p es)
  unfolding run
  run-Calm [] p h c = c
  run-Calm (e ∷ es) p (here, there) c = run-Calm es (step p e) there (step-Calm e p here c)

-- As long as the user never presses the confirm button of the dialog, nothing is sent, whatever else
-- happens, if the dialog holds no confirmation when the run begins.
pub run-unconfirmed :
    (p : Page) (es : List Event)
    → is_confirmed p.dialog ≡ false
    → All (λ e. confirms e ≡ false) es
    → (run p es).sent ≡ p.sent
run-unconfirmed p es calm h = (run-Calm p.sent es p h (refl, calm)).0

-- If no dialog is open and the buttons of two links are enabled, and the user confirms for the one,
-- clicks the button of the other and presses Escape, the other link is revoked too.
pub escape_revokes :
    (p : Page) (i j : ℕ) (b c : RevokeButton)
    → p.dialog.is_open ≡ false
    → i ≢ j
    → get_elem? p.buttons i ≡ some b
    → get_elem? p.buttons j ≡ some c
    → b.disabled ≡ false
    → c.disabled ≡ false
    → (run p (click i ∷ close_dialog confirm ∷ click j ∷ close_dialog escape ∷ [])).sent
      ≡ (j, c.id) ∷ (i, b.id) ∷ p.sent
unfolding run step start_ask resume start_revoke close text_eq
escape_revokes p i j b c closed n at_i at_j free_b free_c =
    let still : get_elem?
          (modify_at i (λ (r : RevokeButton). record r { disabled = true }) p.buttons) j
        ≡ some c =
      get_elem?-modify_at_other p.buttons i j _ n ∙ at_j in
    simp (closed, at_i, free_b, still, free_c) refl
