-- ===== src/Links/Laws.antt =====
-- Each link of the list is revoked at most once: the listener of `setupRevokeButtons` in
-- web/static/admin.js.
use secureshare.Prelude.{
  test_at, test_at-get_elem?, test_at-modify_at, test_at-modify_at_same, either_branch, ℕ, ◌≡◌, ◌≤◌,
  refl, ◌∙◌, ap, Bool, true, false, List, [], ◌∷◌, Option, none, some, arith, count_if, one_if,
  get_elem?, remove_at, ◌==◌, Bool-cases, inl, inr,
}
use secureshare.Text.{Text, lit}
use secureshare.Fetch.{Reply, failed, answered, is_ok}
use secureshare.Dialog
use secureshare.Dialog.{Dialog, Closing, cancel, confirm, escape, is_confirmed}
use secureshare.Links.{
  announce, relabel, RevokeButton, Page, start_ask, start_revoke, resume, finish, Event, click,
  close_dialog, answer, step, run,
}

-- Whether the button at a position is disabled.
abbrev pub disabled_at : List RevokeButton → ℕ → Bool
disabled_at = test_at (λ b. b.disabled)

-- How often the link of the button at a position was sent to be revoked.
abbrev pub requests : Page → ℕ → ℕ
requests p i = count_if (λ call. call.0 == i) p.sent

-- Nothing is sent for a button that is not disabled, and at most one request for one that is; the
-- button that the dialog asks about is not disabled.
pub record Inv (p : Page) : Type 0 where
  pub once : (i : ℕ) → requests p i ≤ one_if (disabled_at p.buttons i)
  pub asks : (i : ℕ) → p.asking ≡ some i → disabled_at p.buttons i ≡ false

module _ (p : Page) (v : Inv p) where
  start_ask-Inv :
      (i : ℕ) (b : Option RevokeButton) → get_elem? p.buttons i ≡ b → Inv (start_ask i b p)
  unfolding start_ask
  start_ask-Inv i none h = v
  start_ask-Inv i (some b) h =
      let at = test_at-get_elem? (λ (r : RevokeButton). r.disabled) p.buttons i b h in
      elim (Bool-cases b.disabled) [
        | inl e ↦ rw e v
        | inr e ↦
            rw e
              (record { once = v.once; asks = λ j same. ap (disabled_at p.buttons) (cc) ∙ at ∙ e })
      ]

  start_revoke-Inv :
      (i : ℕ) (b : Option RevokeButton)
      → p.asking ≡ none
      → disabled_at p.buttons i ≡ false
      → get_elem? p.buttons i ≡ b
      → Inv (start_revoke i b p)
  unfolding start_revoke
  start_revoke-Inv i none quiet free h = v
  start_revoke-Inv i (some b) quiet free h = record {
    once = λ j.
        let before = v.once j in
        let after =
          test_at-modify_at (λ (r : RevokeButton). r.disabled) p.buttons i
            (λ r. record r { disabled = true }) b j h in
        grind arith;
    asks = λ j same. cc;
  }

  resume-Inv :
      (who : Option ℕ)
      → p.asking ≡ none
      → ((i : ℕ) → who ≡ some i → disabled_at p.buttons i ≡ false)
      → Inv (resume who p)
  unfolding resume
  resume-Inv none quiet free = v
  resume-Inv (some i) quiet free = elim (Bool-cases (is_confirmed p.dialog)) [
    | inl e ↦ rw e (start_revoke-Inv i (get_elem? p.buttons i) quiet (free i refl) refl)
    | inr e ↦ rw e v
  ]

  finish-Inv : (who : Option ℕ) (reply : Reply) → Inv (finish who reply p)
  unfolding finish
  finish-Inv none reply = v
  finish-Inv (some i) failed = v
  finish-Inv (some i) (answered status body) =
      let same_disabled : (t : Text) (j : ℕ)
          → disabled_at (relabel i t p).buttons j ≡ disabled_at p.buttons j =
        λ t j. test_at-modify_at_same _ _ p.buttons i j (λ r. refl) in
      let relabelled : (t note : Text) → Inv (announce note (relabel i t p)) = λ t note. record {
        once = λ j. rw (same_disabled t j) (v.once j);
        asks = λ j same. same_disabled t j ∙ v.asks j same;
      } in
      elim (Bool-cases (is_ok status)) [
        | inl e ↦ rw e (relabelled (lit "Revoked") (lit "Link revoked."))
        | inr e ↦ rw e (relabelled (lit "Unavailable") (lit "The link was already unavailable."))
      ]

pub step-Inv : (p : Page) (e : Event) → Inv p → Inv (step p e)
unfolding step
step-Inv p (click i) v =
    either_branch Inv p.dialog.is_open p (start_ask i (get_elem? p.buttons i) p) (λ e. v)
      (λ e. start_ask-Inv p v i (get_elem? p.buttons i) refl)
step-Inv p (close_dialog how) v =
    let q = record p { asking = none; dialog = Dialog.close how p.dialog } in
    let asked : Inv q = record { once = v.once; asks = λ i same. cc } in
    either_branch Inv p.dialog.is_open (resume p.asking q) p
      (λ e. resume-Inv q asked p.asking refl v.asks) (λ e. v)
step-Inv p (answer k reply) v =
    let q = record p { pending = remove_at k p.pending } in
    finish-Inv q (record { once = v.once; asks = v.asks }) (get_elem? p.pending k) reply

run-Inv : (es : List Event) (p : Page) → Inv p → Inv (run p es)
unfolding run
run-Inv [] p v = v
run-Inv (e ∷ es) p v = run-Inv es (step p e) (step-Inv p e v)

-- Whatever the user does and however the server answers, the page asks to revoke the link of a
-- button at most once, if it has asked for nothing and no dialog waits when it begins.
pub requests-run :
    (p : Page) (es : List Event) (i : ℕ) → p.sent ≡ [] → p.asking ≡ none → requests (run p es) i ≤ 1
requests-run p es i unsent quiet =
    let begun : Inv p = record { once = λ j. rw unsent (omega arith); asks = λ j same. cc } in
    let bound = (run-Inv es p begun).once i in ground arith
