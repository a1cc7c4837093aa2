-- ===== src/Protection/Outcomes.antt =====
-- What the answers to the two buttons leave: `setupPasswordProtection` of web/static/admin.js.
use secureshare.Prelude.{
  ◌≡◌, refl, ap, ◌∙◌, Bool, true, false, ◌||◌, text_eq, [], ◌∷◌, Option, none, some, arith, inl,
  inr, Option-cases, if◌then◌else◌,
}
use secureshare.Text.{Text, lit}
use secureshare.Fetch.{Reply}
use secureshare.Button.{set_button_loading}
use secureshare.Dialog
use secureshare.Dialog.{Dialog, Closing, cancel, confirm, escape, is_confirmed}
use secureshare.Protection.{
  Page, save_text, update_protection_ui, start_save, start_remove, save_failure, remove_failure,
  finish_save, finish_remove, submit, click_remove, close_dialog, ask_remove, resume, answer,
  finish, step, run,
}

-- What a submit leaves of the page `p`, by the message of its refusal, if there is one.
abbrev pub SaveEnds : Option Text → Bool → Page → Page → Type 0
SaveEnds (some t) was p q =
    (q.error_text ≡ t)
    × (q.password ≡ p.password)
    × (q.is_protected ≡ p.is_protected)
    × (q.status ≡ p.status)
    × (q.toasts ≡ p.toasts)
SaveEnds none was p q =
    (q.error_text ≡ p.error_text)
    × (q.password ≡ [])
    × (q.is_protected ≡ true)
    × (q.save.text ≡ save_text true)
    × (q.toasts
        ≡ (if was then lit "Link password replaced." else lit "Link password set.") ∷ p.toasts)

-- The answer to a submit enables its button again. If it is refused, the message is shown, and the
-- password and what the page shows of the link stay; if it is good, the link is shown as protected,
-- the password is cleared, and the toast tells whether it was protected when it was submitted.
pub finish_save_lem :
    (was : Bool) (reply : Reply) (p : Page)
    → let q = finish_save was reply p in
      (q.save.disabled ≡ false) × SaveEnds (save_failure reply) was p q
unfolding finish_save update_protection_ui set_button_loading
finish_save_lem was reply p = elim (Option-cases (save_failure reply)) [
  | inl e ↦ rw (e, finish_save) (refl, (refl, refl, refl, refl, refl))
  | inr (t, e) ↦ rw (e, finish_save) (refl, (refl, refl, refl, refl, refl))
]

step-submit :
    (p : Page) → (p.dialog.is_open || p.save.disabled) ≡ false → step p submit ≡ start_save p
unfolding step
step-submit p h = ap (λ b. if b then p else start_save p) h

step-click_remove :
    (p : Page)
    → (p.dialog.is_open || p.remove.disabled || p.remove_hidden) ≡ false
    → step p click_remove ≡ ask_remove p
unfolding step
step-click_remove p h = ap (λ b. if b then p else ask_remove p) h

-- A removal that is asked for and confirmed.
abbrev confirmed : Page → Page
confirmed p =
    let asked = ask_remove p in
    start_remove (record asked { asking = false; dialog = Dialog.close confirm asked.dialog })

step-confirmed : (p : Page) → step (ask_remove p) (close_dialog confirm) ≡ confirmed p
unfolding step resume Dialog.close ask_remove text_eq
step-confirmed p = refl

-- A submit, and then a confirmed removal, from a page whose buttons are free.
step-both :
    (p : Page)
    → p.dialog.is_open ≡ false
    → p.save.disabled ≡ false
    → p.remove.disabled ≡ false
    → p.remove_hidden ≡ false
    → step (step (step p submit) click_remove) (close_dialog confirm) ≡ confirmed (start_save p)
unfolding start_save
step-both p closed save remove hidden =
    ap (λ q. step (step q click_remove) (close_dialog confirm)) (step-submit p (ground arith))
    ∙ ap (λ q. step q (close_dialog confirm)) (step-click_remove (start_save p) (ground arith))
    ∙ step-confirmed (start_save p)

-- If a removal is answered while a submit waits, and then the submit fails, the save button of the
-- link, which is no longer protected, has the text that it had before, such as `Replace password`.
pub stale_save_text :
    (p : Page) (removed refused : Reply) (t : Text)
    → p.save.disabled ≡ false
    → p.remove.disabled ≡ false
    → p.remove_hidden ≡ false
    → p.dialog.is_open ≡ false
    → p.pending ≡ []
    → p.save.text ≡ save_text true
    → remove_failure removed ≡ none
    → save_failure refused ≡ some t
    → let q =
        run p (
          submit
          ∷ click_remove
          ∷ close_dialog confirm
          ∷ answer 1 removed
          ∷ answer 0 refused
          ∷ []) in
      (q.is_protected ≡ false) × (q.save.text ≡ save_text true)
unfolding run step start_save start_remove ask_remove Dialog.close finish finish_save finish_remove
    update_protection_ui set_button_loading
stale_save_text p removed refused t a b c o d e f g =
    rw (step-both p o a b c, d) (rw (f, finish_remove) (rw (g, finish_save) (rw e (refl, refl))))
