-- ===== src/LinkPage/Opens.antt =====
-- Who opens the dialog of the page of a link: web/static/admin.js.
use secureshare.Prelude.{
  ℕ, ◌≡◌, refl, Bool, true, false, ◌||◌, Option, none, some, get_elem?, remove_at, either_branch,
  arith, inl, inr, Option-cases, ◌⊎◌,
}
use secureshare.Text.{Text}
use secureshare.Fetch.{Reply, failed, answered, is_ok}
use secureshare.Dialog.{Dialog}
use secureshare.Links
use secureshare.Protection

abbrev pub is_waiting : Option ℕ → Bool
is_waiting none = false
is_waiting (some i) = true

-- What an event that closes nothing does to the dialog and to a script's waiting for it.
abbrev pub Opens : Dialog → Bool → Dialog → Bool → Type 0
Opens d w d' w' = ((d' ≡ d) × (w' ≡ w)) ⊎ ((d.is_open ≡ false) × (d'.is_open ≡ true) × (w' ≡ true))

abbrev pub LinksOpen : Links.Page → Links.Page → Type 0
LinksOpen p q = Opens p.dialog (is_waiting p.asking) q.dialog (is_waiting q.asking)

start_ask-Opens :
    (i : ℕ) (b : Option Links.RevokeButton) (p : Links.Page)
    → p.dialog.is_open ≡ false
    → LinksOpen p (Links.start_ask i b p)
unfolding Links.start_ask
start_ask-Opens i none p h = inl (refl, refl)
start_ask-Opens i (some b) p h =
    either_branch (LinksOpen p) b.disabled p _ (λ e. inl (refl, refl)) (λ e. inr (h, refl, refl))

pub click-Opens : (i : ℕ) (p : Links.Page) → LinksOpen p (Links.step p (Links.click i))
unfolding Links.step
click-Opens i p =
    either_branch (LinksOpen p) p.dialog.is_open p _ (λ e. inl (refl, refl))
      (λ e. start_ask-Opens i (get_elem? p.buttons i) p e)

finish-Opens :
    (o : Option ℕ) (reply : Reply) (p : Links.Page) → LinksOpen p (Links.finish o reply p)
unfolding Links.finish
finish-Opens none reply p = inl (refl, refl)
finish-Opens (some i) failed p = inl (refl, refl)
finish-Opens (some i) (answered status body) p =
    either_branch (LinksOpen p) (is_ok status) _ _ (λ e. inl (refl, refl)) (λ e. inl (refl, refl))

pub answer-Opens :
    (k : ℕ) (reply : Reply) (p : Links.Page) → LinksOpen p (Links.step p (Links.answer k reply))
unfolding Links.step
answer-Opens k reply p =
    finish-Opens (get_elem? p.pending k) reply (record p { pending = remove_at k p.pending })

abbrev pub ProtectionOpens : Protection.Page → Protection.Page → Type 0
ProtectionOpens p q = Opens p.dialog p.asking q.dialog q.asking

pub click_remove-Opens :
    (p : Protection.Page) → ProtectionOpens p (Protection.step p Protection.click_remove)
unfolding Protection.step Protection.ask_remove
click_remove-Opens p =
    either_branch (ProtectionOpens p) (p.dialog.is_open || p.remove.disabled || p.remove_hidden) p _
      (λ e. inl (refl, refl)) (λ e. inr (ground arith, refl, refl))

pub submit-Opens : (p : Protection.Page) → ProtectionOpens p (Protection.step p Protection.submit)
unfolding Protection.step Protection.start_save
submit-Opens p =
    either_branch (ProtectionOpens p) (p.dialog.is_open || p.save.disabled) p _
      (λ e. inl (refl, refl)) (λ e. inl (refl, refl))

pub type_password-Opens :
    (w : Text) (p : Protection.Page)
    → ProtectionOpens p (Protection.step p (Protection.type_password w))
unfolding Protection.step
type_password-Opens w p =
    either_branch (ProtectionOpens p) p.dialog.is_open p _ (λ e. inl (refl, refl))
      (λ e. inl (refl, refl))

finish_protection-Opens :
    (o : Option Protection.Call) (reply : Reply) (p : Protection.Page)
    → ProtectionOpens p (Protection.finish o reply p)
unfolding Protection.finish Protection.finish_save Protection.finish_remove
    Protection.update_protection_ui
finish_protection-Opens none reply p = inl (refl, refl)
finish_protection-Opens (some (Protection.put_password w was)) reply p =
    elim (Option-cases (Protection.save_failure reply)) [
      | inl e ↦ rw (e, Protection.finish_save) (inl (refl, refl))
      | inr (t, e) ↦ rw (e, Protection.finish_save) (inl (refl, refl))
    ]
finish_protection-Opens (some Protection.delete_password) reply p =
    elim (Option-cases (Protection.remove_failure reply)) [
      | inl e ↦ rw (e, Protection.finish_remove) (inl (refl, refl))
      | inr (t, e) ↦ rw (e, Protection.finish_remove) (inl (refl, refl))
    ]

pub answer_protection-Opens :
    (k : ℕ) (reply : Reply) (p : Protection.Page)
    → ProtectionOpens p (Protection.step p (Protection.answer k reply))
unfolding Protection.step
answer_protection-Opens k reply p =
    finish_protection-Opens (get_elem? p.pending k) reply
      (record p { pending = remove_at k p.pending })
