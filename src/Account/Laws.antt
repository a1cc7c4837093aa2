-- ===== src/Account/Laws.antt =====
-- A round of the form that changes the password: `setupAccount` of web/static/admin.js.
use secureshare.Prelude.{◌≡◌, ◌≢◌, refl, false, [], ◌∷◌, inl, inr, Bool-cases, if◌then◌else◌}
use secureshare.Text.{lit}
use secureshare.Fetch.{Reply, failed, answered, is_ok}
use secureshare.Button.{set_button_loading}
use secureshare.Button.Laws.{restored}
use secureshare.Account.{
  change_password, Page, start_change, read_change, finish_change, finish, submit, answer, step,
  run,
}

-- What a round of the form ends with, by the answer.
abbrev pub ChangeEnds : Reply → Page → Page → Type 0
ChangeEnds failed p q = (q.fields ≡ p.fields) × (q.error_text ≡ []) × (q.toasts ≡ p.toasts)
ChangeEnds (answered status body) p q =
    (q.fields
      ≡ (if is_ok status then record { current_password = []; new_password = [] } else p.fields))
    × (q.error_text ≡ (if is_ok status then [] else lit "Password could not be changed."))
    × (q.toasts ≡ (
        if is_ok status
        then lit "Password changed. Your session was rotated." ∷ p.toasts
        else p.toasts))

-- A submit by the free button sends the two passwords, and when the server answers, the button is
-- free again with the text it had, if that is not empty: a good answer empties the fields and is
-- announced, a refusal is told on the error line, and after a failed request nothing is said.
pub change_lem :
    (p : Page) (reply : Reply)
    → p.submit.disabled ≡ false
    → p.submit.text ≢ []
    → p.pending ≡ []
    → let q = run p (submit ∷ answer 0 reply ∷ []) in
      (q.sent ≡ change_password p.fields ∷ p.sent)
      × (q.submit.text ≡ p.submit.text)
      × (q.submit.disabled ≡ false)
      × ChangeEnds reply p q
unfolding run step start_change finish finish_change read_change set_button_loading
change_lem p failed free named quiet =
    let (same, idle) = restored p.submit p.submit.text named in
    simp (free, quiet) (refl, same, refl, (refl, refl, refl))
change_lem p (answered status body) free named quiet =
    let (same, idle) = restored p.submit p.submit.text named in
    elim (Bool-cases (is_ok status)) [
      | inl e ↦ simp (free, quiet, e) (refl, same, refl, (refl, refl, refl))
      | inr e ↦ simp (free, quiet, e) (refl, same, refl, (refl, refl, refl))
    ]
