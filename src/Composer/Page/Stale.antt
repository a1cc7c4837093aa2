-- ===== src/Composer/Page/Stale.antt =====
-- What the create page of web/static/admin.js still shows after a change that no handler follows.
use secureshare.Prelude.{ℕ, ◌≡◌, ◌≢◌, refl, true, false, [], ◌∷◌, Option, some, get_elem?, arith}
use secureshare.Text.{Text, lit, is_empty}
use secureshare.Json.{Json, Value}
use secureshare.Time.{Calendar}
use secureshare.Fetch.{answered, is_ok}
use secureshare.Composer.{Host}
use secureshare.Composer.Page.{Page, revoke}
use secureshare.Composer.Page.Handlers.{create_another, finish, finish_revoke}
use secureshare.Composer.Page.Events.{
  act, answer, click_another, type_inputs, on_input, take_action, step, run,
}

module _ (cal : Calendar) (host : Host) (p : Page) where
  -- If no dialog is open, and the user types a password that is not empty and starts another link
  -- from the result that is shown, the form's password is empty, but the summary beside it says that the password is enabled.
  pub stale_password_summary :
      p.dialog.is_open ≡ false
      → p.result_hidden ≡ false
      → p.inputs.password ≢ []
      → let q = run cal host p (act (type_inputs p.inputs) ∷ act click_another ∷ []) in
        (q.inputs.password ≡ [])
        × (q.password_summary ≡ lit "Password protection is enabled for this link.")
        × (q.created_id ≡ some (Json.string []))
        × (q.result_hidden ≡ true)
  unfolding run step take_action on_input create_another
  stale_password_summary closed shown n =
      let typed : is_empty p.inputs.password ≡ false = ground arith in
      simp (closed, shown, typed) (refl, refl, refl, refl)

  -- If a link's revocation is confirmed by the server while the page holds another link, the revoke
  -- button of that other link is disabled.
  pub stale_revoke :
      (i : ℕ) (id : Text) (status : ℕ) (body : Option Json) (other : Value)
      → get_elem? p.pending i ≡ some (revoke id)
      → is_ok status ≡ true
      → p.created_id ≡ other
      → let q = step cal host p (answer i (answered status body)) in
        (q.revoke_disabled ≡ true) × (q.created_id ≡ other)
  unfolding step finish finish_revoke
  stale_revoke i id status body other waits good held = rw (waits, good) (refl, held)
