-- ===== src/EmailSettings/Laws.antt =====
-- What the email settings send and keep: `setupEmailSettings` of web/static/admin.js.
use secureshare.Prelude.{ℕ, ◌≡◌, refl, ◌∙◌, ap, true, false, [], ◌∷◌, ◌++◌, Option, none, some}
use secureshare.Text.{lit}
use secureshare.Json.{Json, prop, lookup}
use secureshare.Fetch.{Reply, answered, is_ok}
use secureshare.Button.{set_button_loading}
use secureshare.Effect.{in_order}
use secureshare.EmailSettings.{
  settings_payload, EmailAction, test_connection, enable, Which, on_action, before_action, Call,
  put_settings, post_action, Page, loading, set_status, announce, send,
}
use secureshare.EmailSettings.Answers.{
  read_saved, clear_password, read_action, action_status, action_toast,
}
use secureshare.EmailSettings.Events.{
  start_saving, start_action, click_button, go_on, finish_saving, finish, click, answer, step, run,
}

step-click :
    (p : Page) (b : Which) → (p.buttons b).disabled ≡ false → step p (click b) ≡ click_button b p
unfolding step
step-click p b free = rw free refl

-- The answer to the one request that waits.
step-answer :
    (p : Page) (c : Call) (reply : Reply)
    → p.pending ≡ c ∷ []
    → step p (answer 0 reply) ≡ finish (some c) reply (record p { pending = [] })
unfolding step
step-answer p c reply waits = rw waits refl

-- Saved settings are followed by the action that waits for them, and the password is forgotten.
finish_saving-action :
    (a : EmailAction) (status : ℕ) (body : Option Json) (p : Page)
    → is_ok status ≡ true
    → finish_saving (before_action a) (answered status body) p
      ≡ send (post_action a) (clear_password p)
unfolding finish_saving read_saved go_on
finish_saving-action a status body p good = rw good refl

finish-enable :
    (status : ℕ) (p : Page)
    → is_ok status ≡ true
    → finish (some (post_action enable)) (answered status none) p
      ≡ loading (on_action enable) false (
          announce
            (lit "Email settings action completed.")
            (set_status (lit "SMTP delivery enabled.") p))
unfolding finish read_action action_status action_toast in_order prop lookup
finish-enable status p good = rw good refl

-- If the box for the delivery is not checked, nothing waits and both buttons are enabled, then
-- enabling the delivery with two good answers without a body, and testing the connection, sends the
-- settings without the delivery: it was enabled on the server, the page said so, and the test asks
-- to disable it.
pub test_undoes_enable :
    (p : Page) (status : ℕ)
    → p.settings.enabled ≡ false
    → p.pending ≡ []
    → (p.buttons (on_action enable)).disabled ≡ false
    → (p.buttons (on_action test_connection)).disabled ≡ false
    → is_ok status ≡ true
    → let q = run p (
        click (on_action enable)
        ∷ answer 0 (answered status none)
        ∷ answer 0 (answered status none)
        ∷ []) in
      let s = settings_payload (clear_password p).settings in
      (q.status ≡ lit "SMTP delivery enabled.")
      × ((step q (click (on_action test_connection))).sent
          ≡ put_settings s (before_action test_connection)
            ∷ post_action enable
            ∷ put_settings (settings_payload p.settings) (before_action enable)
            ∷ p.sent)
      × (s.enabled ≡ false)
unfolding run click_button start_action start_saving finish loading set_button_loading
    settings_payload
test_undoes_enable p status off quiet free_enable free_test good =
    let first = put_settings (settings_payload p.settings) (before_action enable) in
    let p1 = start_action enable p in
    let p2 = send (post_action enable) (clear_password (record p1 { pending = [] })) in
    let p3 = loading (on_action enable) false (
      announce (lit "Email settings action completed.")
        (set_status (lit "SMTP delivery enabled.") (record p2 { pending = [] }))) in
    let e1 : step p (click (on_action enable)) ≡ p1 = step-click p (on_action enable) free_enable in
    let e2 : step p1 (answer 0 (answered status none)) ≡ p2 =
      step-answer p1 first (answered status none) (ap (λ cs. cs ++ first ∷ []) quiet)
      ∙ finish_saving-action enable status none (record p1 { pending = [] }) good in
    let e3 : step p2 (answer 0 (answered status none)) ≡ p3 =
      step-answer p2 (post_action enable) (answered status none) refl
      ∙ finish-enable status (record p2 { pending = [] }) good in
    let whole : run p (
          click (on_action enable)
          ∷ answer 0 (answered status none)
          ∷ answer 0 (answered status none)
          ∷ [])
        ≡ p3 =
      ap (λ q. step (step q (answer 0 (answered status none))) (answer 0 (answered status none))) e1
      ∙ ap (λ q. step q (answer 0 (answered status none))) e2
      ∙ e3 in
    rw whole (refl, ap (λ q. q.sent) (step-click p3 (on_action test_connection) free_test), off)
