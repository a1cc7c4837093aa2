-- ===== src/Tests/SettingsPages.antt =====
-- The email settings are saved, enabled and tested, and the recipients' language is saved.
use secureshare.Prelude.{◌≡◌, refl, true, false, [], ◌∷◌, none}
use secureshare.Text.{Text, lit}
use mathlib.Core.Option
use secureshare.Fetch.{failed, answered}
use secureshare.Button.{Button}
use secureshare.EmailSettings.{
  Settings, settings_payload, test_connection, enable, save, preview, on_action, before_action,
  put_settings, post_action, loading,
}
use secureshare.EmailSettings
use secureshare.EmailSettings.Answers.{clear_password, read_saved}
use secureshare.EmailSettings.Events.{
  click, answer, run, step, click_button, start_action, start_saving, finish, finish_saving, go_on,
}
use secureshare.EmailSettings.Laws.{test_undoes_enable}
use secureshare.EmailSettings.Phases.{Moves, phase, saving, acting}
use secureshare.EmailSettings.Phases.Steps.{run-step-phase}
use secureshare.EmailSettings.Waits.{OneEach, run-OneEach}
use secureshare.PublicExperience

abbrev named : Text → Button
named t = record { text = t; original_text = none; loading_text = none; disabled = false }

abbrev settings : Settings
settings = record {
  enabled = false;
  smtp_host = lit "mail";
  smtp_port = lit "587";
  encryption_mode = lit "starttls";
  smtp_username = [];
  smtp_password = lit "pw";
  clear_smtp_password = false;
  from_name = [];
  from_email = [];
  reply_to_email = [];
  connection_timeout_seconds = [];
  send_timeout_seconds = [];
  default_subject = [];
  default_message = [];
  footer_text = [];
}

abbrev pub email_page : EmailSettings.Page
email_page = record {
  settings = settings;
  buttons = λ b. named (lit "Go");
  error_text = [];
  status = [];
  invalid = [];
  preview_hidden = true;
  preview_text = [];
  preview_html = [];
  test_to = [];
  test_status = [];
  toasts = [];
  sent = [];
  pending = [];
}

run-OneEach_example : OneEach (
    run email_page (
      click (on_action enable)
      ∷ click preview
      ∷ answer 1 failed
      ∷ answer 0 (answered 200 none)
      ∷ click save
      ∷ []))
run-OneEach_example =
    run-OneEach
      (click (on_action enable)
        ∷ click preview
        ∷ answer 1 failed
        ∷ answer 0 (answered 200 none)
        ∷ click save
        ∷ [])
      email_page (λ b. refl)

test_undoes_enable_example :
    let q = run email_page (
      click (on_action enable)
      ∷ answer 0 (answered 200 none)
      ∷ answer 0 (answered 200 none)
      ∷ []) in
    let s = settings_payload (clear_password email_page).settings in
    (q.status ≡ lit "SMTP delivery enabled.")
    × ((step q (click (on_action test_connection))).sent
        ≡ put_settings s (before_action test_connection)
          ∷ post_action enable
          ∷ put_settings (settings_payload settings) (before_action enable)
          ∷ [])
    × (s.enabled ≡ false)
test_undoes_enable_example = test_undoes_enable email_page 200 refl refl refl refl refl

abbrev language_page : PublicExperience.Page
language_page = record {
  locale = lit "fa";
  links = lit "/p?state=ready&locale=en" ∷ [];
  badge = lit "English";
  error_text = [];
  status = [];
  submit = named (lit "Save");
  toasts = [];
  sent = [];
  pending = [];
}

run-step-phase_example :
    let p = run email_page (click (on_action enable) ∷ []) in
    Moves
      (on_action enable)
      (phase (on_action enable) p.pending)
      (phase (on_action enable) (step p (answer 0 (answered 200 none))).pending)
run-step-phase_example =
    run-step-phase email_page (click (on_action enable) ∷ []) (answer 0 (answered 200 none))
      (on_action enable) (λ b. refl)

-- The machine goes on from the saving to the button's own request.
enable-phases :
    let p = run email_page (click (on_action enable) ∷ []) in
    (phase (on_action enable) p.pending ≡ saving)
    × (phase (on_action enable) (step p (answer 0 (answered 200 none))).pending ≡ acting)
unfolding run step click_button start_action start_saving loading finish finish_saving go_on
    read_saved
enable-phases = (refl, refl)
