-- ===== src/EmailSettings/Events.antt =====
-- The listeners of `setupEmailSettings` in web/static/admin.js, each cut where it waits for the
-- server: a test or an action first saves the settings, and then sends its own request.
use secureshare.Prelude.{
  ℕ, Bool, true, false, List, [], ◌∷◌, Option, none, some, get_elem?, remove_at, if◌then◌else◌,
}
use secureshare.Text.{Text, lit}
use secureshare.Fetch.{Reply}
use secureshare.EmailSettings.{
  Settings, settings_payload, EmailAction, test_connection, enable, disable, Which, save, preview,
  send_test, on_action, Next, after_submit, before_action, before_test, Call, put_settings,
  post_action, post_test, post_preview, Page, loading, send, set_status,
}
use secureshare.EmailSettings.Answers.{
  Saved, rejected, refused, saved, read_saved, read_action, read_test, read_preview,
}

-- `saveCurrentSettings` up to `fetch`.
unfoldable pub start_saving : Next → Page → Page
start_saving next p =
    send (put_settings (settings_payload p.settings) next)
      (record p { error_text = []; invalid = [] })

unfoldable pub start_action : EmailAction → Page → Page
start_action disable p = send (post_action disable) (loading (on_action disable) true p)
start_action enable p = start_saving (before_action enable) (loading (on_action enable) true p)
start_action test_connection p =
    start_saving (before_action test_connection) (loading (on_action test_connection) true p)

unfoldable pub start_preview : Page → Page
start_preview p =
    let s = settings_payload p.settings in
    send (post_preview s.default_subject s.default_message s.footer_text) (loading preview true p)

unfoldable pub click_button : Which → Page → Page
click_button save p =
    start_saving after_submit (loading save true (record p { error_text = []; status = [] }))
click_button preview p = start_preview p
click_button send_test p = start_saving (before_test p.test_to) (loading send_test true p)
click_button (on_action a) p = start_action a p

-- The listeners from the answer to the settings on.
unfoldable pub go_on : Next → Saved → Page → Page
go_on after_submit result p = loading save false p
go_on (before_action a) saved p = send (post_action a) p
go_on (before_action a) refused p =
    loading (on_action a) false
      (set_status (lit "Fix the highlighted SMTP settings before testing.") p)
go_on (before_action a) rejected p = loading (on_action a) false p
go_on (before_test to) saved p = send (post_test to) p
go_on (before_test to) refused p = loading send_test false (record p {
  test_status = lit "Fix the highlighted SMTP settings before sending a test email.";
})
go_on (before_test to) rejected p = loading send_test false p

-- Only the submit listener announces the save.
abbrev pub tells : Next → Bool
tells after_submit = true
tells _ = false

unfoldable pub finish_saving : Next → Reply → Page → Page
finish_saving next reply p =
    let (q, result) = read_saved (tells next) reply p in go_on next result q

unfoldable pub finish : Option Call → Reply → Page → Page
finish none reply p = p
finish (some (put_settings s next)) reply p = finish_saving next reply p
finish (some (post_action a)) reply p = loading (on_action a) false (read_action a reply p).0
finish (some (post_test to)) reply p = loading send_test false (read_test reply p).0
finish (some (post_preview subject message footer)) reply p =
    loading preview false (read_preview reply p).0

pub data Event : Type 0 where
  type_settings : Settings → Event
  type_test : Text → Event
  click : Which → Event
  -- The answer to the pending request at this position.
  answer : ℕ → Reply → Event

-- A browser submits a form, and clicks, by a button that is enabled.
unfoldable pub step : Page → Event → Page
step p (type_settings s) = record p { settings = s }
step p (type_test to) = record p { test_to = to }
step p (click b) = if (p.buttons b).disabled then p else click_button b p
step p (answer k reply) =
    finish (get_elem? p.pending k) reply (record p { pending = remove_at k p.pending })

unfoldable pub run : Page → List Event → Page
run p [] = p
run p (e ∷ es) = run (step p e) es
