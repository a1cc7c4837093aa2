-- ===== src/Tests/Exchanges.antt =====
-- The sender's page, the recipient's page and the email settings, together and to the end.
use secureshare.Prelude.{true, ◌≡◌, refl, [], ◌∷◌, none, false, All, map, arith}
use secureshare.Text.{lit}
use secureshare.Json.{Fields, field, end}
use secureshare.Fetch.{answered, failed}
use secureshare.Composer.Payload.{field_of, payload_json, structured}
use secureshare.Composer.Page.{Page, structured_mode, blank_inputs, send_email}
use secureshare.Composer.Page.Handlers.{start_email}
use secureshare.Json.{boolean, string}
use secureshare.Recipient.Events.{click_reveal, click_retry, answer, opened, run}
use secureshare.Recipient.Safety.{token_of}
use secureshare.EmailSettings.{Which, on_action, enable}
use secureshare.EmailSettings.Events
use secureshare.EmailSettings.Drains.{total, run-drained}
use secureshare.EmailSettings.Waits.{OneEach, run-OneEach}
use secureshare.EmailSettings
use secureshare.Exchange.Address.{fragment_of, one_token}
use secureshare.Tests.Clock.{one_day}
use secureshare.Tests.CreateForm
use secureshare.Tests.CreateForm.{ascii, rows}
use secureshare.Tests.CreatePage
use secureshare.Tests.SecretView.{english}
use secureshare.Tests.SettingsPages.{email_page}

abbrev sender : Page
sender = record CreatePage.page {
  mode = structured_mode;
  form = CreateForm.form;
  inputs = blank_inputs;
}

abbrev answer_fields : Fields
answer_fields = field (lit "payload") (payload_json (structured (map (field_of ascii) rows))) end

abbrev preparation : Fields
preparation =
    field (lit "may_attempt") (boolean true)
      (field (lit "expires_at") (string (lit "2026-01-02")) end)

one_token_example :
    ((start_email CreatePage.page).sent ≡ send_email (lit "tok") CreatePage.no_retry ∷ [])
    × All
        (λ r. token_of r ≡ lit "tok")
        (run one_day english
          (opened english none (fragment_of CreatePage.page.created.url))
          (answer 0 failed ∷ click_retry [] ∷ click_reveal [] ∷ [])).sent
one_token_example =
    one_token one_day english none (answer 0 failed ∷ click_retry [] ∷ click_reveal [] ∷ [])
      CreatePage.page (lit "https://h/s") (lit "tok") refl
      (refl, (refl, (refl, (refl, (refl, (refl, (refl, (refl, (refl, (refl, (refl, tt)))))))))))
      (refl, (refl, (refl, tt))) (λ e. cc) (tt, (tt, (tt, tt)))

-- Three requests wait, of which one has a second behind it.
abbrev busy : EmailSettings.Page
busy =
    Events.run email_page
      (Events.click (on_action enable) ∷ Events.click EmailSettings.preview ∷ [])

busy-OneEach : OneEach busy
busy-OneEach =
    run-OneEach (Events.click (on_action enable) ∷ Events.click EmailSettings.preview ∷ [])
      email_page (λ b. refl)

busy-total : total busy.pending ≡ 3
unfolding Events.run Events.step Events.click_button Events.start_action Events.start_saving
    Events.start_preview EmailSettings.loading
busy-total = refl

run-drained_example :
    let q = Events.run busy (map (Events.answer 0) (answered 200 none ∷ failed ∷ failed ∷ [])) in
    (q.pending ≡ []) × ((b : Which) → (q.buttons b).disabled ≡ false)
run-drained_example =
    run-drained busy (answered 200 none ∷ failed ∷ failed ∷ []) busy-OneEach
      (omega (arith, busy-total))
