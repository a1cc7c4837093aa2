-- ===== src/Tests/RecipientPage.antt =====
-- A recipient opens a link, loses an answer, retries, and reads the secret.
use mathlib.Core.Option
use secureshare.Prelude.{◌≡◌, refl, List, [], ◌∷◌, none, some, true, false, get_elem?, text_eq}
use secureshare.Text.{Text, lit}
use secureshare.Json.{
  Json, null, boolean, string, array, object, nil, cons, end, field, prop, lookup, truthy, opt_prop,
  is_string, own,
}
use secureshare.Recipient.{
  Copy, Page, copy_of, consume_request, reveal, submitting, network_error, unavailable, set_state,
  set_submitting, session_lost,
}
use secureshare.Recipient.Payload.{render_secret, lines, show_structured}
use secureshare.Recipient.Flow.{
  failed, answered, start_prepare, start_reveal, finish_prepare, finish_reveal, prepare_body,
  make_ready, show_expiry,
}
use secureshare.Recipient.Events.{
  Event, click_reveal, click_retry, answer, step, run, opened, blank_page, template_panels, finish,
}
use secureshare.Recipient.Events.Keeps.{run-opened-Inv}
use secureshare.Recipient.Invariant.{panels_for, Inv}
use secureshare.Recipient.Safety.{consumed-run_sends_nothing}
use secureshare.Recipient.Machine.{Moves, run-step-Moves}
use secureshare.Recipient.Machine.Final.{IsFinal, run-run_final}
use secureshare.Recipient.Outcomes.{Ends, retry-consume, finish_reveal-Ends, unshown_secret_is_lost}
use secureshare.Tests.Clock.{one_day}

abbrev english : Copy
english = copy_of (λ key. none)

abbrev token : Text
token = lit "tok"

abbrev may : Json
may = object (field (lit "may_attempt") (boolean true) end)

abbrev asking : List Event
asking = answer 0 (answered 200 (some may)) ∷ click_reveal (lit "pw") ∷ []

abbrev pub page : Page
page = run one_day english (opened english none token) asking

page-pending : page.pending ≡ consume_request token (lit "pw") ∷ []
unfolding run step opened blank_page start_prepare set_state set_submitting finish finish_prepare
    prepare_body make_ready show_expiry start_reveal template_panels prop truthy lookup copy_of
    text_eq
page-pending = refl

page-first : get_elem? page.pending 0 ≡ some (consume_request token (lit "pw"))
page-first = rw page-pending

page-fragment : page.fragment ≡ []
unfolding run step opened blank_page start_prepare set_state set_submitting finish finish_prepare
    prepare_body make_ready show_expiry start_reveal template_panels prop truthy lookup copy_of
    text_eq
page-fragment = refl

consumed-run_sends_nothing_example :
    (run one_day english
      (step one_day english page (answer 0 (answered 200 none)))
      (click_retry [] ∷ [])).sent
    ≡ page.sent
consumed-run_sends_nothing_example =
    consumed-run_sends_nothing one_day english none token asking (click_retry [] ∷ []) 0 200 none
      token (lit "pw") page-first refl page-fragment (tt, tt)

run-opened-Inv_example : Inv page
run-opened-Inv_example = run-opened-Inv one_day english none token asking

run-step-Moves_example : Moves page.current (step one_day english page (answer 0 failed)).current
run-step-Moves_example = run-step-Moves one_day english none token asking (answer 0 failed)

abbrev no_link : Page
no_link = opened english none []

no_link-IsFinal : IsFinal no_link.current
unfolding opened blank_page start_prepare session_lost set_state set_submitting
no_link-IsFinal = tt

run-run_final_example :
    (run one_day english
      (run one_day english (opened english none []) [])
      (click_retry [] ∷ click_reveal [] ∷ [])).current
    ≡ (run one_day english (opened english none []) []).current
run-run_final_example =
    run-run_final one_day english none [] [] (click_retry [] ∷ click_reveal [] ∷ [])
      (unfold run in no_link-IsFinal)

retry-consume_example :
    let q =
      step one_day english (step one_day english page (answer 0 failed)) (click_retry (lit "pw")) in
    (q.sent ≡ consume_request token (lit "pw") ∷ page.sent) × (q.current ≡ submitting)
retry-consume_example =
    retry-consume one_day english none token asking token (lit "pw") (lit "pw") page-first

finish_reveal-Ends_example :
    let q = finish_reveal english (answered 410 none) page in
    (q.button_disabled ≡ false) × Ends english q.current page q
finish_reveal-Ends_example = finish_reveal-Ends english page (answered 410 none)

page-panels : page.panels ≡ panels_for submitting
unfolding run step opened blank_page start_prepare set_state set_submitting finish finish_prepare
    prepare_body make_ready show_expiry start_reveal template_panels prop truthy lookup copy_of
    text_eq
page-panels = refl

-- A body whose payload holds a field that is null.
abbrev broken : Json
broken = object (
    field (lit "type") (string (lit "structured"))
      (field (lit "fields") (array (cons null nil)) end))

abbrev broken_body : Json
broken_body = object (field (lit "payload") broken end)

broken-payload : prop (lit "payload") (some broken_body) ≡ some (some broken)
unfolding prop lookup text_eq
broken-payload = refl

broken-throws :
    (render_secret english
      (some broken)
      (own (lit "secret") broken_body)
      (record page { token = [] })).1
    ≡ true
unfolding render_secret show_structured lines opt_prop lookup text_eq is_string prop Option.bind
broken-throws = refl

unshown_secret_is_lost_example :
    let q = finish_reveal english (answered 200 (some broken_body)) page in
    let r = step one_day english q (click_retry []) in
    (q.current ≡ network_error)
    × (q.retry_action ≡ reveal)
    × (r.current ≡ unavailable)
    × (r.message ≡ english.session_lost_message)
    × (r.sent ≡ page.sent)
unshown_secret_is_lost_example =
    unshown_secret_is_lost one_day english page submitting 200 (some broken_body) (some broken) []
      page-panels refl broken-payload broken-throws
