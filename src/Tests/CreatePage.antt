-- ===== src/Tests/CreatePage.antt =====
-- A link is made on the create page, and what the page still shows afterwards.
use secureshare.Prelude.{text_eq, ◌≡◌, refl, true, false, [], ◌∷◌, inl, none, some}
use secureshare.Text.{lit, trim}
use secureshare.Json.{Fields, end, field, string, object, truthy, opt_prop, prop, lookup}
use secureshare.Time.{Element}
use secureshare.Fetch.{answered}
use secureshare.Dialog.{Dialog, confirm}
use secureshare.Composer.{returned}
use secureshare.Composer.Payload.{text, payload_model, plain_payload, validate_size, payload_json}
use secureshare.Json.Print.{stringify, encoded_length}
use secureshare.Composer.Page.{Page, Inputs, blank_inputs, Retry, plain_mode, by_link, revoke}
use secureshare.Composer.Page.Result.{email_answer, email_status, time_value}
use secureshare.Composer.Page.Events.{
  act, answer, close_dialog, type_inputs, click_submit, click_revoke, click_another, run,
}
use secureshare.Composer.Page.Events.Laws.{Inv}
use secureshare.Composer.Page.Events.Keeps.{run-Inv}
use secureshare.Composer.Page.Round.{Told, run-Told}
use secureshare.Composer.Page.Stale.{stale_password_summary}
use secureshare.Tests.Clock.{one_day}
use secureshare.Tests.CreateForm.{ascii}

abbrev blank_time : Element
blank_time = record {
  is_time = true;
  local_time = none;
  time_locale = none;
  time_preset = none;
  title = none;
  datetime = none;
  empty_label = none;
  invalid_label = none;
  text = [];
}

abbrev secret_inputs : Inputs
secret_inputs = record blank_inputs { secret_plain = lit "x"; password = lit "pw" }

abbrev pub no_retry : Retry
no_retry = record { to = []; recipient_name = []; subject = []; message = [] }

abbrev closed_dialog : Dialog
closed_dialog = record { is_open = false; return_value = []; title = []; message = [] }

abbrev pub page : Page
page = record {
  form = record { rows = []; structured_error = [] };
  inputs = secret_inputs;
  mode = plain_mode;
  delivery_mode = by_link;
  status = [];
  delivery_status = [];
  password_summary = lit "Password protection is optional.";
  submit = record {
    text = lit "Create secure link";
    original_text = none;
    loading_text = some (lit "Creating...");
    disabled = false;
  };
  created_id = some (string []);
  created_payload = none;
  result_hidden = true;
  created = record {
    id = [];
    expires = blank_time;
    lifetime = [];
    password = [];
    recipient = [];
    url = lit "https://h/s#tok";
    email_status = [];
    email_sent = blank_time;
    retry_hidden = true;
    retry = no_retry;
    meta_href = [];
  };
  revoke_disabled = false;
  dialog = closed_dialog;
  clipboard = none;
  toasts = [];
  sent = [];
  pending = [];
}

page-Inv : Inv ascii page
page-Inv = record { one_create = refl; waits_hidden = inl refl; shows_id = inl refl; checked = tt }

abbrev body : Fields
body = field (lit "id") (string (lit "k1")) (
    field (lit "expires_at") (string (lit "2026-01-02"))
      (field (lit "url") (string (lit "https://h/s#tok")) end))

run-Inv_example : Inv ascii (
    run one_day ascii page (
      act click_submit
      ∷ answer 0 (answered 201 (some (object body)))
      ∷ act click_revoke
      ∷ close_dialog confirm
      ∷ []))
run-Inv_example =
    run-Inv ascii one_day
      (act click_submit
        ∷ answer 0 (answered 201 (some (object body)))
        ∷ act click_revoke
        ∷ close_dialog confirm
        ∷ [])
      page page-Inv

no_email : email_status (email_answer (object body)) ≡ some (lit "Not requested")
unfolding email_status opt_prop prop lookup truthy text_eq
no_email = refl

not_sent : time_value (opt_prop (lit "sent_at") (email_answer (object body))) ≡ some none
unfolding time_value opt_prop prop lookup truthy text_eq
not_sent = refl

x-accepted : payload_model ascii false [] (lit "x") false ≡ returned (text (lit "x"))
unfolding payload_model plain_payload validate_size trim payload_json stringify encoded_length
x-accepted = refl

run-Told_example :
    let q =
      run one_day ascii page
        (act click_submit ∷ answer 0 (answered 201 (some (object body))) ∷ []) in
    Told (text (lit "x")) (lit "86400") page q
    × (q.created.lifetime ≡ lit "24 hours")
    × (q.created.id ≡ lit "k1")
    × (q.created.url ≡ lit "https://h/s#tok")
    × (q.created.meta_href ≡ lit "/admin/secrets/k1")
    × (q.result_hidden ≡ false)
    × (q.submit.disabled ≡ false)
    × (q.status ≡ lit "Secure link created.")
unfolding lookup text_eq
run-Told_example =
    run-Told ascii one_day page (text (lit "x")) refl refl refl x-accepted (lit "6400")
      (lit "4 hours") b'8' b'2' refl body (lit "k1") (lit "2026-01-02") (lit "https://h/s#tok")
      (lit "Not requested") none refl refl refl no_email not_sent 201 refl

abbrev shown : Page
shown = record page {
  result_hidden = false;
  created_id = some (string (lit "k2"));
  pending = revoke (lit "k1") ∷ [];
}

stale_password_summary_example :
    let q = run one_day ascii shown (act (type_inputs secret_inputs) ∷ act click_another ∷ []) in
    (q.inputs.password ≡ [])
    × (q.password_summary ≡ lit "Password protection is enabled for this link.")
    × (q.created_id ≡ some (string []))
    × (q.result_hidden ≡ true)
stale_password_summary_example = stale_password_summary one_day ascii shown refl refl (λ e. cc)
