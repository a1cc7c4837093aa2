-- ===== src/Tests/Administration.antt =====
-- Links are revoked, a user signs in, and API clients are changed.
use secureshare.Prelude.{◌≡◌, ◌≤◌, refl, true, false, [], ◌∷◌, none, arith, text_eq}
use secureshare.Text.{Text, lit}
use secureshare.Json.{Fields, end, field, string}
use secureshare.Fetch.{failed, answered}
use secureshare.Button.{Button}
use secureshare.Dialog.{Dialog, confirm, escape, cancel}
use secureshare.Links
use secureshare.Links.Laws.{requests, requests-run}
use secureshare.Links.Asked.{run-unconfirmed}
use secureshare.SignIn
use secureshare.SignIn.Laws.{RoundEnds, round_lem}
use secureshare.ApiClients
use secureshare.ApiClients.{rotate_secret, client_action}
use secureshare.ApiClients.Events
use secureshare.ApiClients.Laws.{WaitsOnce}
use secureshare.ApiClients.Keeps.{run-WaitsOnce}
use secureshare.Tests.Clock.{one_day}

abbrev named : Text → Button
named t = record { text = t; original_text = none; loading_text = none; disabled = false }

abbrev closed : Dialog
closed = record { is_open = false; return_value = []; title = []; message = [] }

abbrev link : Text → Links.RevokeButton
link id = record { id = id; text = lit "Revoke"; disabled = false }

abbrev pub links : Links.Page
links = record {
  buttons = link (lit "a") ∷ link (lit "b") ∷ [];
  dialog = closed;
  asking = none;
  toasts = [];
  sent = [];
  pending = [];
}

requests-run_example :
    requests
      (Links.run links
        (Links.click 1 ∷ Links.close_dialog confirm ∷ Links.answer 0 failed ∷ Links.click 1 ∷ []))
      1
    ≤ 1
requests-run_example =
    requests-run links
      (Links.click 1 ∷ Links.close_dialog confirm ∷ Links.answer 0 failed ∷ Links.click 1 ∷ []) 1
      refl refl

run-unconfirmed_example :
    let q = Links.run links (
      Links.click 0 ∷ Links.close_dialog escape ∷ Links.click 1 ∷ Links.close_dialog cancel ∷ []) in
    q.sent ≡ []
unfolding text_eq
run-unconfirmed_example =
    run-unconfirmed links
      (Links.click 0 ∷ Links.close_dialog escape ∷ Links.click 1 ∷ Links.close_dialog cancel ∷ [])
      refl (refl, (refl, (refl, (refl, tt))))

abbrev sign_in : SignIn.Page
sign_in = record {
  fields = record { login = lit "ada"; password = lit "pw" };
  toggle = record { hides = true; text = lit "Show" };
  error_text = [];
  submit = named (lit "Sign in securely");
  location = none;
  sent = [];
  pending = [];
}

round_lem_example :
    let q = SignIn.run sign_in (SignIn.submit ∷ SignIn.answer 0 (answered 401 none) ∷ []) in
    (q.sent ≡ record { login = lit "ada"; password = lit "pw" } ∷ [])
    × (q.submit.text ≡ lit "Sign in securely")
    × (q.submit.disabled ≡ false)
    × (q.pending ≡ [])
    × RoundEnds (answered 401 none) sign_in q
round_lem_example = round_lem sign_in (answered 401 none) refl (λ e. cc) refl

abbrev rotate : ApiClients.ActionButton
rotate = record { client_id = lit "c1"; action = rotate_secret; disabled = false }

abbrev no_fields : ApiClients.ClientFields
no_fields = record { name = lit "CI"; scopes = []; expires_at = lit " " }

abbrev clients : ApiClients.Page
clients = record {
  fields = no_fields;
  default_fields = no_fields;
  create = named (lit "Create client");
  error_text = [];
  result = record { id = []; secret = []; view_href = []; has_view = true; hidden = true };
  buttons = rotate ∷ [];
  dialog = closed;
  asking = none;
  clipboard = none;
  toasts = [];
  reloading = false;
  sent = [];
  pending = [];
}

clients-WaitsOnce : WaitsOnce clients
clients-WaitsOnce = record { one_action = λ i. omega arith; asks = λ i e. cc; one_creation = refl }

abbrev rotation : Fields
rotation = field (lit "id") (string (lit "c1")) (
    field (lit "client_id") (string (lit "app"))
      (field (lit "client_secret") (string (lit "xyz")) end))

abbrev rotating : ApiClients.Events.Event
rotating = ApiClients.Events.click_action 0

run-WaitsOnce_example : WaitsOnce (ApiClients.Events.run one_day clients (rotating ∷ []))
run-WaitsOnce_example = run-WaitsOnce one_day (rotating ∷ []) clients clients-WaitsOnce
