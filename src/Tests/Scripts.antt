-- ===== src/Tests/Scripts.antt =====
-- The formatter in a document, messages that go away, the headers of a request, the example client and
-- the page of the documentation.
use secureshare.Prelude.{◌≡◌, refl, List, [], ◌∷◌, none, some, map, true, false, text_eq}
use secureshare.Text.{Text, lit, trim}
use secureshare.Json.{field, end, string, object, lookup, prop}
use secureshare.Fetch
use secureshare.Fetch.{answered}
use secureshare.Time.{apply}
use secureshare.Time.Start
use secureshare.Time.Start.{Document, parsed, content_loaded, load, start_in}
use secureshare.Time.Start.Once.{run-start_in}
use secureshare.Toast.{announce, wait, fire}
use secureshare.Toast
use secureshare.Toast.Recent.{recent, log, Shows, shown, texts, with_items, overdue, run-recent}
use secureshare.Headers
use secureshare.Headers.{csrf_headers}
use secureshare.ExampleClient
use secureshare.ExampleClient.{Environment, answer, time_out, request, main, drop_slash}
use secureshare.ExampleClient.Laws.{ends_with, url_of, first_url, main-ends}
use secureshare.SwaggerPage
use secureshare.SwaggerPage.{bundle_options}
use secureshare.Json.{own}
use secureshare.Composer.{Row}
use secureshare.Composer.Label.{label_for_field}
use secureshare.Composer.Payload.{structured, payload_json, fields_json, field_json, field_of}
use secureshare.ExampleClient.{payload}
use secureshare.Tests.CreateForm.{ascii}
use secureshare.Tests.Clock.{one_day, stamped}

-- The script runs while the parser is at work.
abbrev early : Document
early = record { ready_state = Start.loading; elements = stamped ∷ []; listens = false }

abbrev parsing : List Start.Event
parsing = parsed (stamped ∷ []) ∷ content_loaded ∷ load ∷ []

run-start_in_example :
    (Start.run one_day (start_in one_day early) parsing).elements
    ≡ apply one_day (Start.run one_day early parsing).elements
unfolding Start.run Start.step Start.hear
run-start_in_example = run-start_in one_day early parsing refl refl

abbrev messages : List Toast.Event
messages = announce (lit "Copied.") ∷ wait 3000 ∷ announce (lit "Saved.") ∷ fire 0 ∷ wait 200 ∷ []

-- The first message may still stand after 3200 milliseconds.
late-messages :
    map (λ i. i.text) (shown (Toast.run (with_items []) messages))
    ≡ lit "Copied." ∷ lit "Saved." ∷ []
unfolding Toast.run Toast.step Toast.toast
late-messages = refl

recent-messages : recent (log messages) ≡ lit "Saved." ∷ []
recent-messages = refl

run-recent_example :
    let r = Toast.run (with_items []) messages in
    let after = Toast.run r (overdue 0 (shown r)) in
    Shows (shown r) (log messages)
    × (texts (shown after) ≡ recent (log messages))
    × ((Toast.run (record { items = none }) messages).items ≡ none)
run-recent_example = run-recent messages

csrf-sent :
    csrf_headers (some (some (lit "t"))) ((lit "Content-Type", lit "application/json") ∷ [])
    ≡ (lit "Content-Type", lit "application/json") ∷ (lit "X-CSRF-Token", lit "t") ∷ []
unfolding csrf_headers Headers.csrf_token Headers.set_header text_eq
csrf-sent = refl

abbrev env : Environment
env = record {
  base_url = some (lit "https://h/");
  client_id = some (lit "app");
  client_secret = some (lit "s:1");
}

abbrev turned : Text → Text
turned s = 0 ∷ s

abbrev turned_back : Text → Text
turned_back [] = []
turned_back (c ∷ s) = s

url-sent : (request turned env).url ≡ lit "https://h/api/v1/secret-links"
unfolding request ExampleClient.base_url drop_slash
url-sent = refl

abbrev good_answer : Fetch.Reply
good_answer = answered 201 (some (object (field (lit "url") (string (lit "https://h/s#t")) end)))

main-ends_example :
    let es = answer good_answer ∷ time_out ∷ [] in
    let q = main (λ n. []) turned env es in
    let (code, output) = ends_with (first_url es) in
    (q.exit ≡ some code) × (q.output ≡ output) × (q.sent ≡ some (request turned env))
main-ends_example = main-ends (λ n. []) turned env (answer good_answer ∷ []) [] refl

url-read : url_of good_answer ≡ some (some (string (lit "https://h/s#t")))
unfolding prop lookup text_eq
url-read = refl

swagger-loaded :
    (SwaggerPage.load (record {
      target = some (record { openapi_url = none });
      has_bundle = true;
      has_standalone_preset = true;
      calls = [];
    })).calls
    ≡ bundle_options (record { openapi_url = none }) ∷ []
unfolding SwaggerPage.load
swagger-loaded = refl

-- The example's payload is what the create form sends for the same two fields.
abbrev example_rows : List Row
example_rows =
    record {
      key = lit "username";
      value = lit "example-user";
      sensitive = false;
      multiline = false;
    }
    ∷ record {
      key = lit "password";
      value = lit "example-password";
      sensitive = true;
      multiline = false;
    }
    ∷ []

form-payload :
    own (lit "payload") payload
    ≡ some (payload_json (structured (map (field_of ascii) example_rows)))
unfolding lookup text_eq payload payload_json fields_json field_json field_of label_for_field trim
form-payload = refl
