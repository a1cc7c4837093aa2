-- ===== src/ExampleClient.antt =====
-- examples/javascript/create-secret.mjs: a client of the API that makes one link and prints its URL.
pub mod Laws
use secureshare.Prelude.{
  ℕ, Bool, true, false, ◌||◌, List, [], ◌∷◌, ◌++◌, Option, none, some, ◌==◌, if◌then◌else◌,
}
use secureshare.Text.{Text, lit, is_empty, or_default, coalesce}
use secureshare.Json.{
  Json, boolean, number, string, array, object, nil, cons, end, field, Value, prop,
}
use secureshare.Json.Print.{stringify}
use secureshare.Fetch.{Reply, failed, answered, is_ok}

-- The variables of the environment that the script reads.
pub record Environment : Type 0 where
  pub base_url : Option Text
  pub client_id : Option Text
  pub client_secret : Option Text

-- `text.replace(/\/$/, "")`.
unfoldable pub drop_slash : Text → Text
drop_slash [] = []
drop_slash (c ∷ []) = if c == b'/' then [] else c ∷ []
drop_slash (c ∷ d ∷ s) = c ∷ drop_slash (d ∷ s)

unfoldable pub base_url : Environment → Text
base_url env = drop_slash (or_default env.base_url (lit "http://localhost:8080"))

example_field : Text → Text → Text → Bool → Json
example_field name label value sensitive = object (
    field (lit "name") (string name) (
      field (lit "label") (string label) (
        field (lit "value") (string value) (
          field (lit "sensitive") (boolean sensitive)
            (field (lit "multiline") (boolean false) end)))))

-- `payload`.
unfoldable pub payload : Json
unfolding example_field
payload = object (
    field (lit "title") (string (lit "Example login")) (
      field (lit "expires_in_seconds") (number (lit "3600")) (
        field (lit "payload")
          (object (
            field (lit "type") (string (lit "structured")) (
              field (lit "fields")
                (array (
                  cons (example_field (lit "username") (lit "Username") (lit "example-user") false)
                    (cons
                      (example_field (lit "password") (lit "Password") (lit "example-password")
                        true)
                      nil)))
                end)))
          end)))

pub record Request : Type 0 where
  pub url : Text
  pub authorization : Text
  pub content_type : Text
  pub body : Text

-- The process: what it has printed, with the values that `console.log` was called with, how it has
-- ended, and whether the timer of 15 seconds, which aborts the request, still runs.
pub record Process : Type 0 where
  pub output : List Value
  pub errors : List Text
  pub exit : Option ℕ
  pub timer : Bool
  pub sent : Option Request

abbrev blank_process : Process
blank_process = record { output = []; errors = []; exit = none; timer = false; sent = none }

abbrev pub is_missing : Option Text → Bool
is_missing o = is_empty (coalesce o [])

-- `base64` is `Buffer.from(text).toString("base64")`.
module _ (base64 : Text → Text) where
  unfoldable pub request : Environment → Request
  request env = record {
    url = base_url env ++ lit "/api/v1/secret-links";
    authorization =
        lit "Basic " ++ base64 (coalesce env.client_id [] ++ b':' ∷ coalesce env.client_secret []);
    content_type = lit "application/json";
    body = stringify [] [] payload;
  }

  -- Up to `fetch`.
  unfoldable pub start : Environment → Process
  start env =
      if is_missing env.client_id || is_missing env.client_secret
      then record blank_process {
        errors = lit "SECURESHARE_CLIENT_ID and SECURESHARE_CLIENT_SECRET are required" ∷ [];
        exit = some 2;
      }
      else record blank_process { timer = true; sent = some (request env) }

-- The end of a module that throws: the `finally` block runs, and the host exits with 1.
abbrev pub throw : Process → Process
throw p = record p { timer = false; exit = some 1 }

-- A good answer, with what `response.json()` gives.
unfoldable pub print_url : Option Json → Process → Process
print_url body p = elim (prop (lit "url") body) [
  | none ↦ throw p
  | some url ↦ record p { output = url ∷ p.output; timer = false; exit = some 0 }
]

-- What happens to the process: the server answers, or the answer fails; the 15 seconds are over.
pub data Event : Type 0 where
  answer : Reply → Event
  time_out : Event

-- The process as it has ended, or as it goes on.
abbrev pub unless_ended : Option ℕ → Process → Process → Process
unless_ended (some code) ended p = ended
unless_ended none ended p = p

-- From the answer on. `decimal` writes a number.
module _ (decimal : ℕ → Text) where
  unfoldable pub finish : Reply → Process → Process
  finish failed p = throw p
  finish (answered status body) p = if is_ok status then print_url body p else record p {
    errors = (lit "SecureShare returned HTTP " ++ decimal status) ∷ p.errors;
    exit = some 1;
  }

  -- What the process waits for is the answer or its timer, which aborts the request: `fetch` or
  -- `response.json` throws then.
  unfoldable pub hear : Event → Process → Process
  hear (answer reply) p = finish reply p
  hear time_out p = if p.timer then throw p else p

  -- A process that has ended, or that has sent nothing, hears nothing.
  unfoldable pub step : Process → Event → Process
  step p e = unless_ended p.exit p (elim p.sent [ none ↦ p | some r ↦ hear e p ])

  unfoldable pub run : Process → List Event → Process
  run p [] = p
  run p (e ∷ es) = run (step p e) es

  -- The whole script.
  unfoldable pub main : (Text → Text) → Environment → List Event → Process
  main base64 env es = run (start base64 env) es
