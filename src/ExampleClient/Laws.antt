-- ===== src/ExampleClient/Laws.antt =====
-- How the example client of examples/javascript/create-secret.mjs ends, and who it says it is.
use mathlib.Core.Option
use secureshare.Prelude.{
  ℕ, ◌≡◌, refl, ◌∙◌, ap, true, false, ◌||◌, List, [], ◌∷◌, ◌++◌, Option, none, some, All,
  Bool-cases, Option-cases, inl, inr, ◌==◌, if◌then◌else◌,
}
use secureshare.Text.{Text, lit, coalesce}
use secureshare.Json.{Json, Value, prop}
use secureshare.Fetch.{Reply, failed, answered, is_ok}
use secureshare.ExampleClient.{
  Environment, Process, is_missing, request, start, throw, print_url, Event, answer, time_out,
  unless_ended, finish, hear, step, run, main,
}

-- The URL that the server answers with: a good status, and a body that can be read.
abbrev pub url_of : Reply → Option Value
url_of failed = none
url_of (answered status body) = if is_ok status then prop (lit "url") body else none

-- The URL that the first event brings.
abbrev pub first_url : List Event → Option Value
first_url [] = none
first_url (answer reply ∷ es) = url_of reply
first_url (time_out ∷ es) = none

-- The exit code and the output that an answer leads to.
abbrev pub ends_with : Option Value → ℕ × List Value
ends_with none = (1, [])
ends_with (some url) = (0, url ∷ [])

-- The process while it waits for the answer.
abbrev sending : (Text → Text) → Environment → Process
sending base64 env = record {
  output = [];
  errors = [];
  exit = none;
  timer = true;
  sent = some (request base64 env);
}

start-sending :
    (base64 : Text → Text) (env : Environment)
    → (is_missing env.client_id || is_missing env.client_secret) ≡ false
    → start base64 env ≡ sending base64 env
unfolding start
start-sending base64 env h = rw h

module _ (decimal : ℕ → Text) where
  print_url-ends_with :
      (body : Option Json) (p : Process)
      → p.output ≡ []
      → let q = print_url body p in
        let (code, output) = ends_with (prop (lit "url") body) in
        (q.exit ≡ some code) × (q.output ≡ output) × (q.sent ≡ p.sent)
  unfolding print_url
  print_url-ends_with body p h = elim (Option-cases (prop (lit "url") body)) [
    | inl e ↦ rw (e, print_url) (refl, h, refl)
    | inr (url, e) ↦ rw (e, print_url) (refl, ap (λ o. url ∷ o) h, refl)
  ]

  finish-ends_with :
      (reply : Reply) (p : Process)
      → p.output ≡ []
      → let q = finish decimal reply p in
        let (code, output) = ends_with (url_of reply) in
        (q.exit ≡ some code) × (q.output ≡ output) × (q.sent ≡ p.sent)
  unfolding finish
  finish-ends_with failed p h = (refl, h, refl)
  finish-ends_with (answered status body) p h = elim (Bool-cases (is_ok status)) [
    | inl good ↦ rw good (print_url-ends_with body p h)
    | inr bad ↦ rw bad (refl, h, refl)
  ]

  ended-step : (e : Event) (p : Process) (code : ℕ) → p.exit ≡ some code → step decimal p e ≡ p
  unfolding step
  ended-step e p code h =
      ap (λ o. unless_ended o p (elim p.sent [ none ↦ p | some r ↦ hear decimal e p ])) h

  ended-run : (es : List Event) (p : Process) (code : ℕ) → p.exit ≡ some code → run decimal p es ≡ p
  unfolding run
  ended-run [] p code h = refl
  ended-run (e ∷ es) p code h =
      ap (λ q. run decimal q es) (ended-step e p code h) ∙ ended-run es p code h

  -- What the first event does, whatever follows it.
  first-run :
      (base64 : Text → Text) (env : Environment) (e : Event) (es : List Event)
      → let q = run decimal (sending base64 env) (e ∷ es) in
        let (code, output) = ends_with (first_url (e ∷ es)) in
        (q.exit ≡ some code) × (q.output ≡ output) × (q.sent ≡ some (request base64 env))
  unfolding run step hear
  first-run base64 env time_out es =
      rw (ended-run es (throw (sending base64 env)) 1 refl) (refl, refl, refl)
  first-run base64 env (answer reply) es =
      let ends = finish-ends_with reply (sending base64 env) refl in
      rw
        (ended-run es (finish decimal reply (sending base64 env)) (ends_with (url_of reply)).0
          ends.0)
        ends

  -- With both credentials, the client has sent its one request and has ended when its timer has run
  -- out, whatever happens before and after that: with code 0 and the URL of the answer as its only
  -- output, if the first thing that happens is a good answer with a body that can be read; otherwise
  -- with code 1 and no output.
  pub main-ends :
      (base64 : Text → Text) (env : Environment) (before after : List Event)
      → (is_missing env.client_id || is_missing env.client_secret) ≡ false
      → let q = main decimal base64 env (before ++ time_out ∷ after) in
        let (code, output) = ends_with (first_url (before ++ time_out ∷ after)) in
        (q.exit ≡ some code) × (q.output ≡ output) × (q.sent ≡ some (request base64 env))
  unfolding main
  main-ends base64 env [] after h =
      rw (start-sending base64 env h) (first-run base64 env time_out after)
  main-ends base64 env (e ∷ before) after h =
      rw (start-sending base64 env h) (first-run base64 env e (before ++ time_out ∷ after))

-- RFC 7617, as Go's `Request.BasicAuth` reads it: the name is what stands before the first colon.
abbrev pub cut : Text → Option (Text × Text)
cut [] = none
cut (c ∷ s) =
    let rest = cut s in if c == b':' then some ([], s) else Option.map (λ (n, w). (c ∷ n, w)) rest

abbrev pub strip : Text → Text → Option Text
strip [] s = some s
strip (c ∷ prefix) [] = none
strip (c ∷ prefix) (d ∷ s) = if c == d then strip prefix s else none

abbrev pub basic_auth : (Text → Text) → Text → Option (Text × Text)
basic_auth decode header = Option.bind (strip (lit "Basic ") header) (λ s. cut (decode s))

cut-append :
    (name secret : Text)
    → All (λ c. (c == b':') ≡ false) name
    → cut (name ++ b':' ∷ secret) ≡ some (name, secret)
cut-append [] secret h = refl
cut-append (c ∷ name) secret (other, h) = rw other (rw (cut-append name secret h) refl)

-- If `decode` undoes the encoding of the credentials, and the id holds no colon, then what a server
-- reads from the header of the request is the id and the secret of the environment.
pub basic_auth-request :
    (base64 decode : Text → Text) (env : Environment)
    → let credentials = coalesce env.client_id [] ++ b':' ∷ coalesce env.client_secret [] in
      decode (base64 credentials) ≡ credentials
      → All (λ c. (c == b':') ≡ false) (coalesce env.client_id [])
      → basic_auth decode (request base64 env).authorization
        ≡ some (coalesce env.client_id [], coalesce env.client_secret [])
unfolding request Option.bind
basic_auth-request base64 decode env undone plain =
    rw undone (cut-append (coalesce env.client_id []) (coalesce env.client_secret []) plain)
