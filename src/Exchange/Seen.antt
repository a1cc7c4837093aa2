-- ===== src/Exchange/Seen.antt =====
-- From the sender's click to the recipient's screen: the submit listener of web/static/admin.js, and
-- `reveal` of web/static/reveal.js.
use secureshare.Prelude.{ℕ, ◌≡◌, refl, Bool, true, false, List, [], ◌∷◌, some, map, subst}
use mathlib.Core.List.{map-map}
use secureshare.Text.{Text, lit}
use secureshare.Json.{Json, object, Fields, own, prop}
use secureshare.Json.Print.{stringify}
use secureshare.Fetch.{answered, is_ok}
use secureshare.Composer.{Host, Row, returned}
use secureshare.Composer.Payload.{
  PayloadModel, structured, json_value, text, field_of, payload_model, payload_json,
}
use secureshare.Composer.Payload.Size.{payload_model-structured, payload_model-plain}
use secureshare.Composer.Page.{Page, Mode, structured_mode, plain_mode, create, submission}
use secureshare.Composer.Page.Handlers.{is_structured, start_submit}
use secureshare.Composer.Page.Outcomes.{SubmitEnds, start_submit_lem}
use secureshare.Recipient
use secureshare.Recipient.{Copy, revealed, set_state, set_submitting}
use secureshare.Recipient.Flow.{accepted, reveal_body, settle, finish_reveal}
use secureshare.Exchange.{row_of, shown_secret, render_secret-payload_json}

-- What the recipient's page `q` shows of a form in a mode: the rows, the plain text, and whether it
-- is JSON.
abbrev pub Sees : Host → Copy → Mode → List Row → Text → Bool → Recipient.Page → Type 0
Sees host c structured_mode rows raw is_json q =
    (q.rows ≡ map (λ r. row_of c (field_of host r)) rows)
    × (q.structured_hidden ≡ false)
    × (q.plain_hidden ≡ true)
Sees host c plain_mode rows raw false q =
    (q.secret_code ≡ raw)
    × (q.revealed_text ≡ raw)
    × (q.structured_hidden ≡ true)
    × (q.plain_hidden ≡ false)
Sees host c plain_mode rows raw true q =
    (v : Json) × (host.json_parse raw ≡ some v)
    × (q.secret_code ≡ stringify (lit "  ") [] v)
    × (q.revealed_text ≡ stringify (lit "  ") [] v)
    × (q.structured_hidden ≡ true)
    × (q.plain_hidden ≡ false)

-- A page that shows a payload, after a good answer that holds it.
module _ (c : Copy) (m : PayloadModel) (p : Recipient.Page) (status : ℕ) (fields : Fields)
    (good : is_ok status ≡ true)
    (whole : own (lit "payload") (object fields) ≡ some (payload_json m)) where
  abbrev pub arrived : Recipient.Page
  arrived = settle c (set_state revealed (shown_secret c m (record p { token = [] })), false)

  pub finish_reveal-arrived : finish_reveal c (answered status (some (object fields))) p ≡ arrived
  unfolding finish_reveal reveal_body accepted prop
  finish_reveal-arrived =
      rw (good, reveal_body)
        (rw (whole, accepted)
          (rw
            (render_secret-payload_json c m (own (lit "secret") (object fields))
              (record p { token = [] }))
            refl))

-- What a page shows that has arrived with the payload of a form.
pub arrived-Sees :
    (host : Host) (c : Copy) (mode : Mode) (rows : List Row) (raw : Text) (is_json : Bool)
    (m : PayloadModel) (p : Recipient.Page)
    → payload_model host (is_structured mode) rows raw is_json ≡ returned m
    → Sees host c mode rows raw is_json
        (settle c (set_state revealed (shown_secret c m (record p { token = [] })), false))
unfolding settle set_state set_submitting
arrived-Sees host c structured_mode rows raw is_json m p e =
    let (_, same, _, _) = payload_model-structured host rows raw is_json m e in
    rw same (map-map (row_of c) (field_of host) rows, refl, refl)
arrived-Sees host c plain_mode rows raw false m p e =
    let (_, _, same) = payload_model-plain host rows raw false m e in
    rw same (refl, refl, refl, refl)
arrived-Sees host c plain_mode rows raw true m p e =
    let (_, _, (v, parsed, same)) = payload_model-plain host rows raw true m e in
    rw same (v, parsed, refl, refl, refl, refl)

pub shown_secret-token :
    (c : Copy) (m : PayloadModel) (p : Recipient.Page) → (shown_secret c m p).token ≡ p.token
shown_secret-token c (structured fs) p = refl
shown_secret-token c (json_value v) p = refl
shown_secret-token c (text t) p = refl

-- If the form's payload passes, a click on submit sends it; and if the server answers a consumption
-- well and hands the payload on as it was sent, the recipient's page reveals it, without its token,
-- and shows what the form held: a row for each row, in order, with its value, masked if it is
-- sensitive; or the plain text as it was typed; or the JSON that it parses to, laid out.
pub sent_is_seen :
    (host : Host) (c : Copy) (sender : Page) (m : PayloadModel) (p : Recipient.Page) (status : ℕ)
    (fields : Fields)
    → payload_model host
        (is_structured sender.mode)
        sender.form.rows
        sender.inputs.secret_plain
        sender.inputs.is_json
      ≡ returned m
    → is_ok status ≡ true
    → own (lit "payload") (object fields) ≡ some (payload_json m)
    → let q = finish_reveal c (answered status (some (object fields))) p in
      ((start_submit host sender).sent ≡ create (submission sender m) ∷ sender.sent)
      × ((submission sender m).payload ≡ m)
      × (q.current ≡ revealed)
      × (q.token ≡ [])
      × Sees host c sender.mode sender.form.rows sender.inputs.secret_plain sender.inputs.is_json q
unfolding settle set_state set_submitting submission
sent_is_seen host c sender m p status fields e good whole =
    let (hidden, sent) = start_submit_lem host sender in
    let (created, _, _) : SubmitEnds (returned m) sender (start_submit host sender) =
      subst (λ o. SubmitEnds o sender (start_submit host sender)) e sent in
    rw (finish_reveal-arrived c m p status fields good whole) (
      created,
      refl,
      refl,
      shown_secret-token c m (record p { token = [] }),
      arrived-Sees host c sender.mode sender.form.rows sender.inputs.secret_plain
          sender.inputs.is_json m p e,
    )
