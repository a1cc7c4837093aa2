-- ===== src/Composer/Page/Events/Laws.antt =====
-- What holds of the create page of web/static/admin.js between two events.
use secureshare.Prelude.{
  ◌≡◌, ◌≢◌, ◌≤◌, refl, sym, subst, Bool, true, false, ◌⊎◌, List, [], map, All, count_if, one_if,
  some, Option,
}
use secureshare.Text.{Text, trim, is_empty}
use secureshare.Json.{content_text}
use secureshare.Json.Print.{stringify, encoded_length}
use secureshare.Dialog.{Dialog}
use secureshare.Composer.{Host, Row, max_secret_bytes, returned}
use secureshare.Composer.Rows
use secureshare.Composer.Payload.{
  PayloadModel, structured, json_value, text, payload_json, payload_model, field_of,
}
use secureshare.Composer.Payload.Laws.{WellNamed}
use secureshare.Composer.Payload.Size.{payload_model-structured, payload_model-plain}
use secureshare.Composer.Page.{
  Page, Created, Call, create, Submission, Inputs, DeliveryMode, Mode, structured_mode, plain_mode,
}
use secureshare.Composer.Page.Handlers.{is_structured}

-- Why a payload may be sent.
abbrev pub Grounds : Host → PayloadModel → Type 0
Grounds host (structured fs) =
    (rows : List Row) × (rows ≢ []) × WellNamed host rows × (fs ≡ map (field_of host) rows)
Grounds host (json_value v) = (raw : Text) × (host.json_parse raw ≡ some v)
Grounds host (text raw) = is_empty (trim raw) ≡ false

-- A request for a link carries at most 32768 bytes, for good reason.
abbrev pub IsChecked : Host → Call → Type 0
IsChecked host (create s) =
    (encoded_length (stringify [] [] (payload_json s.payload)) ≤ max_secret_bytes)
    × Grounds host s.payload
IsChecked host _ = Unit

abbrev pub is_create : Call → Bool
is_create (create s) = true
is_create _ = false

pub payload_model-Grounds :
    (host : Host) (mode : Mode) (rows : List Row) (raw : Text) (is_json : Bool) (m : PayloadModel)
    → payload_model host (is_structured mode) rows raw is_json ≡ returned m
    → (encoded_length (stringify [] [] (payload_json m)) ≤ max_secret_bytes) × Grounds host m
payload_model-Grounds host structured_mode rows raw is_json m e =
    let (small, same, one, named) = payload_model-structured host rows raw is_json m e in
    (small, subst (Grounds host) (sym same) (rows, one, named, refl))
payload_model-Grounds host plain_mode rows raw true m e =
    let (small, solid, (v, parsed, same)) = payload_model-plain host rows raw true m e in
    (small, subst (Grounds host) (sym same) (raw, parsed))
payload_model-Grounds host plain_mode rows raw false m e =
    let (small, solid, same) = payload_model-plain host rows raw false m e in
    (small, subst (Grounds host) (sym same) solid)

-- The submit button is disabled exactly while its one request waits, and then no result is on
-- display; a result on display shows the id that the script keeps; every request for a link was
-- checked.
pub record Inv (host : Host) (p : Page) : Type 0 where
  pub one_create : count_if is_create p.pending ≡ one_if p.submit.disabled
  pub waits_hidden : (p.submit.disabled ≡ false) ⊎ (p.result_hidden ≡ true)
  pub shows_id : (p.result_hidden ≡ true) ⊎ (content_text p.created_id ≡ some p.created.id)
  pub checked : All (IsChecked host) p.sent

-- The invariant does not speak of these fields, and of the panel it speaks of the id alone.
pub aside-Inv :
    (host : Host) (p : Page) {form : Rows.Form} {inputs : Inputs} {mode : Mode}
    {delivery_mode : DeliveryMode} {status delivery_status password_summary : Text}
    {created_payload : Option Submission} {created : Created} {revoke_disabled : Bool}
    {dialog : Dialog} {clipboard : Option Text} {toasts : List Text}
    → created.id ≡ p.created.id
    → Inv host p
    → Inv host (record p {
      form = form;
      inputs = inputs;
      mode = mode;
      delivery_mode = delivery_mode;
      status = status;
      delivery_status = delivery_status;
      password_summary = password_summary;
      created_payload = created_payload;
      created = created;
      revoke_disabled = revoke_disabled;
      dialog = dialog;
      clipboard = clipboard;
      toasts = toasts;
    })
aside-Inv host p same v = record {
  one_create = v.one_create;
  waits_hidden = v.waits_hidden;
  shows_id = rw same v.shows_id;
  checked = v.checked;
}
