-- ===== src/Composer/Rows.antt =====
-- The rows of the create form in web/static/admin.js: adding from the field picker, removing, and
-- moving.
pub mod Laws
use secureshare.Prelude.{
  modify_at, ℕ, zero, suc, Bool, true, false, not, List, [], ◌∷◌, ◌++◌, Option, none, some, map,
  leb, ◌&&◌, ◌||◌, if◌then◌else◌, text_eq, length,
}
use secureshare.Text.{Text, lit, trim, is_empty}
use secureshare.Composer.{Host, Row, max_fields, member}
use secureshare.Composer.Label.{label_for_field, label_text}

-- An entry of `fieldPresets`; a property that is left out reads as undefined.
pub record Preset : Type 0 where
  pub sensitive : Bool
  pub multiline : Bool

abbrev pub preset : Bool → Bool → Preset
preset sensitive multiline = record { sensitive = sensitive; multiline = multiline }

abbrev pub field_presets : List (Text × Preset)
field_presets =
    (lit "username", preset false false)
    ∷ (lit "password", preset true false)
    ∷ (lit "api_key", preset true false)
    ∷ (lit "client_id", preset false false)
    ∷ (lit "client_secret", preset true false)
    ∷ (lit "access_token", preset true false)
    ∷ (lit "refresh_token", preset true false)
    ∷ (lit "host", preset false false)
    ∷ (lit "port", preset false false)
    ∷ (lit "database", preset false false)
    ∷ (lit "connection_string", preset true true)
    ∷ (lit "private_key", preset true true)
    ∷ (lit "certificate", preset false true)
    ∷ []

-- `fieldPresets[normalized] || {}`: a row is sensitive unless its preset says otherwise. What the
-- object inherits spreads to nothing, like an unknown name.
unfoldable pub find_preset : Text → List (Text × Preset) → Preset
find_preset name [] = preset true false
find_preset name ((k, p) ∷ rest) = if text_eq k name then p else find_preset name rest

unfoldable pub row_template : Text → Preset → Row
row_template name p = record {
  key = name;
  value = [];
  sensitive = p.sensitive;
  multiline = p.multiline;
}

-- The rows and the message beside them.
pub record Form : Type 0 where
  pub rows : List Row
  pub structured_error : Text

unfoldable pub current_field_names : Host → List Row → List Text
current_field_names host [] = []
current_field_names host (r ∷ rs) =
    let name = host.lower_case (trim r.key) in
    let rest = current_field_names host rs in if is_empty name then rest else name ∷ rest

-- The row that is added for a name.
unfoldable pub new_row : Host → Text → Row
new_row host name =
    let normalized = host.lower_case (trim name) in
    row_template normalized
      (if is_empty normalized then preset true false else find_preset normalized field_presets)

-- `addStructuredField(name)`, and whether it added a row.
unfoldable pub add_structured_field : Host → Text → Form → Form × Bool
add_structured_field host name f =
    let normalized = host.lower_case (trim name) in
    if leb max_fields (length f.rows)
    then (record f { structured_error = lit "Structured secrets are limited to 50 fields." }, false)
    else if not (is_empty normalized) && member normalized (current_field_names host f.rows)
    then (
      record f {
        structured_error = label_text (label_for_field host name) ++ lit " has already been added.";
      },
      false,
    )
    else (record { rows = f.rows ++ new_row host name ∷ []; structured_error = [] }, true)

-- The change listener of the field picker, with the value that is picked.
unfoldable pub pick_field : Host → Text → Form → Form
pick_field host [] f = f
pick_field host (c ∷ s) f =
    let name = if text_eq (c ∷ s) (lit "__custom__") then [] else c ∷ s in
    (add_structured_field host name f).0

module _ {ℓ} {A : Type ℓ} where
  unfoldable pub erase_at : ℕ → List A → List A
  erase_at i [] = []
  erase_at zero (x ∷ xs) = xs
  erase_at (suc i) (x ∷ xs) = x ∷ erase_at i xs

  -- `insertBefore(row.nextElementSibling, row)`, where there is a next one.
  unfoldable pub move_down : ℕ → List A → List A
  move_down i [] = []
  move_down i (x ∷ []) = x ∷ []
  move_down zero (x ∷ y ∷ xs) = y ∷ x ∷ xs
  move_down (suc i) (x ∷ y ∷ xs) = x ∷ move_down i (y ∷ xs)

  -- `insertBefore(row, row.previousElementSibling)`, where there is a previous one.
  unfoldable pub move_up : ℕ → List A → List A
  move_up zero xs = xs
  move_up (suc i) xs = if leb (length xs) (suc i) then xs else move_down i xs

pub data Event : Type 0 where
  add_empty : Event
  pick : Text → Event
  remove up down : ℕ → Event
  -- The user types into the inputs of a row.
  edit : ℕ → Row → Event
  -- `#create-another` clears the rows.
  create_another : Event

unfoldable pub step : Host → Form → Event → Form
step host f add_empty = (add_structured_field host [] f).0
step host f (pick name) = pick_field host name f
step host f (remove i) =
    if leb (length f.rows) i then f else record { rows = erase_at i f.rows; structured_error = [] }
step host f (up i) = record f { rows = move_up i f.rows }
step host f (down i) = record f { rows = move_down i f.rows }
step host f (edit i r) = record f { rows = modify_at i (λ old. r) f.rows }
step host f create_another = record { rows = []; structured_error = [] }

unfoldable pub run : Host → Form → List Event → Form
run host f [] = f
run host f (e ∷ es) = run host (step host f e) es
