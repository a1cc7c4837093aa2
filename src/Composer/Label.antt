-- ===== src/Composer/Label.antt =====
-- `labelForField` of web/static/admin.js.
pub mod Laws
use secureshare.Prelude.{
  ℕ, Bool, true, false, not, List, [], ◌∷◌, ◌++◌, Option, none, some, ◌-◌, leb, ◌==◌, ◌&&◌, ◌||◌,
  if◌then◌else◌, text_eq,
}
use secureshare.Text.{Text, lit}
use secureshare.Composer.{Host}

-- What `labelForField` returns: a text, or what a plain object inherits: a function that the language
-- has built in, by its name, or `Object.prototype`.
pub data Label : Type 0 where
  plain : Text → Label
  native_function : Text → Label
  object_prototype : Label

-- The properties of `credentialLabels`.
abbrev pub credential_labels : List (Text × Label)
credential_labels =
    (lit "client_id", plain (lit "OAuth Client ID"))
    ∷ (lit "client_secret", plain (lit "OAuth Client Secret"))
    ∷ []

abbrev native : Text → Text × Label
native name = (name, native_function name)

-- The properties of `Object.prototype` in ECMA-262, which every plain object inherits.
abbrev pub inherited_properties : List (Text × Label)
inherited_properties =
    (lit "constructor", native_function (lit "Object"))
    ∷ native (lit "__defineGetter__")
    ∷ native (lit "__defineSetter__")
    ∷ native (lit "hasOwnProperty")
    ∷ native (lit "__lookupGetter__")
    ∷ native (lit "__lookupSetter__")
    ∷ native (lit "isPrototypeOf")
    ∷ native (lit "propertyIsEnumerable")
    ∷ native (lit "toString")
    ∷ native (lit "valueOf")
    ∷ (lit "__proto__", object_prototype)
    ∷ native (lit "toLocaleString")
    ∷ []

abbrev pub find_property : Text → List (Text × Label) → Option Label
find_property key [] = none
find_property key ((name, label) ∷ rest) =
    let later = find_property key rest in if text_eq key name then some label else later

-- `[_.-]`.
abbrev pub is_separator : ℕ → Bool
is_separator c = c == b'_' || c == b'.' || c == b'-'

-- `[A-Za-z0-9]`.
abbrev pub is_alphanumeric : ℕ → Bool
is_alphanumeric c =
    (leb b'A' c && leb c b'Z') || (leb b'a' c && leb c b'z') || (leb b'0' c && leb c b'9')

-- `\w`.
abbrev pub is_word : ℕ → Bool
is_word c = is_alphanumeric c || c == b'_'

abbrev ascii_upper : ℕ → ℕ
ascii_upper c = if leb b'a' c && leb c b'z' then c - 32 else c

-- `replace(/[_.-]+/g, " ")`; the flag says that a run has begun.
unfoldable pub spaced : Bool → Text → Text
spaced in_run [] = []
spaced in_run (c ∷ s) =
    let rest = spaced (is_separator c) s in
    if is_separator c then if in_run then rest else 32 ∷ rest else c ∷ rest

-- `replace(/\b\w/g, (value) => value.toUpperCase())`; the flag says that a word unit stands before.
unfoldable pub capitalized : Bool → Text → Text
capitalized in_word [] = []
capitalized in_word (c ∷ s) =
    (if is_word c && not in_word then ascii_upper c else c) ∷ capitalized (is_word c) s

-- The property that is found; each of them is truthy.
abbrev pub coalesce_label : Option Label → Text → Label
coalesce_label none made = plain made
coalesce_label (some label) made = label

unfoldable pub label_for_field : Host → Text → Label
unfolding spaced capitalized
label_for_field host name =
    let normalized = host.lower_case name in
    coalesce_label (find_property normalized (credential_labels ++ inherited_properties))
      (capitalized false (spaced false name))

-- `${label}`.
unfoldable pub label_text : Label → Text
label_text (plain t) = t
label_text (native_function name) = lit "function " ++ name ++ lit "() { [native code] }"
label_text object_prototype = lit "[object Object]"
