-- ===== src/Composer.antt =====
-- `setupCreateSecret` of web/static/admin.js: the rows of a structured secret and what is sent of
-- them.
pub mod Label
pub mod Rows
pub mod Payload
pub mod Page
use secureshare.Prelude.{
  ℕ, Bool, true, false, List, [], ◌∷◌, Option, none, some, map, leb, ltb, ◌-◌, ◌+◌, ◌&&◌, ◌||◌, ◌<◌,
  ◌≡◌, ◌==◌, if◌then◌else◌, text_eq, All, ◌⊎◌, inl, inr, refl,
}
use secureshare.Text.{Text, lit}
use secureshare.Json.{Json}

abbrev pub max_fields : ℕ
max_fields = 50

abbrev pub max_secret_bytes : ℕ
max_secret_bytes = 32768

abbrev pub IsAscii : ℕ → Type 0
IsAscii c = c < 128

abbrev pub ascii_lower : ℕ → ℕ
ascii_lower c = if leb b'A' c && leb c b'Z' then c + 32 else c

-- What the script takes from the host: the Unicode tables behind `toLowerCase`, which agree with
-- ASCII, and `JSON.parse`, with the message of its SyntaxError.
pub record Host : Type 0 where
  pub lower_case : Text → Text
  pub lower_ascii : (s : Text) → All IsAscii s → lower_case s ≡ map ascii_lower s
  pub json_parse : Text → Option Json
  pub syntax_error : Text → Text

-- How a function of the script ends: with the message that it throws, or with its value.
pub data Outcome {κ} (T : Type κ) : Type κ where
  thrown : Text → Outcome T
  returned : T → Outcome T

pub Outcome-cases {κ} :
    {T : Type κ} (o : Outcome T) → ((t : T) × (o ≡ returned t)) ⊎ ((e : Text) × (o ≡ thrown e))
Outcome-cases (thrown e) = inr (e, refl)
Outcome-cases (returned t) = inl (t, refl)

module _ {ℓ κ} {S : Type ℓ} {T : Type κ} where
  infixl 5 ◌>>=◌
  -- What follows runs unless something is thrown before.
  abbrev pub ◌>>=◌ : Outcome S → (S → Outcome T) → Outcome T
  thrown message >>= next = thrown message
  returned s >>= next = next s

  -- A sequence that returns has a first part that returns.
  pub >>=-returned :
      (first : Outcome S) (next : S → Outcome T) {t : T}
      → (first >>= next) ≡ returned t
      → (s : S) × (first ≡ returned s) × (next s ≡ returned t)
  >>=-returned (thrown message) next h = cc
  >>=-returned (returned s) next h = (s, refl, h)

-- A row of the form, `.secure-field-row`: its inputs.
pub record Row : Type 0 where
  pub key : Text
  pub value : Text
  pub sensitive : Bool
  pub multiline : Bool

-- `Set.has` on normalized names.
unfoldable pub member : Text → List Text → Bool
member t [] = false
member t (s ∷ rest) = text_eq s t || member t rest
