-- ===== src/Json.antt =====
-- JSON values as `response.json()` and `JSON.parse` give them, and what the scripts do with them:
-- property reads, truth, `String(…)`.
pub mod Print
use secureshare.Prelude.{
  ℕ, Bool, true, false, not, List, [], ◌∷◌, Option, none, some, text_eq, if◌then◌else◌,
}
use mathlib.Core.Option
use secureshare.Text.{Text, lit, join, is_empty}

-- A number is kept as the text that `String(n)` gives. JSON has neither NaN nor infinities.
mutual
  pub data Json : Type 0 where
    null : Json
    boolean : Bool → Json
    number : Text → Json
    string : Text → Json
    array : Items → Json
    object : Fields → Json

  pub data Items : Type 0 where
    nil : Items
    cons : Json → Items → Items

  pub data Fields : Type 0 where
    end : Fields
    field : Text → Json → Fields → Fields

-- A JavaScript value that a property read gives: `none` is undefined.
abbrev pub Value : Type 0
Value = Option Json

unfoldable pub lookup : Text → Fields → Value
lookup key end = none
lookup key (field k v rest) = if text_eq k key then some v else lookup key rest

abbrev pub own : Text → Json → Value
own key (object fields) = lookup key fields
own key _ = none

-- `value.key`: `none` is the TypeError of a read from null or undefined. No key that the scripts
-- read is inherited from a prototype.
unfoldable pub prop : Text → Value → Option Value
prop key none = none
prop key (some null) = none
prop key (some v) = some (own key v)

-- `value?.key`.
unfoldable pub opt_prop : Text → Value → Value
opt_prop key none = none
opt_prop key (some v) = own key v

unfoldable pub truthy : Value → Bool
truthy none = false
truthy (some null) = false
truthy (some (boolean b)) = b
truthy (some (number t)) = not (text_eq t (lit "0"))
truthy (some (string s)) = not (is_empty s)
truthy (some _) = true

-- `a || b`.
abbrev pub or_value : Value → Value → Value
or_value a b = if truthy a then a else b

-- `value === "…"`.
unfoldable pub is_string : Text → Value → Bool
is_string s (some (string t)) = text_eq t s
is_string s _ = false

abbrev has_own : Text → Fields → Bool
has_own key fields = elim (lookup key fields) [ none ↦ false | some v ↦ true ]

-- `String(value)`; `none` is a TypeError: an own `toString`, which is never a function in JSON,
-- hides the inherited one, and `valueOf` gives no primitive. `Array.prototype.join` writes null as
-- the empty text.
unfoldable mutual
  unfolding lookup

  pub to_text : Json → Option Text
  to_text null = some (lit "null")
  to_text (boolean true) = some (lit "true")
  to_text (boolean false) = some (lit "false")
  to_text (number t) = some t
  to_text (string s) = some s
  to_text (array xs) = Option.map (join (lit ",")) (element_texts xs)
  to_text (object fields) =
      if has_own (lit "toString") fields then none else some (lit "[object Object]")

  pub element_texts : Items → Option (List Text)
  element_texts nil = some []
  element_texts (cons null xs) = Option.map (λ ts. [] ∷ ts) (element_texts xs)
  element_texts (cons x xs) =
      Option.bind (to_text x) (λ t. Option.map (λ ts. t ∷ ts) (element_texts xs))

-- `${value}` and `String(value)` where the value may be undefined.
unfoldable pub value_text : Value → Option Text
value_text none = some (lit "undefined")
value_text (some v) = to_text v

-- The text that `element.textContent = value` sets: null and undefined set the empty text.
unfoldable pub content_text : Value → Option Text
content_text none = some []
content_text (some null) = some []
content_text (some v) = to_text v
