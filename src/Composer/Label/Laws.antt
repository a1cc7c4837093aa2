-- ===== src/Composer/Label/Laws.antt =====
-- The labels that `labelForField` of web/static/admin.js makes of ordinary names.
use secureshare.Prelude.{
  ℕ, ◌≡◌, refl, Bool, false, List, [], ◌∷◌, arith, All, text_eq, text_eq→≡, ap, map, true, leb,
  ◌&&◌, ◌||◌, ◌++◌, Option, none, some, inl, inr, ◌⊎◌, Bool-cases, either_branch,
}
use secureshare.Text.{Text, lit}
use secureshare.Composer.{Host, ascii_lower}
use secureshare.Composer.Label.{
  Label, plain, native_function, credential_labels, inherited_properties, find_property,
  coalesce_label, is_separator, is_word, ascii_upper, spaced, capitalized, label_for_field,
}

-- A unit of a label: no separator, and white space only as the single space.
abbrev pub NoSeparator : Text → Type 0
NoSeparator = All (λ c. is_separator c ≡ false)

spaced-NoSeparator : (b : Bool) (s : Text) → NoSeparator (spaced b s)
unfolding spaced
spaced-NoSeparator b [] = tt
spaced-NoSeparator b (c ∷ s) = ground (arith, spaced-NoSeparator (is_separator c) s)

upper_lem : (c : ℕ) → is_separator c ≡ false → is_separator (ascii_upper c) ≡ false
upper_lem c h = ground arith

capitalized-NoSeparator : (b : Bool) (s : Text) → NoSeparator s → NoSeparator (capitalized b s)
unfolding capitalized
capitalized-NoSeparator b [] h = tt
capitalized-NoSeparator b (c ∷ s) (solid, h) =
    (ground (arith, upper_lem c solid), capitalized-NoSeparator (is_word c) s h)

abbrev pub known_properties : List (Text × Label)
known_properties = credential_labels ++ inherited_properties

find_property-none :
    (key : Text) (table : List (Text × Label))
    → All (λ p. text_eq key p.0 ≡ false) table
    → find_property key table ≡ none
find_property-none key [] h = refl
find_property-none key ((name, label) ∷ rest) (other, h) = rw other (find_property-none key rest h)

-- A name that in lower case is not one that the object of the labels has or inherits has a text for
-- its label, and the text has no underscores, dots and dashes.
pub label_for_field-plain :
    (host : Host) (name : Text)
    → All (λ p. text_eq (host.lower_case name) p.0 ≡ false) known_properties
    → (t : Text) × (label_for_field host name ≡ plain t) × NoSeparator t
unfolding label_for_field
label_for_field-plain host name h = (
  capitalized false (spaced false name),
  ap (λ o. coalesce_label o (capitalized false (spaced false name)))
      (find_property-none (host.lower_case name) known_properties h),
  capitalized-NoSeparator false _ (spaced-NoSeparator false name),
)

abbrev is_upper : ℕ → Bool
is_upper c = leb b'A' c && leb c b'Z'

abbrev has_upper : Text → Bool
has_upper [] = false
has_upper (c ∷ s) = is_upper c || has_upper s

has_upper-map : (s : Text) → has_upper (map ascii_lower s) ≡ false
has_upper-map [] = refl
has_upper-map (c ∷ s) = ground (arith, has_upper-map s)

-- No text in lower case is one with a capital.
lower-apart : (s t : Text) → has_upper t ≡ true → text_eq (map ascii_lower s) t ≡ false
lower-apart s t h = elim (Bool-cases (text_eq (map ascii_lower s) t)) [
  | inl e ↦
      let same : map ascii_lower s ≡ t = text_eq→≡ (map ascii_lower s) t e in
      let lower = has_upper-map s in absurd (ground (arith, ap has_upper same))
  | inr e ↦ e
]

-- A label that `JSON.stringify` sends.
abbrev IsSent : Label → Type 0
IsSent (native_function name) = ⊥
IsSent _ = Unit

abbrev pub AllSent : Option Label → Type 0
AllSent none = Unit
AllSent (some label) = IsSent label

-- A property that a text in lower case cannot find, or whose value is sent.
abbrev IsOrdinary : Text × Label → Type 0
IsOrdinary (name, label) = (has_upper name ≡ true) ⊎ IsSent label

find_property-AllSent :
    (s : Text) (table : List (Text × Label))
    → All IsOrdinary table
    → AllSent (find_property (map ascii_lower s) table)
find_property-AllSent s [] h = tt
find_property-AllSent s ((name, label) ∷ rest) (inl capital, h) =
    rw (lower-apart s name capital) (find_property-AllSent s rest h)
find_property-AllSent s ((name, label) ∷ rest) (inr sent, h) =
    either_branch AllSent (text_eq (map ascii_lower s) name) (some label) _ (λ e. sent)
      (λ e. find_property-AllSent s rest h)

-- The properties but for `constructor`, the one function whose name has no capital.
abbrev other_properties : List (Text × Label)
other_properties = credential_labels ++ elim inherited_properties [ [] ↦ [] | first ∷ rest ↦ rest ]

other-IsOrdinary : All IsOrdinary other_properties
other-IsOrdinary = (
  inr tt,
  (
    inr tt,
    (
      inl refl,
      (
        inl refl,
        (
          inl refl,
          (
            inl refl,
            (inl refl, (inl refl, (inl refl, (inl refl, (inl refl, (inr tt, (inl refl, tt))))))),
          ),
        ),
      ),
    ),
  ),
)

pub find_property-constructor :
    find_property (lit "constructor") known_properties ≡ some (native_function (lit "Object"))
unfolding text_eq
find_property-constructor = refl

-- A text in lower case finds no function but by the name `constructor`.
pub find_property-lower :
    (s : Text)
    → text_eq (map ascii_lower s) (lit "constructor") ≡ false
    → AllSent (find_property (map ascii_lower s) known_properties)
find_property-lower s other = rw other (find_property-AllSent s other_properties other-IsOrdinary)
