-- ===== src/Headers/Laws.antt =====
-- Which headers a request of web/static/admin.js carries.
use secureshare.Prelude.{
  ◌≡◌, refl, ◌∙◌, ap, false, [], ◌∷◌, Option, some, text_eq, Bool-cases, inl, inr, text_eq_refl,
  text_eq→≡,
}
use secureshare.Text.{Text}
use secureshare.Headers.{
  Headers, header, set_header, csrf_name, csrf_token, with_token, csrf_headers,
}

-- The token as a header.
abbrev pub token_header : Text → Headers → Option Text
token_header [] extra = header csrf_name extra
token_header (c ∷ s) extra = some (c ∷ s)

header-set_header :
    (key value : Text) (hs : Headers) → header key (set_header key value hs) ≡ some value
unfolding set_header
header-set_header key value [] = rw (text_eq_refl key) refl
header-set_header key value ((k, v) ∷ hs) = elim (Bool-cases (text_eq k key)) [
  | inl e ↦ rw e (rw e refl)
  | inr e ↦ rw e (rw e (header-set_header key value hs))
]

-- Where a key is not the one that is set.
header-set_header_other :
    (key value other : Text) (hs : Headers)
    → text_eq key other ≡ false
    → header other (set_header key value hs) ≡ header other hs
unfolding set_header
header-set_header_other key value other [] apart = rw apart refl
header-set_header_other key value other ((k, v) ∷ hs) apart = elim (Bool-cases (text_eq k key)) [
  | inl e ↦
      let same : k ≡ key = text_eq→≡ k key e in
      let differs : text_eq k other ≡ false = ap (λ w. text_eq w other) same ∙ apart in
      rw e (rw differs refl)
  | inr e ↦ rw e (rw (header-set_header_other key value other hs apart) refl)
]

with_token_lem :
    (token : Text) (extra : Headers) (other : Text)
    → text_eq csrf_name other ≡ false
    → let hs = with_token token extra in
      (header csrf_name hs ≡ token_header token extra) × (header other hs ≡ header other extra)
with_token_lem [] extra other apart = (refl, refl)
with_token_lem (c ∷ s) extra other apart = (
  header-set_header csrf_name (c ∷ s) extra,
  header-set_header_other csrf_name (c ∷ s) other extra apart,
)

-- A request carries the token of the page under its name, whatever the caller put there, if the page
-- has one that is not empty, and else what the caller put there; every other header is the caller's.
pub csrf_headers_lem :
    (meta : Option (Option Text)) (extra : Headers) (other : Text)
    → text_eq csrf_name other ≡ false
    → let hs = csrf_headers meta extra in
      (header csrf_name hs ≡ token_header (csrf_token meta) extra)
      × (header other hs ≡ header other extra)
unfolding csrf_headers
csrf_headers_lem meta extra other apart = with_token_lem (csrf_token meta) extra other apart
