-- ===== src/Headers.antt =====
-- `csrfHeaders` of web/static/admin.js: the headers of every request that changes something.
pub mod Laws
use secureshare.Prelude.{Bool, List, [], ◌∷◌, Option, none, some, text_eq, if◌then◌else◌}
use secureshare.Text.{Text, lit, coalesce}

-- An object of headers: its keys, in the order of their definition, each once.
abbrev pub Headers : Type 0
Headers = List (Text × Text)

abbrev pub header : Text → Headers → Option Text
header key [] = none
header key ((k, v) ∷ hs) = let rest = header key hs in if text_eq k key then some v else rest

-- `{ ...headers, [key]: value }`.
unfoldable pub set_header : Text → Text → Headers → Headers
set_header key value [] = (key, value) ∷ []
set_header key value ((k, v) ∷ hs) =
    let rest = set_header key value hs in if text_eq k key then (k, value) ∷ hs else (k, v) ∷ rest

abbrev pub csrf_name : Text
csrf_name = lit "X-CSRF-Token"

-- `none` is a page without the `meta` element; `some none` is one without the attribute.
unfoldable pub csrf_token : Option (Option Text) → Text
csrf_token none = []
csrf_token (some content) = coalesce content []

abbrev pub with_token : Text → Headers → Headers
with_token [] extra = extra
with_token (c ∷ s) extra = set_header csrf_name (c ∷ s) extra

unfoldable pub csrf_headers : Option (Option Text) → Headers → Headers
csrf_headers meta extra = with_token (csrf_token meta) extra
