-- ===== src/Exchange/Delivered.antt =====
-- A secret on its way from form to screen, to the end: the submit listener of web/static/admin.js, and
-- a run of the recipient's page of web/static/reveal.js.
use secureshare.Prelude.{◌≡◌, Bool, true, false, some}
use secureshare.Text.{Text, lit}
use secureshare.Json.{Json, boolean, string, object, Fields, own}
use secureshare.Time.{Calendar}
use secureshare.Composer
use secureshare.Recipient.{Copy, Page, ready}

-- The body of a good answer to the preparation: the link may be attempted, and its expiration is a
-- text.
abbrev pub CanBeRevealed : Fields → Text → Type 0
CanBeRevealed fields at =
    (own (lit "may_attempt") (object fields) ≡ some (boolean true))
    × (own (lit "expires_at") (object fields) ≡ some (string at))

module _ (cal : Calendar) (c : Copy) where
  -- The page is ready when the preparation has been answered.
  abbrev Readied : Page → Page × Bool → Type 0
  Readied p (q, threw) =
      (threw ≡ false) × (q.current ≡ ready) × (q.token ≡ p.token) × (q.sent ≡ p.sent)
