-- ===== src/Exchange/Address.antt =====
-- One address, read by both scripts: the admin page of web/static/admin.js cuts the token out of it to
-- send an email again, and the recipient's page of web/static/reveal.js takes it from its address bar.
use secureshare.Prelude.{
  ◌≡◌, ◌≢◌, refl, ◌∙◌, ap, false, List, [], ◌∷◌, ◌++◌, Option, All, ◌==◌, if◌then◌else◌,
}
use secureshare.Text.{Text}
use secureshare.Time.{Calendar}
use secureshare.Composer.Page.{Page, send_email}
use secureshare.Composer.Page.Handlers.{start_email}
use secureshare.Composer.Page.Outcomes.{start_email-token}
use secureshare.Recipient.{Copy}
use secureshare.Recipient.Events.{Event, opened, run}
use secureshare.Recipient.Safety.{token_of, IsInside}
use secureshare.Recipient.Tokens.Own.{run-own_token}

-- `window.location.hash.slice(1)` at an address whose fragment the browser does not encode: what stands
-- behind the first `#`.
abbrev pub fragment_of : Text → Text
fragment_of [] = []
fragment_of (u ∷ address) = if u == b'#' then address else fragment_of address

fragment_of-append :
    (base token : Text)
    → All (λ u. (u == b'#') ≡ false) base
    → fragment_of (base ++ b'#' ∷ token) ≡ token
fragment_of-append [] token h = refl
fragment_of-append (u ∷ base) token (other, h) = rw other (fragment_of-append base token h)

-- If the address on show is a part without `#`, then `#`, then a token that is not empty and has no
-- `#`, the retry of its email sends this token, and so does every request of a recipient who opens
-- the address and does not edit it, whatever the recipient does and the server answers.
pub one_token :
    (cal : Calendar) (c : Copy) (loading_text : Option Text) (es : List Event) (p : Page)
    (base token : Text)
    → p.created.url ≡ base ++ b'#' ∷ token
    → All (λ u. (u == b'#') ≡ false) base
    → All (λ u. (u == b'#') ≡ false) token
    → token ≢ []
    → All IsInside es
    → ((start_email p).sent ≡ send_email token p.created.retry ∷ p.sent)
      × All
          (λ r. token_of r ≡ token)
          (run cal c (opened c loading_text (fragment_of p.created.url)) es).sent
one_token cal c loading_text es p base token url plain_base plain_token held inside =
    let read : fragment_of p.created.url ≡ token =
      ap fragment_of url ∙ fragment_of-append base token plain_base in
    (
      start_email-token p base token url plain_token held,
      rw read ((run-own_token cal c loading_text token es inside).0),
    )
