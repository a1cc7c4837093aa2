-- ===== src/Tests/SecretView.antt =====
-- How a recipient's page shows three payloads.
use secureshare.Prelude.{◌≡◌, refl, [], ◌∷◌, none, some, true, false, text_eq}
use secureshare.Text.{lit, join}
use secureshare.Json.{
  Json, boolean, string, array, object, nil, cons, end, field, prop, lookup, truthy, opt_prop,
  is_string, value_text, content_text, to_text,
}
use secureshare.Recipient.{Copy, SecretRow, Page, copy_of}
use secureshare.Recipient.Events.{blank_page}
use secureshare.Recipient.Payload.{
  render_field, render_secret, lines, mask, show_unstructured, newline,
}
use secureshare.Recipient.Payload.Laws.{render_secret-structured, Rendered, Listed}
use mathlib.Core.Option

abbrev pub english : Copy
english = copy_of (λ key. none)

abbrev password_field : Json
password_field = object (
    field (lit "name") (string (lit "password"))
      (field (lit "value") (string (lit "hunter2")) (field (lit "sensitive") (boolean true) end)))

abbrev password_row : SecretRow
password_row = record {
  name = lit "password";
  value = lit "hunter2";
  shown = mask;
  button = english.show;
  button_hidden = false;
}

password-rendered : render_field english password_field ≡ some password_row
unfolding render_field prop lookup truthy value_text content_text Option.bind text_eq to_text
password-rendered = refl

abbrev login : Json
login = object (
    field (lit "type") (string (lit "structured"))
      (field (lit "fields") (array (cons password_field nil)) end))

abbrev blank : Page
blank = blank_page english none []

login-structured : is_string (lit "structured") (opt_prop (lit "type") (some login)) ≡ true
unfolding is_string opt_prop lookup text_eq
login-structured = refl

login-fields : opt_prop (lit "fields") (some login) ≡ some (array (cons password_field nil))
unfolding opt_prop lookup text_eq
login-fields = refl

login-lines : lines (cons password_field nil) ≡ some (lit "password: hunter2" ∷ [])
unfolding lines prop lookup truthy value_text Option.bind text_eq to_text
login-lines = refl

render_secret-structured_example :
    let (q, threw) = render_secret english (some login) none blank in
    (threw ≡ false)
    × Rendered english (cons password_field nil) q.rows
    × Listed english (cons password_field nil) (lit "password: hunter2" ∷ [])
    × (q.revealed_text ≡ join newline (lit "password: hunter2" ∷ []))
    × (q.structured_hidden ≡ false)
    × (q.plain_hidden ≡ true)
render_secret-structured_example =
    render_secret-structured english (some login) none (cons password_field nil)
      (lit "password: hunter2" ∷ []) blank login-structured login-fields login-lines

legacy-shown : (render_secret english none (some (string (lit "old"))) blank).1 ≡ false
unfolding render_secret show_unstructured opt_prop is_string
legacy-shown = refl
