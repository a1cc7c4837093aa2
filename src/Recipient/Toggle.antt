-- ===== src/Recipient/Toggle.antt =====
-- `setupSecretToggles` of web/static/reveal.js: the button beside the password of a link.
use secureshare.Prelude.{◌≡◌, refl, Bool, true, false, not, if◌then◌else◌}
use secureshare.Text.{Text}
use secureshare.Recipient.{Copy}

-- Whether `input.type` is `password`, and the text and the label of the button.
pub record PasswordToggle : Type 0 where
  pub hides : Bool
  pub text : Text
  pub label : Text

module _ (c : Copy) where
  -- The click listener.
  unfoldable pub toggle_password : PasswordToggle → PasswordToggle
  toggle_password t =
      let text = if t.hides then c.hide else c.show in
      record { hides = not t.hides; text = text; label = text }

  -- After a click the button offers, in its text and its label, what the field does not do, and two
  -- clicks bring back a button that did so before.
  pub toggle_password_lem :
      (hides : Bool)
      → let before : PasswordToggle = record {
        hides = hides;
        text = if hides then c.show else c.hide;
        label = if hides then c.show else c.hide;
      } in
        let after = toggle_password before in
        (after.hides ≡ not hides)
        × (after.text ≡ (if after.hides then c.show else c.hide))
        × (after.label ≡ after.text)
        × (toggle_password after ≡ before)
  unfolding toggle_password
  toggle_password_lem true = (refl, refl, refl, refl)
  toggle_password_lem false = (refl, refl, refl, refl)
