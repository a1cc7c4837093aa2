-- ===== src/Button/Laws.antt =====
-- `setButtonLoading` of web/static/admin.js restores what it replaced.
use secureshare.Prelude.{◌≡◌, ◌≢◌, refl, true, false, [], ◌∷◌}
use secureshare.Text.{Text}
use secureshare.Button.{Button, set_button_loading}

pub restored :
    (b : Button) (t : Text)
    → t ≢ []
    → let r = set_button_loading false (set_button_loading true (record b { text = t })) in
      (r.text ≡ t) × (r.disabled ≡ false)
unfolding set_button_loading
restored b [] h = absurd (h refl)
restored b (c ∷ s) h = (refl, refl)

-- A button that has a text gets it back, and is enabled, when its loading ends; while it loads it is
-- disabled.
pub set_button_loading_lem :
    (b : Button)
    → b.text ≢ []
    → let l = set_button_loading true b in
      let r = set_button_loading false l in
      (l.disabled ≡ true) × (r.text ≡ b.text) × (r.disabled ≡ false)
unfolding set_button_loading
set_button_loading_lem b h = let (same, free) = restored b b.text h in (refl, same, free)
