-- ===== src/Tests/Shell.antt =====
-- A user goes through the themes.
use secureshare.Prelude.{ℕ, ◌≡◌, text_eq, refl, true, false, [], ◌∷◌, none, some}
use secureshare.Text.{Text, lit}
use secureshare.Fetch.{failed}
use secureshare.Theme.{
  themes, includes, next_theme, Page, offline, told, click, theme_text, run, read_answer,
}
use secureshare.Theme.Laws.{Rests, echo, HoldsAll, three_rounds}

-- The themes begin with `s`, `l` and `d`.
abbrev upper : ℕ → Text
upper c = c ∷ []

abbrev page : Page
page = record {
  theme = some (lit "dark");
  preference = some (lit "dark");
  button = record {
    text = theme_text upper (lit "dark");
    original_text = none;
    loading_text = none;
    disabled = false;
  };
  aria_label = lit "Color theme: dark";
  toasts = [];
  sent = [];
  pending = 0;
}

dark-known : includes themes (lit "dark") ≡ true
unfolding includes text_eq
dark-known = refl

three_rounds_example :
    let u = next_theme (some (lit "dark")) in
    let v = next_theme (some u) in
    let q =
      run upper page
        (click ∷ echo upper u ∷ click ∷ echo upper v ∷ click ∷ echo upper (lit "dark") ∷ []) in
    Rests upper (lit "dark") q
    × (q.button.text ≡ theme_text upper (lit "dark"))
    × (q.sent ≡ lit "dark" ∷ v ∷ u ∷ [])
    × HoldsAll (lit "dark" ∷ v ∷ u ∷ [])
three_rounds_example = three_rounds upper (lit "dark") page dark-known (refl, refl, refl)

failed-told : read_answer failed ≡ told offline
unfolding read_answer
failed-told = refl
