-- ===== src/Theme.antt =====
-- `setupTheme` of web/static/admin.js on a page with one theme button, as web/templates/_shell.html
-- has it. The handler is cut where it waits for the server.
pub mod Laws
use secureshare.Prelude.{
  ℕ, zero, suc, ◌+◌, ◌%◌, Bool, true, false, List, [], ◌∷◌, ◌++◌, Option, none, some, get_elem?,
  if◌then◌else◌, text_eq,
}
use secureshare.Text.{Text, lit, coalesce}
use secureshare.Json.{Json, string, Value, prop, truthy, value_text}
use secureshare.Fetch.{Reply, failed, answered, body_or_empty, failure}
use secureshare.Button.{Button, set_button_loading}

abbrev pub themes : List Text
themes = lit "system" ∷ lit "light" ∷ lit "dark" ∷ []

-- `themes.includes(theme)`.
unfoldable pub includes : List Text → Text → Bool
includes [] t = false
includes (s ∷ rest) t = if text_eq s t then true else includes rest t

-- `themes.indexOf(theme)` of a theme that is there.
unfoldable pub index_of : List Text → Text → ℕ
index_of [] t = 0
index_of (s ∷ rest) t = let n = index_of rest t in if text_eq s t then 0 else suc n

unfoldable pub current_theme : Option Text → Text
unfolding includes
current_theme none = lit "system"
current_theme (some t) = if includes themes t then t else lit "system"

unfoldable pub next_theme : Option Text → Text
unfolding current_theme index_of
next_theme theme = coalesce (get_elem? themes ((index_of themes (current_theme theme) + 1) % 3)) []

pub record Page : Type 0 where
  pub theme : Option Text  -- `document.documentElement.dataset.theme`
  pub preference : Option Text  -- `button.dataset.themePreference`
  pub button : Button
  pub aria_label : Text
  pub toasts : List Text
  pub sent : List Text  -- the themes that were asked for, the latest first
  pub pending : ℕ  -- how many handlers wait for an answer

-- What the `try` block leaves: a toast, or `savedTheme`.
pub data Saved : Type 0 where
  told : Text → Saved
  saved : Value → Saved

abbrev pub refusal : Text
refusal = lit "Theme preference could not be saved."

abbrev pub offline : Text
offline = lit "Theme preference could not be saved. Check your connection and try again."

abbrev theme_of : Json → Saved
theme_of body = elim (prop (lit "theme") (some body)) [ none ↦ told offline | some v ↦ saved v ]

unfoldable pub read_answer : Reply → Saved
read_answer failed = told offline
read_answer (answered status body) = elim (failure refusal offline (answered status body)) [
  | some t ↦ told t
  | none ↦ theme_of (body_or_empty body)
]

-- The handler up to `fetch`.
unfoldable pub start_theme : Page → Page
start_theme p = record p {
  button = set_button_loading true p.button;
  sent = next_theme p.theme ∷ p.sent;
  pending = suc p.pending;
}

pub data Event : Type 0 where
  click : Event
  answer : Reply → Event

-- `toUpperCase` of one unit, from the host's Unicode tables.
module _ (upper : ℕ → Text) where
  abbrev pub label : Text → Text
  label [] = []
  label (c ∷ s) = upper c ++ s

  abbrev pub theme_text : Text → Text
  theme_text t = lit "Theme: " ++ label t

  unfoldable pub show_theme : Text → Page → Page
  show_theme t p = record p {
    theme = some t;
    preference = some t;
    button = record p.button { text = theme_text t; original_text = some (theme_text t) };
    aria_label = lit "Color theme: " ++ label t;
    toasts = (label t ++ lit " theme saved to your account.") ∷ p.toasts;
  }

  -- `if (savedTheme) …`. A theme that is no text throws at its label, when the two data properties
  -- are written; one that has no text throws at the first of them.
  unfoldable pub apply_saved : Value → Page → Page
  apply_saved (some (string [])) p = p
  apply_saved (some (string (c ∷ s))) p = show_theme (c ∷ s) p
  apply_saved v p =
      if truthy v
      then elim (value_text v) [
        | none ↦ p
        | some t ↦ record p { theme = some t; preference = some t }
      ]
      else p

  -- The rest of the handler.
  unfoldable pub finish_theme : Saved → Page → Page
  finish_theme (told t) p = record p {
    button = set_button_loading false p.button;
    toasts = t ∷ p.toasts;
  }
  finish_theme (saved v) p = apply_saved v (record p { button = set_button_loading false p.button })

  abbrev pub take_answer : ℕ → Reply → Page → Page
  take_answer zero reply p = p
  take_answer (suc n) reply p = finish_theme (read_answer reply) (record p { pending = n })

  -- A browser sends no clicks to a disabled button.
  unfoldable pub step : Page → Event → Page
  step p click = if p.button.disabled then p else start_theme p
  step p (answer reply) = take_answer p.pending reply p

  unfoldable pub run : Page → List Event → Page
  run p [] = p
  run p (e ∷ es) = run (step p e) es
