-- ===== src/PublicExperience.antt =====
-- `setupPublicExperienceSettings` of web/static/admin.js on web/templates/public_experience.html, all
-- elements present.
pub mod Laws
use secureshare.Prelude.{
  ℕ, Bool, true, false, ◌||◌, List, [], ◌∷◌, ◌++◌, Option, none, some, get_elem?, remove_at, map,
  text_eq, if◌then◌else◌,
}
use mathlib.Core.Option
use secureshare.Text.{Text, lit}
use secureshare.Json.{Json, null, string, prop, own, or_value, value_text, content_text, is_string}
use secureshare.Fetch.{Reply, failed, answered, is_ok, body_or_empty}
use secureshare.Button.{Button, set_button_loading}
use secureshare.Effect.{Effect, in_order, write, write_text}

pub record Page : Type 0 where
  pub locale : Text  -- the value of the select
  pub links : List Text  -- `href` of the links to the previews
  pub badge : Text
  pub error_text : Text
  pub status : Text
  pub submit : Button
  pub toasts : List Text
  pub sent : List Text
  pub pending : List Text

-- `select.value = t`: a value that is none of the options leaves none chosen.
abbrev pub chosen : Text → Text
chosen t = if text_eq t (lit "en") || text_eq t (lit "fa") then t else []

abbrev pub badge_text : Bool → Text
badge_text persian = if persian then 1601 ∷ 1575 ∷ 1585 ∷ 1587 ∷ 1740 ∷ [] else lit "English"

-- `set_parameter href locale` is the path and the query of `new URL(href, origin)` after
-- `searchParams.set("locale", locale)`.
module _ (set_parameter : Text → Text → Text) where
  unfoldable pub update_preview_links : Page → Page
  update_preview_links p = record p { links = map (λ l. set_parameter l p.locale) p.links }

  -- The submit listener up to `fetch`.
  unfoldable pub start_save : Page → Page
  start_save p = record p {
    error_text = [];
    status = lit "Saving public recipient language...";
    submit = set_button_loading true p.submit;
    sent = p.locale ∷ p.sent;
    pending = p.pending ++ p.locale ∷ [];
  }

  -- A refusal: the status line is emptied after the error line.
  unfoldable pub refuse_save : Json → Effect Page
  refuse_save body = in_order (
      write_text
        (Option.bind (prop (lit "message") (some body)) λ m.
          content_text
            (or_value m (some (string (lit "Public recipient language could not be saved.")))))
        (λ t p. record p { error_text = t })
      ∷ write (λ p. record p { status = [] })
      ∷ [])

  unfoldable pub accept_save : Json → Effect Page
  accept_save body p =
      in_order
        (write_text (Option.bind (prop (lit "public_locale") (some body)) value_text)
            (λ t q. record q { locale = chosen t })
          ∷ write (λ q.
            record (update_preview_links (record q {
              badge = badge_text (is_string (lit "fa") (own (lit "public_locale") body));
            })) {
              status = lit "Public recipient language saved.";
              toasts = lit "Public recipient language saved." ∷ q.toasts;
            })
          ∷ [])
        p

  -- The `try` block from the answer on.
  unfoldable pub read_save : Reply → Effect Page
  read_save failed p = (p, true)
  read_save (answered status body) p =
      if is_ok status
      then accept_save (body_or_empty body) p
      else refuse_save (body_or_empty body) p

  -- With its `catch` and `finally`.
  unfoldable pub finish_save : Option Text → Reply → Page → Page
  finish_save none reply p = p
  finish_save (some locale) reply p =
      let (q, threw) = read_save reply p in
      let r =
        if threw
        then record q {
          error_text =
              lit
                "Public recipient language could not be saved. Check your connection and try again.";
          status = [];
        }
        else q in
      record r { submit = set_button_loading false r.submit }

  pub data Event : Type 0 where
    choose_locale : Text → Event
    submit : Event
    -- The answer to the pending request at this position.
    answer : ℕ → Reply → Event

  -- A browser submits the form by its button, when that is enabled.
  unfoldable pub step : Page → Event → Page
  step p (choose_locale t) = update_preview_links (record p { locale = chosen t })
  step p submit = if p.submit.disabled then p else start_save p
  step p (answer k reply) =
      finish_save (get_elem? p.pending k) reply (record p { pending = remove_at k p.pending })

  unfoldable pub run : Page → List Event → Page
  run p [] = p
  run p (e ∷ es) = run (step p e) es
