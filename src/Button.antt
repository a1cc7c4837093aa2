-- ===== src/Button.antt =====
-- `setButtonLoading` of web/static/admin.js.
pub mod Laws
use secureshare.Prelude.{Bool, true, false, Option, none, some}
use secureshare.Text.{Text, lit, or_default}

-- A button with its text, `dataset.originalText`, and `dataset.loadingText`.
pub record Button : Type 0 where
  pub text : Text
  pub original_text : Option Text
  pub loading_text : Option Text
  pub disabled : Bool

unfoldable pub set_button_loading : Bool → Button → Button
set_button_loading true b = record b {
  original_text = some b.text;
  text = or_default b.loading_text (lit "Working...");
  disabled = true;
}
set_button_loading false b = record b { text = or_default b.original_text b.text; disabled = false }
