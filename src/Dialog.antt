-- ===== src/Dialog.antt =====
-- `confirmAction` of web/static/admin.js: the dialog of a page that asks before something is done.
use secureshare.Prelude.{Bool, true, false, Option, none, some, text_eq}
use secureshare.Text.{Text, lit}

-- `dialog.returnValue` is the browser's: it holds what the dialog was last closed with.
pub record Dialog : Type 0 where
  pub is_open : Bool
  pub return_value : Text
  pub title : Text
  pub message : Text

-- How the user closes it: by a button of its form, which has `method="dialog"`, or by Escape.
pub data Closing : Type 0 where
  cancel confirm escape : Closing

abbrev pub ask : Text → Text → Dialog → Dialog
ask title message d = record d { title = title; message = message; is_open = true }

-- What the user is asked by: the dialog of the page, or the browser's own, with a message.
pub data Question : Type 0 where
  by_dialog : Dialog → Question
  by_browser : Text → Question

-- `none` is a page without the dialog, or with one that has no `showModal`. The pages of Links,
-- Protection, ApiClients and the create form have it, and take `ask`; those of Users have none, and
-- what `window.confirm` gives is an argument there.
unfoldable confirm_action : Option Dialog → Text → Text → Question
confirm_action none title message = by_browser message
confirm_action (some d) title message = by_dialog (ask title message d)

-- A button sets the return value to its own; Escape leaves it as it is.
unfoldable pub close : Closing → Dialog → Dialog
close cancel d = record d { is_open = false; return_value = lit "cancel" }
close confirm d = record d { is_open = false; return_value = lit "confirm" }
close escape d = record d { is_open = false }

-- What the promise gives when the dialog has closed.
abbrev pub is_confirmed : Dialog → Bool
is_confirmed d = text_eq d.return_value (lit "confirm")
