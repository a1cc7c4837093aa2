-- ===== src/LinkPage.antt =====
-- The page of one link, web/templates/secret_detail.html: `setupPasswordProtection` and
-- `setupRevokeButtons` of web/static/admin.js under the one dialog of the page.
pub mod Opens
pub mod Closed
pub mod Together
pub mod Dismissed
use secureshare.Prelude.{ℕ, List, [], ◌∷◌}
use secureshare.Text.{Text}
use secureshare.Fetch.{Reply}
use secureshare.Dialog.{Closing}
use secureshare.Links
use secureshare.Protection

-- Each script has its view of the dialog; they are views of the same element.
pub record Page : Type 0 where
  pub links : Links.Page
  pub protection : Protection.Page

pub data Event : Type 0 where
  click_revoke : ℕ → Event
  click_remove submit : Event
  type_password : Text → Event
  close_dialog : Closing → Event
  answer_revoke : ℕ → Reply → Event
  answer_protection : ℕ → Reply → Event

-- What one script does to the dialog, the other one finds.
unfoldable pub revoking : Links.Event → Page → Page
revoking e p =
    let links = Links.step p.links e in
    record { links = links; protection = record p.protection { dialog = links.dialog } }

unfoldable pub protecting : Protection.Event → Page → Page
protecting e p =
    let protection = Protection.step p.protection e in
    record { links = record p.links { dialog = protection.dialog }; protection = protection }

-- The dialog tells its `close` event to every listener.
unfoldable pub step : Page → Event → Page
step p (click_revoke i) = revoking (Links.click i) p
step p click_remove = protecting Protection.click_remove p
step p submit = protecting Protection.submit p
step p (type_password w) = protecting (Protection.type_password w) p
step p (close_dialog how) = record {
  links = Links.step p.links (Links.close_dialog how);
  protection = Protection.step p.protection (Protection.close_dialog how);
}
step p (answer_revoke k reply) = revoking (Links.answer k reply) p
step p (answer_protection k reply) = protecting (Protection.answer k reply) p

unfoldable pub run : Page → List Event → Page
run p [] = p
run p (e ∷ es) = run (step p e) es
