-- ===== src/LinkPage/Dismissed.antt =====
-- A question that the user dismisses on the page of a link: `confirmAction` of web/static/admin.js.
use secureshare.Prelude.{ℕ, ◌≡◌, refl, false, [], ◌∷◌, none, some, get_elem?, text_eq}
use secureshare.Dialog
use secureshare.Dialog.{Dialog, confirm, escape}
use secureshare.Links
use secureshare.Links.{RevokeButton}
use secureshare.Protection
use secureshare.LinkPage.{
  Page, click_revoke, click_remove, close_dialog, revoking, protecting, step, run,
}

-- If no dialog is open, the link has a password, and its revoke button and the remove button are
-- free, and the user confirms that the password is removed, clicks the revoke button and dismisses
-- the question by Escape, the request to revoke the link is sent all the same.
pub dismissed_revokes :
    (p : Page) (i : ℕ) (b : RevokeButton)
    → p.protection.dialog.is_open ≡ false
    → p.protection.remove.disabled ≡ false
    → p.protection.remove_hidden ≡ false
    → p.links.asking ≡ none
    → get_elem? p.links.buttons i ≡ some b
    → b.disabled ≡ false
    → (run p (
        click_remove ∷ close_dialog confirm ∷ click_revoke i ∷ close_dialog escape ∷ [])).links.sent
      ≡ (i, b.id) ∷ p.links.sent
unfolding run step revoking protecting Links.step Links.start_ask Links.resume Links.start_revoke
    Protection.step Protection.ask_remove Protection.resume Protection.start_remove Dialog.close
    text_eq
dismissed_revokes p i b closed free shown quiet at_i free_b =
    simp (closed, free, shown, quiet, at_i, free_b) refl
