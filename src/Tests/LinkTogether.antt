-- ===== src/Tests/LinkTogether.antt =====
-- A link's password is removed and the link revoked, under one dialog.
use secureshare.Prelude.{◌≡◌, refl, false, [], ◌∷◌, arith}
use secureshare.Text.{lit}
use secureshare.Fetch.{failed}
use secureshare.Dialog.{confirm, escape}
use secureshare.Links.{RevokeButton}
use secureshare.LinkPage.{
  Page, submit, click_revoke, click_remove, close_dialog, answer_protection, run,
}
use secureshare.LinkPage.Together.{Together, run-Together}
use secureshare.LinkPage.Dismissed.{dismissed_revokes}
use secureshare.Tests.Administration.{links}
use secureshare.Tests.LinkPage
use secureshare.Tests.LinkPage.{page-Matches}

abbrev detail : Page
detail = record { links = links; protection = LinkPage.page }

detail-Together : Together detail
detail-Together = record {
  one_dialog = refl;
  open_waiting = refl;
  one_waits = refl;
  links_kept = record { once = λ i. omega arith; asks = λ i e. cc };
  protection_kept = page-Matches;
}

run-Together_example : Together (
    run detail (
      submit
      ∷ click_remove
      ∷ click_revoke 0
      ∷ close_dialog confirm
      ∷ answer_protection 1 failed
      ∷ []))
run-Together_example =
    run-Together
      (submit
        ∷ click_remove
        ∷ click_revoke 0
        ∷ close_dialog confirm
        ∷ answer_protection 1 failed
        ∷ [])
      detail detail-Together

abbrev second : RevokeButton
second = record { id = lit "b"; text = lit "Revoke"; disabled = false }

dismissed_revokes_example :
    (run detail
      (click_remove ∷ close_dialog confirm ∷ click_revoke 1 ∷ close_dialog escape ∷ [])).links.sent
    ≡ (1, lit "b") ∷ []
dismissed_revokes_example = dismissed_revokes detail 1 second refl refl refl refl refl refl
