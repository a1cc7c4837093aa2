-- ===== src/LinkPage/Closed.antt =====
-- What the end of the dialog of the page of a link does to its two scripts: web/static/admin.js.
use secureshare.Prelude.{
  ℕ, ◌≡◌, refl, ap, Bool, true, false, ◌&&◌, Option, none, some, get_elem?, either_branch,
  if◌then◌else◌,
}
use secureshare.Dialog
use secureshare.Dialog.{Dialog, Closing, cancel, confirm, escape, is_confirmed}
use secureshare.Links
use secureshare.Protection

-- A listener that goes on sets neither its view of the dialog nor what it waits for.
abbrev SameView : Links.Page → Links.Page → Type 0
SameView p q = (q.dialog ≡ p.dialog) × (q.asking ≡ p.asking)

start_revoke-SameView :
    (i : ℕ) (b : Option Links.RevokeButton) (p : Links.Page) → SameView p (Links.start_revoke i b p)
unfolding Links.start_revoke
start_revoke-SameView i none p = (refl, refl)
start_revoke-SameView i (some b) p = (refl, refl)

resume-SameView : (o : Option ℕ) (p : Links.Page) → SameView p (Links.resume o p)
unfolding Links.resume
resume-SameView none p = (refl, refl)
resume-SameView (some i) p =
    either_branch (SameView p) (is_confirmed p.dialog)
      (Links.start_revoke i (get_elem? p.buttons i) p) p
      (λ e. start_revoke-SameView i (get_elem? p.buttons i) p) (λ e. (refl, refl))

-- What the closing does to each script's view of an open dialog.
pub closed_links :
    (how : Closing) (p : Links.Page)
    → p.dialog.is_open ≡ true
    → let q = Links.step p (Links.close_dialog how) in
      (q.dialog ≡ Dialog.close how p.dialog) × (q.asking ≡ none)
unfolding Links.step
closed_links how p h =
    let q = record p { asking = none; dialog = Dialog.close how p.dialog } in
    either_branch (SameView q) p.dialog.is_open (Links.resume p.asking q) p
      (λ e. resume-SameView p.asking q) (λ e. cc)

resume_protection :
    (asked : Bool) (p : Protection.Page)
    → let q = Protection.resume asked p in (q.dialog ≡ p.dialog) × (q.asking ≡ p.asking)
unfolding Protection.resume Protection.start_remove
resume_protection asked p =
    either_branch (λ (r : Protection.Page). (r.dialog ≡ p.dialog) × (r.asking ≡ p.asking))
      (asked && is_confirmed p.dialog) (Protection.start_remove p) p (λ e. (refl, refl))
      (λ e. (refl, refl))

pub closed_protection :
    (how : Closing) (p : Protection.Page)
    → p.dialog.is_open ≡ true
    → let q = Protection.step p (Protection.close_dialog how) in
      (q.dialog ≡ Dialog.close how p.dialog) × (q.asking ≡ false)
unfolding Protection.step
closed_protection how p h =
    let q = record p { asking = false; dialog = Dialog.close how p.dialog } in
    either_branch (λ (r : Protection.Page). (r.dialog ≡ q.dialog) × (r.asking ≡ false))
      p.dialog.is_open (Protection.resume p.asking q) p (λ e. resume_protection p.asking q)
      (λ e. cc)

pub close-is_open : (how : Closing) (d : Dialog) → (Dialog.close how d).is_open ≡ false
unfolding Dialog.close
close-is_open cancel d = refl
close-is_open confirm d = refl
close-is_open escape d = refl

pub idle_links :
    (how : Closing) (p : Links.Page)
    → p.dialog.is_open ≡ false
    → Links.step p (Links.close_dialog how) ≡ p
unfolding Links.step
idle_links how p h =
    ap
      (λ b.
        if b
        then Links.resume p.asking (record p { asking = none; dialog = Dialog.close how p.dialog })
        else p)
      h

pub idle_protection :
    (how : Closing) (p : Protection.Page)
    → p.dialog.is_open ≡ false
    → Protection.step p (Protection.close_dialog how) ≡ p
unfolding Protection.step
idle_protection how p h =
    ap
      (λ b.
        if b
        then Protection.resume p.asking
            (record p { asking = false; dialog = Dialog.close how p.dialog })
        else p)
      h
