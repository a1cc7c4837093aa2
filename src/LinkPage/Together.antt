-- ===== src/LinkPage/Together.antt =====
-- The two scripts of the page of a link do not disturb each other: web/static/admin.js.
use secureshare.Prelude.{
  ◌≡◌, refl, sym, ◌∙◌, ap, Bool, false, ◌||◌, ◌&&◌, List, [], ◌∷◌, arith, Bool-cases, inl, inr,
}
use mathlib.Core.Bool.{and_comm, or_comm}
use secureshare.Dialog
use secureshare.Dialog.{Dialog, Closing, cancel, confirm, escape, is_confirmed}
use secureshare.Links
use secureshare.Links.Laws.{requests}
use secureshare.Protection
use secureshare.Protection.Laws.{Matches, step-Matches}
use secureshare.LinkPage.Opens.{
  is_waiting, Opens, LinksOpen, ProtectionOpens, click-Opens, answer-Opens, click_remove-Opens,
  submit-Opens, type_password-Opens, answer_protection-Opens,
}
use secureshare.LinkPage.Closed.{
  closed_links, closed_protection, close-is_open, idle_links, idle_protection,
}
use secureshare.LinkPage.{
  Page, Event, click_revoke, click_remove, submit, type_password, close_dialog, answer_revoke,
  answer_protection, revoking, protecting, step, run,
}

-- The two views of the dialog agree; it is open exactly while one script waits for it, and not both
-- do; and what holds of each script alone holds here.
pub record Together (p : Page) : Type 0 where
  pub one_dialog : p.protection.dialog ≡ p.links.dialog
  pub open_waiting : p.links.dialog.is_open ≡ (is_waiting p.links.asking || p.protection.asking)
  pub one_waits : (is_waiting p.links.asking && p.protection.asking) ≡ false
  pub links_kept : Links.Laws.Inv p.links
  pub protection_kept : Matches p.protection

-- One script acts, and the other one, which waits if `v`, does not.
Opens-waiting :
    (d d' : Dialog) (w w' v : Bool)
    → Opens d w d' w'
    → d.is_open ≡ (w || v)
    → (w && v) ≡ false
    → (d'.is_open ≡ (w' || v)) × ((w' && v) ≡ false)
Opens-waiting d d' w w' v (inl (same_dialog, same)) at_open one =
    let same_open : d'.is_open ≡ d.is_open = ap (λ (e : Dialog). e.is_open) same_dialog in
    ground arith
Opens-waiting d d' w w' v (inr (closed, opened, waits)) at_open one = ground arith

-- A view of the dialog is not what the scripts' own invariants speak of.
with_dialog-Inv :
    (d : Dialog) (p : Links.Page) → Links.Laws.Inv p → Links.Laws.Inv (record p { dialog = d })
with_dialog-Inv d p v = record { once = v.once; asks = v.asks }

with_dialog-Matches :
    (d : Dialog) (p : Protection.Page) → Matches p → Matches (record p { dialog = d })
with_dialog-Matches d p m = record {
  status_shown = m.status_shown;
  badge_shown = m.badge_shown;
  guidance_shown = m.guidance_shown;
  remove_shown = m.remove_shown;
  saves_waiting = m.saves_waiting;
  removals_waiting = m.removals_waiting;
  asked_free = m.asked_free;
}

revoking-Together :
    (e : Links.Event) (p : Page)
    → LinksOpen p.links (Links.step p.links e)
    → Together p
    → Together (revoking e p)
unfolding revoking
revoking-Together e p opens t =
    let (at_open, one) =
      Opens-waiting p.links.dialog (Links.step p.links e).dialog (is_waiting p.links.asking)
        (is_waiting (Links.step p.links e).asking) p.protection.asking opens t.open_waiting
        t.one_waits in
    record {
      one_dialog = refl;
      open_waiting = at_open;
      one_waits = one;
      links_kept = Links.Laws.step-Inv p.links e t.links_kept;
      protection_kept =
          with_dialog-Matches (Links.step p.links e).dialog p.protection t.protection_kept;
    }

protecting-Together :
    (e : Protection.Event) (p : Page)
    → ProtectionOpens p.protection (Protection.step p.protection e)
    → Together p
    → Together (protecting e p)
unfolding protecting
protecting-Together e p opens t =
    let q = Protection.step p.protection e in
    let seen : p.protection.dialog.is_open ≡ p.links.dialog.is_open =
      ap (λ (d : Dialog). d.is_open) t.one_dialog in
    let open_here : p.protection.dialog.is_open
        ≡ (p.protection.asking || is_waiting p.links.asking) =
      seen ∙ t.open_waiting ∙ or_comm (is_waiting p.links.asking) p.protection.asking in
    let one_here : (p.protection.asking && is_waiting p.links.asking) ≡ false =
      and_comm p.protection.asking (is_waiting p.links.asking) ∙ t.one_waits in
    let (at_open, one) =
      Opens-waiting p.protection.dialog q.dialog p.protection.asking q.asking
        (is_waiting p.links.asking) opens open_here one_here in
    record {
      one_dialog = refl;
      open_waiting = at_open ∙ or_comm q.asking (is_waiting p.links.asking);
      one_waits = and_comm (is_waiting p.links.asking) q.asking ∙ one;
      links_kept = with_dialog-Inv q.dialog p.links t.links_kept;
      protection_kept = step-Matches p.protection e t.protection_kept;
    }

close_dialog-Together :
    (how : Closing) (p : Page) → Together p → Together (step p (close_dialog how))
unfolding step
close_dialog-Together how p t =
    let same_open : p.protection.dialog.is_open ≡ p.links.dialog.is_open =
      ap (λ (d : Dialog). d.is_open) t.one_dialog in
    elim (Bool-cases p.links.dialog.is_open) [
      | inl h ↦
          let (links, unasked) = closed_links how p.links h in
          let (protection, quiet) = closed_protection how p.protection (same_open ∙ h) in
          record {
            one_dialog = protection ∙ ap (Dialog.close how) t.one_dialog ∙ sym links;
            open_waiting = rw (links, unasked, quiet) (close-is_open how p.links.dialog);
            one_waits = rw unasked refl;
            links_kept = Links.Laws.step-Inv p.links (Links.close_dialog how) t.links_kept;
            protection_kept =
                step-Matches p.protection (Protection.close_dialog how) t.protection_kept;
          }
      | inr h ↦
          let links = idle_links how p.links h in
          let protection = idle_protection how p.protection (same_open ∙ h) in
          rw (links, protection) t
    ]

step-Together : (e : Event) (p : Page) → Together p → Together (step p e)
unfolding step
step-Together (click_revoke i) p t = revoking-Together (Links.click i) p (click-Opens i p.links) t
step-Together click_remove p t =
    protecting-Together Protection.click_remove p (click_remove-Opens p.protection) t
step-Together submit p t = protecting-Together Protection.submit p (submit-Opens p.protection) t
step-Together (type_password w) p t =
    protecting-Together (Protection.type_password w) p (type_password-Opens w p.protection) t
step-Together (close_dialog how) p t = close_dialog-Together how p t
step-Together (answer_revoke k reply) p t =
    revoking-Together (Links.answer k reply) p (answer-Opens k reply p.links) t
step-Together (answer_protection k reply) p t =
    protecting-Together (Protection.answer k reply) p (answer_protection-Opens k reply p.protection)
      t

-- From a page of which it holds, after any events of the two scripts, however they are interleaved:
-- the scripts find the same dialog, which is open exactly while one of them waits for it, and they
-- never both wait; no link is sent to be revoked twice; and the page shows whether the link is
-- protected, with each of the password's buttons disabled exactly while its one request waits.
pub run-Together : (es : List Event) (p : Page) → Together p → Together (run p es)
unfolding run
run-Together [] p t = t
run-Together (e ∷ es) p t = run-Together es (step p e) (step-Together e p t)
