-- ===== src/Composer/Page/Events/Keeps.antt =====
-- Every event keeps the invariant of the create page of web/static/admin.js.
use secureshare.Prelude.{
  ◌≡◌, refl, Bool, true, false, not, ◌&&◌, inl, inr, List, [], ◌∷◌, Bool-cases, Option-cases,
  if◌then◌else◌,
}
use secureshare.Text.{is_empty}
use secureshare.Json.{value_text, truthy}
use secureshare.Time.{Calendar}
use secureshare.Dialog
use secureshare.Dialog.{is_confirmed}
use secureshare.Composer.{Host}
use secureshare.Composer.Rows
use secureshare.Composer.Page.{Page, revoke, preview, send_email}
use secureshare.Composer.Page.Handlers.{
  is_structured, start_submit, start_revoke, create_another, start_preview, start_email,
  token_of_url,
}
use secureshare.Composer.Page.Events.{
  Action, pick_mode, pick_delivery, on_rows, type_inputs, click_submit, click_copy, click_revoke,
  click_another, click_preview, click_email, type_retry, Event, act, close_dialog, answer, on_input,
  change_rows, take_action, resume, step, run, is_by_email,
}
use secureshare.Composer.Page.Events.Laws.{Inv, aside-Inv}
use secureshare.Composer.Page.Events.Requests.{send-Inv, start_submit-Inv, finish-Inv}

module _ (host : Host) where
  cases-Inv :
      (b : Bool) (q p : Page)
      → (b ≡ true → Inv host q)
      → (b ≡ false → Inv host p)
      → Inv host (if b then q else p)
  cases-Inv true q p w v = w refl
  cases-Inv false q p w v = v refl

  change_rows-Inv : (e : Rows.Event) (p : Page) → Inv host p → Inv host (change_rows host e p)
  unfolding on_input
  change_rows-Inv Rows.create_another p v = v
  change_rows-Inv (Rows.edit i r) p v = aside-Inv host p refl v
  change_rows-Inv (Rows.pick key) p v = aside-Inv host p refl v
  change_rows-Inv e p v = aside-Inv host p refl v

  start_revoke-Inv : (p : Page) → Inv host p → Inv host (start_revoke p)
  unfolding start_revoke
  start_revoke-Inv p v = elim (Option-cases (value_text p.created_id)) [
    | inl e ↦ rw (e, start_revoke) v
    | inr (id, e) ↦ rw (e, start_revoke) (send-Inv host (revoke id) p refl tt v)
  ]

  start_email-Inv : (p : Page) → Inv host p → Inv host (start_email p)
  unfolding start_email
  start_email-Inv p v = elim (Bool-cases (is_empty (token_of_url p.created.url))) [
    | inl e ↦ rw e (aside-Inv host p refl v)
    | inr e ↦
        rw e (send-Inv host (send_email (token_of_url p.created.url) p.created.retry) p refl tt v)
  ]

  create_another-Inv : (p : Page) → Inv host p → Inv host (create_another host p)
  unfolding create_another
  create_another-Inv p v = record {
    one_create = v.one_create;
    waits_hidden = inr refl;
    shows_id = inl refl;
    checked = v.checked;
  }

  module _ (cal : Calendar) where
    take_action-Inv : (a : Action) (p : Page) → Inv host p → Inv host (take_action cal host a p)
    unfolding take_action on_input start_preview
    take_action-Inv (pick_mode m) p v = aside-Inv host p refl v
    take_action-Inv (pick_delivery m) p v = aside-Inv host p refl v
    take_action-Inv (type_inputs i) p v = aside-Inv host p refl v
    take_action-Inv (on_rows e) p v = elim (Bool-cases (is_structured p.mode)) [
      | inl h ↦ rw h (change_rows-Inv e p v)
      | inr h ↦ rw h (v)
    ]
    take_action-Inv click_submit p v =
        cases-Inv p.submit.disabled p (start_submit host p) (λ h. v)
          (λ h. start_submit-Inv host p h v)
    take_action-Inv click_copy p v =
        cases-Inv p.result_hidden p _ (λ h. v) (λ h. aside-Inv host p refl v)
    take_action-Inv click_revoke p v =
        elim (Bool-cases (not p.result_hidden && not p.revoke_disabled && truthy p.created_id)) [
          | inl h ↦ rw h (aside-Inv host p refl v)
          | inr h ↦ rw h (v)
        ]
    take_action-Inv click_another p v =
        cases-Inv p.result_hidden p (create_another host p) (λ h. v) (λ h. create_another-Inv p v)
    take_action-Inv click_preview p v = elim (Bool-cases (is_by_email p.delivery_mode)) [
      | inl h ↦
          rw h (
            send-Inv host (preview p.inputs.delivery_subject p.inputs.delivery_message) p refl tt v)
      | inr h ↦ rw h (v)
    ]
    take_action-Inv click_email p v =
        elim (Bool-cases (not p.result_hidden && not p.created.retry_hidden)) [
          | inl h ↦ rw h (start_email-Inv p v)
          | inr h ↦ rw h (v)
        ]
    take_action-Inv (type_retry r) p v =
        elim (Bool-cases (not p.result_hidden && not p.created.retry_hidden)) [
          | inl h ↦ rw h (aside-Inv host p refl v)
          | inr h ↦ rw h (v)
        ]

    pub step-Inv : (e : Event) (p : Page) → Inv host p → Inv host (step cal host p e)
    unfolding step resume
    step-Inv (act a) p v =
        cases-Inv p.dialog.is_open p (take_action cal host a p) (λ h. v)
          (λ h. take_action-Inv a p v)
    step-Inv (close_dialog how) p v =
        let q = record p { dialog = Dialog.close how p.dialog } in
        let w : Inv host q = aside-Inv host p refl v in
        cases-Inv p.dialog.is_open (resume q) p
          (λ h.
            cases-Inv (is_confirmed q.dialog) (start_revoke q) q (λ k. start_revoke-Inv q w)
              (λ k. w))
          (λ h. v)
    step-Inv (answer i reply) p v = finish-Inv host cal p i reply _ v refl

    -- From a page of which it holds, after any events: the submit button is disabled exactly while
    -- its one request waits, and then no result is on display; a result on display shows the id that
    -- the script keeps; and every request for a link that was sent carries at most 32768 bytes, of
    -- the well-named fields of some rows, of a text that parses as JSON, or of a text not blank.
    pub run-Inv : (es : List Event) (p : Page) → Inv host p → Inv host (run cal host p es)
    unfolding run
    run-Inv [] p v = v
    run-Inv (e ∷ es) p v = run-Inv es (step cal host p e) (step-Inv e p v)
