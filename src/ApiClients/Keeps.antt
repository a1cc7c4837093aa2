-- ===== src/ApiClients/Keeps.antt =====
-- Every event of the pages of the API clients keeps the account of what waits: `setupAPIClients` of
-- web/static/admin.js.
use secureshare.Prelude.{
  ℕ, ◌≡◌, refl, sym, ◌∙◌, ap, false, List, [], ◌∷◌, Option, none, some, arith, count_if, get_elem?,
  remove_at, either_branch, count_if-append, count_if-remove_at, remove_at-eq_none,
}
use secureshare.Text.{Text}
use secureshare.Time.{Calendar}
use secureshare.Fetch.{Reply}
use secureshare.Button.{set_button_loading}
use secureshare.Composer.{Outcome, thrown, returned}
use secureshare.Dialog
use secureshare.Dialog.{Dialog, Closing, is_confirmed}
use secureshare.ApiClients.{
  ClientFields, Call, create_client, client_action, Page, read_create, finish_create,
}
use secureshare.ApiClients.Events.{
  expiration_value, request_client, start_create, Event, type_fields, submit, click_copy,
  click_action, close_dialog, answer, step, run, resume, finish,
}
use secureshare.ApiClients.Laws.{
  is_action_of, is_creation, WaitsOnce, Same, Same-WaitsOnce, read_create-Same,
}
use secureshare.ApiClients.Buttons.{
  start_ask-WaitsOnce, resume-WaitsOnce, taken-idle, taken-WaitsOnce, finish_action-WaitsOnce,
}

finish_create-WaitsOnce :
    (p : Page) (k : ℕ) (fields : ClientFields) (reply : Reply)
    → get_elem? p.pending k ≡ some (create_client fields)
    → WaitsOnce p
    → WaitsOnce (finish_create reply (record p { pending = remove_at k p.pending }))
unfolding finish_create set_button_loading
finish_create-WaitsOnce p k fields reply h v =
    let rest = record p { pending = remove_at k p.pending } in
    let q = (read_create reply rest).0 in
    let (waits, buttons, asking, create) : Same rest q =
      read_create-Same rest reply rest (refl, refl, refl, refl) in
    let less = count_if-remove_at is_creation p.pending k (create_client fields) h in
    let before = v.one_creation in
    let idle : count_if is_creation (remove_at k p.pending) ≡ 0 = ground arith in
    record {
      one_action = λ j.
          let bound = v.one_action j in
          let fewer = count_if-remove_at (is_action_of j) p.pending k (create_client fields) h in
          rw (waits, buttons) (omega (arith, fewer, bound));
      asks = λ j same. rw buttons (v.asks j (sym asking ∙ same));
      one_creation = ap (count_if is_creation) waits ∙ idle;
    }

finish-WaitsOnce :
    (p : Page) (k : ℕ) (call : Option Call) (reply : Reply)
    → get_elem? p.pending k ≡ call
    → WaitsOnce p
    → WaitsOnce (finish call reply (record p { pending = remove_at k p.pending }))
unfolding finish
finish-WaitsOnce p k none reply h v =
    Same-WaitsOnce p _ (remove_at-eq_none p.pending k h, refl, refl, refl) v
finish-WaitsOnce p k (some (create_client fields)) reply h v =
    finish_create-WaitsOnce p k fields reply h v
finish-WaitsOnce p k (some (client_action i id action)) reply h v =
    finish_action-WaitsOnce (record p { pending = remove_at k p.pending }) i action reply
      (taken-idle p k i id action h v) (taken-WaitsOnce p k (client_action i id action) refl h v)

request_client-WaitsOnce :
    (read : Outcome Text) (p : Page)
    → WaitsOnce p
    → p.create.disabled ≡ false
    → WaitsOnce (request_client read p)
unfolding request_client set_button_loading
request_client-WaitsOnce (thrown message) p v free = Same-WaitsOnce p _ (refl, refl, refl, refl) v
request_client-WaitsOnce (returned at) p v free =
    let call = create_client (record p.fields { expires_at = at }) in
    record {
      one_action = λ j.
          let before = v.one_action j in
          let more = count_if-append (is_action_of j) p.pending (call ∷ []) in ground arith;
      asks = v.asks;
      one_creation =
          let before = v.one_creation in
          let more = count_if-append is_creation p.pending (call ∷ []) in ground arith;
    }

module _ (cal : Calendar) where
  start_create-WaitsOnce :
      (p : Page) → WaitsOnce p → p.create.disabled ≡ false → WaitsOnce (start_create cal p)
  unfolding start_create
  start_create-WaitsOnce p v free =
      request_client-WaitsOnce (expiration_value cal p.fields.expires_at) _
        (Same-WaitsOnce p _ (refl, refl, refl, refl) v) free

  step-WaitsOnce : (p : Page) (e : Event) → WaitsOnce p → WaitsOnce (step cal p e)
  unfolding step
  step-WaitsOnce p (type_fields f) v =
      either_branch WaitsOnce p.dialog.is_open p _ (λ e. v)
        (λ e. Same-WaitsOnce p _ (refl, refl, refl, refl) v)
  step-WaitsOnce p submit v =
      either_branch WaitsOnce p.dialog.is_open p _ (λ e. v)
        (λ e. either_branch WaitsOnce p.create.disabled p _ (λ h. v) (start_create-WaitsOnce p v))
  step-WaitsOnce p (click_copy target) v =
      either_branch WaitsOnce p.dialog.is_open p _ (λ e. v)
        (λ e.
          either_branch WaitsOnce p.result.hidden p _ (λ h. v)
            (λ h. Same-WaitsOnce p _ (refl, refl, refl, refl) v))
  step-WaitsOnce p (click_action i) v =
      either_branch WaitsOnce p.dialog.is_open p _ (λ e. v)
        (λ e. start_ask-WaitsOnce p i (get_elem? p.buttons i) refl v)
  step-WaitsOnce p (close_dialog how) v =
      let q = record p { asking = none; dialog = Dialog.close how p.dialog } in
      let asked : WaitsOnce q = record {
        one_action = v.one_action;
        asks = λ i same. cc;
        one_creation = v.one_creation;
      } in
      either_branch WaitsOnce p.dialog.is_open (resume p.asking q) p
        (λ e. resume-WaitsOnce q p.asking refl v.asks asked) (λ e. v)
  step-WaitsOnce p (answer k reply) v = finish-WaitsOnce p k (get_elem? p.pending k) reply refl v

  -- On every run of the pages of the API clients, at most one request waits for each button of a
  -- client, and none while the button is enabled; the button that the dialog asks about is enabled;
  -- and the button that creates a client is disabled exactly while its one request waits, if all this
  -- holds when the run begins.
  pub run-WaitsOnce : (es : List Event) (p : Page) → WaitsOnce p → WaitsOnce (run cal p es)
  unfolding run
  run-WaitsOnce [] p v = v
  run-WaitsOnce (e ∷ es) p v = run-WaitsOnce es (step cal p e) (step-WaitsOnce p e v)
