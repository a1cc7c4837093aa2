-- ===== src/Composer/Page/Round.antt =====
-- From the submit button of the create page of web/static/admin.js to the panel of the result.
use mathlib.Core.Option
use secureshare.Prelude.{
  ℕ, ◌≡◌, refl, ◌∙◌, ap, sym, subst, true, false, [], ◌∷◌, ◌++◌, Option, none, some, get_elem?,
  remove_at, if◌then◌else◌,
}
use secureshare.Text.{Text, lit, or_text, or_default}
use secureshare.Json.{string, object, Fields, own, opt_prop}
use secureshare.Time.{Calendar}
use secureshare.Fetch.{Reply, answered, is_ok}
use secureshare.Composer.{Host, Outcome, thrown, returned}
use secureshare.Composer.Payload.{PayloadModel, payload_model}
use secureshare.Composer.Page.{
  Page, Submission, create, send, submission, selected_lifetime_label, non_empty_text,
}
use secureshare.Composer.Page.Result.{email_answer, email_status, time_value, single_line, yes_no}
use secureshare.Composer.Page.Handlers.{
  is_structured, start_submit, finish_submit, finish, loading, set_status,
}
use secureshare.Composer.Page.Events.{act, click_submit, answer, take_action, step, run}
use secureshare.Composer.Page.Outcomes.{finish_submit-shown}

-- What is sent, and told, of the password that is typed.
abbrev pub PasswordTold : Text → Option Text → Text → Type 0
PasswordTold [] sent told = (sent ≡ none) × (told ≡ lit "No")
PasswordTold (c ∷ s) sent told = (sent ≡ some (c ∷ s)) × (told ≡ lit "Yes")

-- What is told of the recipient that is typed.
abbrev pub RecipientTold : Text → Text → Type 0
RecipientTold [] told = told ≡ lit "Not provided"
RecipientTold (c ∷ s) told = told ≡ c ∷ s

-- The latest request of `q` is one for the form of `p` with this payload and this lifetime in
-- seconds, and the panel of `q` tells of it.
abbrev pub Told : PayloadModel → Text → Page → Page → Type 0
Told payload seconds p q =
    (s : Submission) × (q.sent ≡ create s ∷ p.sent)
    × (s.payload ≡ payload)
    × (s.expires_in_seconds ≡ seconds)
    × PasswordTold p.inputs.password s.password q.created.password
    × RecipientTold p.inputs.recipient_reference q.created.recipient

PasswordTold-sent : (t : Text) → PasswordTold t (non_empty_text t) (yes_no (non_empty_text t))
PasswordTold-sent [] = (refl, refl)
PasswordTold-sent (c ∷ s) = (refl, refl)

RecipientTold-shown : (t : Text) → RecipientTold t (or_text t (lit "Not provided"))
RecipientTold-shown [] = refl
RecipientTold-shown (c ∷ s) = refl

-- The page while the request waits.
abbrev waiting : Submission → Page → Page
waiting s p = send (create s) (
    set_status (lit "Creating encrypted one-time link...")
      (loading true (record p { status = []; result_hidden = true })))

module _ (host : Host) (cal : Calendar) (p : Page) (payload : PayloadModel) where
  submits :
      p.dialog.is_open ≡ false
      → p.submit.disabled ≡ false
      → payload_model host (is_structured p.mode) p.form.rows p.inputs.secret_plain p.inputs.is_json
        ≡ returned payload
      → step cal host p (act click_submit) ≡ waiting (submission p payload) p
  unfolding step take_action start_submit
  submits closed enabled accepted =
      ap (λ b. if b then p else take_action cal host click_submit p) closed
      ∙ ap (λ b. if b then p else start_submit host p) enabled
      ∙ ap
          (λ (o : Outcome PayloadModel). elim o [
            | thrown message ↦ set_status message (record p { status = []; result_hidden = true })
            | returned m ↦ waiting (submission p m) p
          ])
          accepted

  answers :
      (s : Submission) (reply : Reply)
      → p.pending ≡ []
      → step cal host (waiting s p) (answer 0 reply)
        ≡ finish_submit cal s reply (record (waiting s p) { pending = [] })
  unfolding step finish
  answers s reply none_waits =
      ap
        (λ l.
          finish cal (get_elem? (l ++ create s ∷ []) 0) reply
            (record (waiting s p) { pending = remove_at 0 (l ++ create s ∷ []) }))
        none_waits

  module _ (closed : p.dialog.is_open ≡ false) (enabled : p.submit.disabled ≡ false)
      (none_waits : p.pending ≡ [])
      (accepted : payload_model host
          (is_structured p.mode)
          p.form.rows
          p.inputs.secret_plain
          p.inputs.is_json
        ≡ returned payload)
      (seconds label : Text) (s0 l0 : ℕ)
      (chosen : p.inputs.lifetime ≡ some (s0 ∷ seconds, l0 ∷ label)) (fields : Fields)
      (id at url mail : Text) (sent : Option Text)
      (i : own (lit "id") (object fields) ≡ some (string id))
      (e : own (lit "expires_at") (object fields) ≡ some (string at))
      (u : own (lit "url") (object fields) ≡ some (string url))
      (m : email_status (email_answer (object fields)) ≡ some mail)
      (t : time_value (opt_prop (lit "sent_at") (email_answer (object fields))) ≡ some sent) where
    -- If no dialog is open, no request waits, the submit button is enabled, the payload of the form
    -- is good and a lifetime is chosen, then a submit that is answered well, with an id, an
    -- expiration, an address and what has become of the email, has sent one request, with the payload
    -- and the lifetime and the password of the form, and opens a panel that tells of it: the text
    -- beside the chosen lifetime, whether a password is typed, the recipient that is typed, the
    -- answer's id and address, and the link to the page of the link. The button is free again.
    pub run-Told :
        (status : ℕ)
        → is_ok status ≡ true
        → let q =
            run cal host p
              (act click_submit ∷ answer 0 (answered status (some (object fields))) ∷ []) in
          Told payload (s0 ∷ seconds) p q
          × (q.created.lifetime ≡ l0 ∷ label)
          × (q.created.id ≡ id)
          × (q.created.url ≡ single_line url)
          × (q.created.meta_href ≡ lit "/admin/secrets/" ++ id)
          × (q.result_hidden ≡ false)
          × (q.submit.disabled ≡ false)
          × (q.status ≡ lit "Secure link created.")
    unfolding run submission selected_lifetime_label
    run-Told status good =
        let s = submission p payload in
        let reply = answered status (some (object fields)) in
        let w = record (waiting s p) { pending = [] } in
        let (created, _, shown, _, free, told, _, only) =
          finish_submit-shown cal s fields w id at url mail sent i e u m t status good in
        let whole =
          ap (λ q. step cal host q (answer 0 reply)) (submits closed enabled accepted)
          ∙ answers s reply none_waits in
        subst
          (λ q.
            Told payload (s0 ∷ seconds) p q
            × (q.created.lifetime ≡ l0 ∷ label)
            × (q.created.id ≡ id)
            × (q.created.url ≡ single_line url)
            × (q.created.meta_href ≡ lit "/admin/secrets/" ++ id)
            × (q.result_hidden ≡ false)
            × (q.submit.disabled ≡ false)
            × (q.status ≡ lit "Secure link created."))
          (sym whole)
          (
            (
              s,
              only,
              refl,
              ap (λ l. or_default (Option.map (λ x. x.0) l) (lit "86400")) chosen,
              subst (PasswordTold p.inputs.password s.password) (sym (ap (λ c. c.password) created))
                  (PasswordTold-sent p.inputs.password),
              subst (RecipientTold p.inputs.recipient_reference)
                  (sym (ap (λ c. c.recipient) created))
                  (RecipientTold-shown p.inputs.recipient_reference),
            ),
            ap (λ c. c.lifetime) created
                ∙ ap (λ l. or_default (Option.map (λ x. x.1) l) (lit "Custom")) chosen,
            ap (λ c. c.id) created,
            ap (λ c. c.url) created,
            ap (λ c. c.meta_href) created,
            shown,
            free,
            told,
          )
