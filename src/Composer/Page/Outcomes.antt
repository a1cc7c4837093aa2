-- ===== src/Composer/Page/Outcomes.antt =====
-- How the handlers of the create page of web/static/admin.js end.
use secureshare.Prelude.{
  ℕ, ◌≡◌, ◌≢◌, refl, ◌∙◌, ap, true, false, not, List, [], ◌∷◌, ◌++◌, Option, none, some, arith,
  ◌==◌, All,
}
use secureshare.Text.{Text, lit, or_text}
use secureshare.Json.{
  Json, string, object, Fields, own, truthy, opt_prop, content_text, value_text, to_text,
}
use secureshare.Time
use secureshare.Time.{Calendar}
use secureshare.Fetch.{answered, is_ok}
use secureshare.Button.{set_button_loading}
use secureshare.Effect.{Effect, in_order, in_order-cons}
use secureshare.Composer.{Host, Outcome, thrown, returned}
use secureshare.Composer.Payload.{PayloadModel, payload_model}
use secureshare.Composer.Page.{
  Page, Submission, create, send_email, submission, selected_lifetime_label,
}
use secureshare.Composer.Page.Result.{
  fill_result, put_id, put_expires, put_facts, put_url, put_email_status, put_sent_at, put_retry,
  yes_no, put_link_to, open_panel, field_text, single_line, empty_label, email_answer, email_status,
  time_value, write_time, retry_of,
}
use secureshare.Composer.Page.Handlers.{
  is_structured, start_submit, read_submit, finish_submit, after_hash, start_email,
}

-- What a click on the submit button leaves of the page `p`, by what becomes of its payload.
abbrev pub SubmitEnds : Outcome PayloadModel → Page → Page → Type 0
SubmitEnds (thrown message) p q =
    (q.status ≡ message) × (q.sent ≡ p.sent) × (q.pending ≡ p.pending) × (q.submit ≡ p.submit)
SubmitEnds (returned payload) p q =
    (q.sent ≡ create (submission p payload) ∷ p.sent)
    × (q.pending ≡ p.pending ++ create (submission p payload) ∷ [])
    × (q.submit.disabled ≡ true)

-- A submit hides the result. If the payload throws, its message is shown, nothing is sent, and the
-- button stays as it is; otherwise the request for the link is sent, and the button is disabled.
pub start_submit_lem :
    (host : Host) (p : Page)
    → let q = start_submit host p in
      (q.result_hidden ≡ true)
      × SubmitEnds
          (payload_model host
            (is_structured p.mode)
            p.form.rows
            p.inputs.secret_plain
            p.inputs.is_json)
          p
          q
unfolding start_submit set_button_loading
start_submit_lem host p = ground arith

after_hash-none : (token : Text) → All (λ c. (c == b'#') ≡ false) token → after_hash token ≡ none
unfolding after_hash
after_hash-none [] h = refl
after_hash-none (c ∷ s) (other, h) = rw (after_hash-none s h, other) refl

after_hash-append :
    (base token : Text)
    → All (λ c. (c == b'#') ≡ false) token
    → after_hash (base ++ b'#' ∷ token) ≡ some token
unfolding after_hash
after_hash-append [] token h = rw (after_hash-none token h) refl
after_hash-append (c ∷ base) token h = rw (after_hash-append base token h) refl

-- If the address on show ends in `#` and a token that is not empty and has no `#`, a click on the
-- retry of the email sends this token, with the fields of the panel.
pub start_email-token :
    (p : Page) (base token : Text)
    → p.created.url ≡ base ++ b'#' ∷ token
    → All (λ c. (c == b'#') ≡ false) token
    → token ≢ []
    → (start_email p).sent ≡ send_email token p.created.retry ∷ p.sent
unfolding start_email
start_email-token p base [] u h n = absurd (n refl)
start_email-token p base (c ∷ s) u h n =
    let e : after_hash p.created.url ≡ some (c ∷ s) =
      ap after_hash u ∙ after_hash-append base (c ∷ s) h in
    rw e refl

-- The page of a created link.
abbrev pub shown_page :
    Calendar → Submission → Json → Text → Text → Text → Text → Option Text → Page → Page
shown_page cal s body id at url mail sent p = record p {
  created_id = own (lit "id") body;
  created_payload = some s;
  created = record {
    id = id;
    expires = Time.render_on cal p.created.expires (some at) (empty_label (lit "Invalid date"));
    lifetime = selected_lifetime_label p.inputs;
    password = yes_no s.password;
    recipient = or_text s.recipient_reference (lit "Not provided");
    url = single_line url;
    email_status = mail;
    email_sent = Time.render_on cal p.created.email_sent sent (empty_label (lit "Not sent"));
    retry_hidden = not (truthy (opt_prop (lit "requested") (email_answer body)));
    retry = retry_of s.email;
    meta_href = lit "/admin/secrets/" ++ id;
  };
  revoke_disabled = false;
  result_hidden = false;
}

module _ (cal : Calendar) (s : Submission) (fields : Fields) (p : Page) (id at url mail : Text)
    (sent : Option Text) (i : own (lit "id") (object fields) ≡ some (string id))
    (e : own (lit "expires_at") (object fields) ≡ some (string at))
    (u : own (lit "url") (object fields) ≡ some (string url))
    (m : email_status (email_answer (object fields)) ≡ some mail)
    (t : time_value (opt_prop (lit "sent_at") (email_answer (object fields))) ≡ some sent) where
  fill_result-shown :
      fill_result cal (object fields) s p
      ≡ (shown_page cal s (object fields) id at url mail sent p, false)
  unfolding fill_result
  fill_result-shown =
      let body = object fields in
      let p0 = record p { created_id = own (lit "id") body; created_payload = some s } in
      let p1 = record p0 { created = record p0.created { id = id } } in
      let p2 = record p1 {
        created = record p1.created {
          expires =
              Time.render_on cal p.created.expires (some at) (empty_label (lit "Invalid date"));
        };
      } in
      let p3 = record p2 {
        created = record p2.created {
          lifetime = selected_lifetime_label p.inputs;
          password = yes_no s.password;
          recipient = or_text s.recipient_reference (lit "Not provided");
        };
      } in
      let p4 = record p3 { created = record p3.created { url = single_line url } } in
      let p5 = record p4 { created = record p4.created { email_status = mail } } in
      let p6 = record p5 {
        created = record p5.created {
          email_sent = Time.render_on cal p.created.email_sent sent (empty_label (lit "Not sent"));
        };
      } in
      let p7 = record p6 {
        created = record p6.created {
          retry_hidden = not (truthy (opt_prop (lit "requested") (email_answer body)));
          retry = retry_of s.email;
        };
      } in
      let p8 = record p7 {
        created = record p7.created { meta_href = lit "/admin/secrets/" ++ id };
      } in
      let s1 : put_id cal body p0 ≡ (p1, false) = unfold put_id content_text to_text in rw i refl in
      let s2 : put_expires cal body p1 ≡ (p2, false) =
        unfold put_expires time_value to_text in rw e refl in
      let s4 : put_url cal body p3 ≡ (p4, false) =
        unfold put_url field_text value_text to_text in rw u refl in
      let s5 : put_email_status cal body p4 ≡ (p5, false) = unfold put_email_status in rw m refl in
      let s6 : put_sent_at cal body p5 ≡ (p6, false) =
        unfold put_sent_at in rw (t, write_time) refl in
      let s8 : put_link_to cal body p7 ≡ (p8, false) =
        unfold put_link_to value_text to_text in rw i refl in
      let l8 : List (Effect Page) = open_panel cal ∷ [] in
      let l7 : List (Effect Page) = put_link_to cal body ∷ l8 in
      let l6 : List (Effect Page) = put_retry cal body s ∷ l7 in
      let l5 : List (Effect Page) = put_sent_at cal body ∷ l6 in
      let l4 : List (Effect Page) = put_email_status cal body ∷ l5 in
      let l3 : List (Effect Page) = put_url cal body ∷ l4 in
      let l2 : List (Effect Page) = put_facts cal s ∷ l3 in
      in_order-cons (put_id cal body) (put_expires cal body ∷ l2) p0 p1 s1
      ∙ in_order-cons (put_expires cal body) l2 p1 p2 s2
      ∙ in_order-cons (put_facts cal s) l3 p2 p3 (unfold put_facts in refl)
      ∙ in_order-cons (put_url cal body) l4 p3 p4 s4
      ∙ in_order-cons (put_email_status cal body) l5 p4 p5 s5
      ∙ in_order-cons (put_sent_at cal body) l6 p5 p6 s6
      ∙ in_order-cons (put_retry cal body s) l7 p6 p7 (unfold put_retry in refl)
      ∙ in_order-cons (put_link_to cal body) l8 p7 p8 s8
      ∙ unfold in_order open_panel in refl

  -- If the answer to a request for a link is good and holds an id, an expiration, an address and
  -- what has become of the email, then its panel opens with all of these, the lifetime beside the
  -- button that is chosen now, and the fields to send the email again; the script keeps the id, the
  -- submit button is free again, and the status line and a toast tell of the link.
  pub finish_submit-shown :
      (status : ℕ)
      → is_ok status ≡ true
      → let q = finish_submit cal s (answered status (some (object fields))) p in
        let shown = shown_page cal s (object fields) id at url mail sent p in
        (q.created ≡ shown.created)
        × (q.created_id ≡ some (string id))
        × (q.result_hidden ≡ false)
        × (q.revoke_disabled ≡ false)
        × (q.submit.disabled ≡ false)
        × (q.status ≡ lit "Secure link created.")
        × (q.toasts ≡ lit "One-time link created." ∷ p.toasts)
        × (q.sent ≡ p.sent)
  unfolding finish_submit read_submit in_order set_button_loading
  finish_submit-shown status good =
      rw good (rw fill_result-shown (refl, i, refl, refl, refl, refl, refl, refl))
