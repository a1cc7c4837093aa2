-- ===== src/Composer/Page/Result/Laws.antt =====
-- What `fillResult` of web/static/admin.js leaves, thrown or not.
use secureshare.Prelude.{
  ◌∷◌, All, ◌≡◌, refl, ap, ◌∙◌, sym, false, ◌⊎◌, inl, inr, List, Option, some, Option-cases,
}
use secureshare.Text.{Text, lit}
use secureshare.Json.{Json, null, Value, own, content_text}
use secureshare.Time.{Calendar, Element}
use secureshare.Effect.{write_text, Keeps, in_order-Keeps, write_text-Keeps, in_order}
use secureshare.Composer.Page.{Page, Created, Submission}
use secureshare.Composer.Page.Result.{
  in_panel, write_time, render_local_time, put_id, put_expires, put_facts, put_url,
  put_email_status, put_sent_at, put_retry, put_link_to, open_panel, rest_steps, fill_result,
}

-- What of the page `o` stays.
pub record Frame (o p : Page) : Type 0 where
  pub same_sent : p.sent ≡ o.sent
  pub same_pending : p.pending ≡ o.pending
  pub same_submit : p.submit ≡ o.submit

-- While the panel is filled: the id that the script keeps is the one on show, and the panel opens or
-- stays as it was.
record Fills (o : Page) (v : Value) (t : Text) (p : Page) : Type 0 where
  frame : Frame o p
  kept_id : p.created_id ≡ v
  shown_id : p.created.id ≡ t
  opens : (p.result_hidden ≡ o.result_hidden) ⊎ (p.result_hidden ≡ false)

module _ (cal : Calendar) (o : Page) (v : Value) (t : Text) where
  with_panel-Fills :
      (c : Created) (p : Page)
      → c.id ≡ p.created.id
      → Fills o v t p
      → Fills o v t (record p { created = c })
  with_panel-Fills c p same f = record {
    frame = record {
      same_sent = f.frame.same_sent;
      same_pending = f.frame.same_pending;
      same_submit = f.frame.same_submit;
    };
    kept_id = f.kept_id;
    shown_id = same ∙ f.shown_id;
    opens = f.opens;
  }

  write_time-Fills :
      (label : Text) (w : Value) (which : Created → Element) (change : Element → Created → Created)
      → ((e : Element) (r : Created) → (change e r).id ≡ r.id)
      → Keeps (Fills o v t) (write_time cal label w which change)
  write_time-Fills label w which change same p f =
      elim (Option-cases (render_local_time cal label (which p.created) w)) [
        | inl e ↦ rw (e, write_time) f
        | inr (x, e) ↦
            rw (e, write_time) (with_panel-Fills (change x p.created) p (same x p.created) f)
      ]

  write_text-Fills :
      (w : Option Text) (change : Text → Created → Created)
      → ((x : Text) (r : Created) → (change x r).id ≡ r.id)
      → Keeps (Fills o v t) (write_text w (λ x. in_panel (change x)))
  write_text-Fills w change same =
      write_text-Keeps (Fills o v t) w (λ x. in_panel (change x))
        (λ x p f. with_panel-Fills (change x p.created) p (same x p.created) f)

  open_panel-Fills : Keeps (Fills o v t) (open_panel cal)
  unfolding open_panel
  open_panel-Fills p f = record {
    frame = record {
      same_sent = f.frame.same_sent;
      same_pending = f.frame.same_pending;
      same_submit = f.frame.same_submit;
    };
    kept_id = f.kept_id;
    shown_id = f.shown_id;
    opens = inr refl;
  }

  rest_steps-Fills :
      (body : Json) (s : Submission) → All (Keeps (Fills o v t)) (rest_steps cal body s)
  unfolding put_expires put_facts put_url put_email_status put_sent_at put_retry put_link_to
  rest_steps-Fills body s =
      let facts : Keeps (Fills o v t) (put_facts cal s) = λ p f. with_panel-Fills _ p refl f in
      let retry : Keeps (Fills o v t) (put_retry cal body s) = λ p f. with_panel-Fills _ p refl f in
      let panel = open_panel-Fills in
      let href = write_text-Fills _ (λ x r. record r { meta_href = x }) (λ x r. refl) in
      let at =
        write_time-Fills _ _ (λ r. r.email_sent) (λ e r. record r { email_sent = e })
          (λ e r. refl) in
      let email = write_text-Fills _ (λ x r. record r { email_status = x }) (λ x r. refl) in
      let url = write_text-Fills _ (λ x r. record r { url = x }) (λ x r. refl) in
      let expires =
        write_time-Fills _ _ (λ r. r.expires) (λ e r. record r { expires = e }) (λ e r. refl) in
      (expires, (facts, (url, (email, (at, (retry, (href, (panel, tt))))))))

-- What filling the panel leaves of the page `o`: either the panel is as it was, hidden or not, or it
-- is open and shows the id that the script keeps.
pub record Filled (o p : Page) : Type 0 where
  pub filled_frame : Frame o p
  pub opened_or_not :
      (p.result_hidden ≡ o.result_hidden)
      ⊎ ((p.result_hidden ≡ false) × (content_text p.created_id ≡ some p.created.id))

Fills-Filled :
    (o p : Page) (v : Value) (t : Text) → content_text v ≡ some t → Fills o v t p → Filled o p
Fills-Filled o p v t e f = record {
  filled_frame = f.frame;
  opened_or_not = elim f.opens [
    | inl h ↦ inl h
    | inr h ↦ inr (h, ap content_text f.kept_id ∙ e ∙ ap some (sym f.shown_id))
  ];
}

pub Filled-self : (o : Page) → Filled o o
Filled-self o = record {
  filled_frame = record { same_sent = refl; same_pending = refl; same_submit = refl };
  opened_or_not = inl refl;
}

-- The status line and the toasts are no part of it.
pub Filled-told :
    (o p : Page) (status : Text) (toasts : List Text)
    → Filled o p
    → Filled o (record p { status = status; toasts = toasts })
Filled-told o p status toasts f = record {
  filled_frame = record {
    same_sent = f.filled_frame.same_sent;
    same_pending = f.filled_frame.same_pending;
    same_submit = f.filled_frame.same_submit;
  };
  opened_or_not = f.opened_or_not;
}

unchanged :
    (o : Page) (v : Value) (s : Submission)
    → Filled o (record o { created_id = v; created_payload = some s })
unchanged o v s = record {
  filled_frame = record { same_sent = refl; same_pending = refl; same_submit = refl };
  opened_or_not = inl refl;
}

module _ (cal : Calendar) (o : Page) where
  steps-Filled :
      (body : Json) (s : Submission)
      → Filled o
          (in_order
            (put_id cal body ∷ rest_steps cal body s)
            (record o { created_id = own (lit "id") body; created_payload = some s })).0
  unfolding in_order put_id
  steps-Filled body s =
      let v = own (lit "id") body in
      let q = record o { created_id = v; created_payload = some s } in
      elim (Option-cases (content_text v)) [
        | inl e ↦ rw (e, write_text) (unchanged o v s)
        | inr (t, e) ↦
            let start : Fills o v t (record q { created = record q.created { id = t } }) = record {
              frame = record { same_sent = refl; same_pending = refl; same_submit = refl };
              kept_id = refl;
              shown_id = refl;
              opens = inl refl;
            } in
            rw (e, write_text)
              (Fills-Filled o _ v t e (
                in_order-Keeps (Fills o v t) (rest_steps cal body s)
                  (rest_steps-Fills cal o v t body s) _ start))
      ]

  pub fill_result-Filled : (body : Json) (s : Submission) → Filled o (fill_result cal body s o).0
  unfolding fill_result
  fill_result-Filled null s = record {
    filled_frame = record { same_sent = refl; same_pending = refl; same_submit = refl };
    opened_or_not = inl refl;
  }
  fill_result-Filled body s = steps-Filled body s
