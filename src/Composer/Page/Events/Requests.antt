-- ===== src/Composer/Page/Events/Requests.antt =====
-- The create page keeps its invariant where a request is sent or answered: `setupCreateSecret` of
-- web/static/admin.js.
use secureshare.Prelude.{
  ℕ, ◌≡◌, refl, sym, ◌∙◌, subst, Bool, true, false, ◌⊎◌, inl, inr, [], ◌∷◌, Option, none, some,
  arith, All, Bool-cases, get_elem?, remove_at, count_if, count_if-append, count_if-remove_at,
  remove_at-eq_none,
}
use secureshare.Text.{Text}
use secureshare.Time.{Calendar}
use secureshare.Fetch.{Reply, failed, answered, is_ok, body_or_empty}
use secureshare.Button.{set_button_loading}
use secureshare.Effect.{write_text, either_page, in_order}
use secureshare.Composer.{Host, Outcome-cases}
use secureshare.Composer.Payload.{payload_model}
use secureshare.Composer.Page.{
  Page, Call, create, revoke, preview, send_email, Submission, send, announce, submission,
}
use secureshare.Composer.Page.Result.{fill_result}
use secureshare.Composer.Page.Result.Laws.{Filled, Filled-self, Filled-told, fill_result-Filled}
use secureshare.Composer.Page.Handlers.{
  is_structured, loading, set_status, start_submit, refuse_submit, read_submit, finish_submit,
  finish_revoke, finish_preview, preview_text, finish_email, email_toast, finish,
}
use secureshare.Composer.Page.Events.Laws.{
  IsChecked, is_create, payload_model-Grounds, Inv, aside-Inv,
}

module _ (host : Host) where
  -- Any request but one for a link may be sent.
  pub send-Inv :
      (call : Call) (p : Page)
      → is_create call ≡ false
      → IsChecked host call
      → Inv host p
      → Inv host (send call p)
  send-Inv call p other may v = record {
    one_create = ground (arith, count_if-append is_create p.pending (call ∷ []), v.one_create);
    waits_hidden = v.waits_hidden;
    shows_id = v.shows_id;
    checked = (may, v.checked);
  }

  pub start_submit-Inv :
      (p : Page) → p.submit.disabled ≡ false → Inv host p → Inv host (start_submit host p)
  unfolding start_submit set_button_loading submission
  start_submit-Inv p free v =
      elim (Outcome-cases (
        payload_model host (is_structured p.mode) p.form.rows p.inputs.secret_plain
          p.inputs.is_json)) [
            | inr (e, h) ↦
                rw (h, start_submit)
                  (record {
                    one_create = v.one_create;
                    waits_hidden = inr refl;
                    shows_id = inl refl;
                    checked = v.checked;
                  })
            | inl (m, h) ↦
                rw (h, start_submit)
                  (record {
                    one_create = ground (
                      arith,
                      count_if-append is_create p.pending (create (submission p m) ∷ []),
                      v.one_create,
                    );
                    waits_hidden = inr refl;
                    shows_id = inl refl;
                    checked = (
                      payload_model-Grounds host p.mode p.form.rows p.inputs.secret_plain
                          p.inputs.is_json m h,
                      v.checked,
                    );
                  })
          ]

  -- After the answer to a request for a link: the page of the answer, with its button free again.
  Filled-Inv :
      (o r : Page)
      → count_if is_create o.pending ≡ 0
      → o.result_hidden ≡ true
      → All (IsChecked host) o.sent
      → Filled o r
      → Inv host (loading false r)
  unfolding set_button_loading
  Filled-Inv o r no_more hidden may f = record {
    one_create = rw f.filled_frame.same_pending no_more;
    waits_hidden = inl refl;
    shows_id = elim f.opened_or_not [ inl same ↦ inl (same ∙ hidden) | inr (_, shown) ↦ inr shown ];
    checked = rw f.filled_frame.same_sent may;
  }

  write_text-Filled : (o : Page) (t : Option Text) → Filled o (write_text t set_status o).0
  write_text-Filled o none = Filled-self o
  write_text-Filled o (some t) = Filled-told o o t o.toasts (Filled-self o)

  read_submit-Filled :
      (cal : Calendar) (s : Submission) (reply : Reply) (o : Page)
      → Filled o (read_submit cal s reply o).0
  unfolding read_submit refuse_submit in_order
  read_submit-Filled cal s failed o = Filled-self o
  read_submit-Filled cal s (answered status body) o = elim (Bool-cases (is_ok status)) [
    | inl good ↦ rw good (
        either_page (Filled o) (fill_result cal (body_or_empty body) s o).1
          (fill_result cal (body_or_empty body) s o).0 _
          (fill_result-Filled cal o (body_or_empty body) s)
          (Filled-told o (fill_result cal (body_or_empty body) s o).0 _ _
            (fill_result-Filled cal o (body_or_empty body) s)))
    | inr bad ↦ rw bad (write_text-Filled o _)
  ]

  remove-Inv :
      (p : Page) (i : ℕ) (c : Call)
      → get_elem? p.pending i ≡ some c
      → is_create c ≡ false
      → Inv host p
      → Inv host (record p { pending = remove_at i p.pending })
  remove-Inv p i c e other v = record {
    one_create = ground (arith, count_if-remove_at is_create p.pending i c e, v.one_create);
    waits_hidden = v.waits_hidden;
    shows_id = v.shows_id;
    checked = v.checked;
  }

  -- What a button's one waiting request tells.
  waiting :
      (p : Page) (i : ℕ) (s : Submission)
      → get_elem? p.pending i ≡ some (create s)
      → Inv host p
      → (count_if is_create (remove_at i p.pending) ≡ 0) × (p.submit.disabled ≡ true)
  waiting p i s e v =
      ground (arith, count_if-remove_at is_create p.pending i (create s) e, v.one_create)

  hidden_while : (a b : Bool) → (a ≡ false) ⊎ (b ≡ true) → a ≡ true → b ≡ true
  hidden_while a b (inl h) k = cc
  hidden_while a b (inr h) k = h

  write_text-Inv :
      (t : Option Text) (change : Text → Page → Page) (p : Page)
      → ((x : Text) → Inv host (change x p))
      → Inv host p
      → Inv host (write_text t change p).0
  write_text-Inv none change p w v = v
  write_text-Inv (some x) change p w v = w x

  pub finish-Inv :
      (cal : Calendar) (p : Page) (i : ℕ) (reply : Reply) (o : Option Call)
      → Inv host p
      → get_elem? p.pending i ≡ o
      → Inv host (finish cal o reply (record p { pending = remove_at i p.pending }))
  unfolding finish finish_submit finish_revoke finish_preview finish_email
  finish-Inv cal p i reply none v e =
      subst (λ rs. Inv host (record p { pending = rs })) (sym (remove_at-eq_none p.pending i e)) v
  finish-Inv cal p i reply (some (create s)) v e =
      let (no_more, locked) = waiting p i s e v in
      let q = record p { pending = remove_at i p.pending } in
      Filled-Inv q _ no_more (hidden_while p.submit.disabled p.result_hidden v.waits_hidden locked)
        v.checked (read_submit-Filled cal s reply q)
  finish-Inv cal p i failed (some (revoke id)) v e = remove-Inv p i _ e refl v
  finish-Inv cal p i (answered status body) (some (revoke id)) v e =
      let q = record p { pending = remove_at i p.pending } in
      elim (Bool-cases (is_ok status)) [
        | inl h ↦ rw h (aside-Inv host q refl (remove-Inv p i _ e refl v))
        | inr h ↦ rw h (aside-Inv host q refl (remove-Inv p i _ e refl v))
      ]
  finish-Inv cal p i failed (some (preview a b)) v e = remove-Inv p i _ e refl v
  finish-Inv cal p i (answered status body) (some (preview a b)) v e =
      let w = remove-Inv p i _ e refl v in
      write_text-Inv (preview_text status (body_or_empty body))
        (λ t q. record q { delivery_status = t }) (record p { pending = remove_at i p.pending })
        (λ t. aside-Inv host _ refl w) w
  finish-Inv cal p i failed (some (send_email a b)) v e = remove-Inv p i _ e refl v
  finish-Inv cal p i (answered status body) (some (send_email a b)) v e =
      let w = remove-Inv p i _ e refl v in
      write_text-Inv (email_toast status (body_or_empty body)) announce
        (record p { pending = remove_at i p.pending }) (λ t. aside-Inv host _ refl w) w
