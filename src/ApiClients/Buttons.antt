-- ===== src/ApiClients/Buttons.antt =====
-- The buttons of the API clients keep the account of what waits, from the click to the answer:
-- `setupAPIClients` of web/static/admin.js.
use secureshare.Prelude.{
  ℕ, zero, suc, ◌≡◌, refl, ◌∙◌, ap, Bool, true, false, List, [], ◌∷◌, Option, none, some, arith,
  count_if, get_elem?, modify_at, remove_at, ◌==◌, if◌then◌else◌, Bool-cases, inl, inr,
  either_branch, test_at-get_elem?, test_at-modify_at, count_if-append, count_if-remove_at,
}
use secureshare.Text.{Text, lit}
use secureshare.Json.{Json}
use secureshare.Fetch.{Reply, failed, answered, is_ok, body_or_empty}
use secureshare.Effect.{in_order}
use secureshare.Dialog.{is_confirmed}
use secureshare.ApiClients.{
  ClientAction, rotate_secret, disable, enable, revoke, ActionButton, Call, client_action, Page,
  show_credentials, announce,
}
use secureshare.ApiClients.Events.{
  set_disabled, start_ask, start_action, resume, accept_action, finish_action,
}
use secureshare.ApiClients.Laws.{
  disabled_at, is_action_of, is_creation, WaitsOnce, Same, Same-WaitsOnce, show_credentials-Same,
}

disabled_at-free :
    (bs : List ActionButton) (i j : ℕ)
    → disabled_at (modify_at i (λ b. record b { disabled = false }) bs) j
      ≡ (if i == j then false else disabled_at bs j)
disabled_at-free [] i j = ground arith
disabled_at-free (b ∷ bs) zero zero = refl
disabled_at-free (b ∷ bs) zero (suc j) = ground arith
disabled_at-free (b ∷ bs) (suc i) zero = ground arith
disabled_at-free (b ∷ bs) (suc i) (suc j) = let e = disabled_at-free bs i j in ground arith

-- A button is freed when no request of its own waits.
set_disabled-WaitsOnce :
    (p : Page) (i : ℕ)
    → count_if (is_action_of i) p.pending ≡ 0
    → WaitsOnce p
    → WaitsOnce (set_disabled i false p)
set_disabled-WaitsOnce p i idle v = record {
  one_action =
      λ j. let before = v.one_action j in let after = disabled_at-free p.buttons i j in grind arith;
  asks =
      λ j h. let before = v.asks j h in let after = disabled_at-free p.buttons i j in ground arith;
  one_creation = v.one_creation;
}

pub start_ask-WaitsOnce :
    (p : Page) (i : ℕ) (b : Option ActionButton)
    → get_elem? p.buttons i ≡ b
    → WaitsOnce p
    → WaitsOnce (start_ask i b p)
unfolding start_ask
start_ask-WaitsOnce p i none h v = v
start_ask-WaitsOnce p i (some b) h v =
    either_branch WaitsOnce b.disabled p _ (λ e. v)
      (λ e. record {
        one_action = v.one_action;
        asks = λ j same.
            ap (disabled_at p.buttons) (cc)
            ∙ test_at-get_elem? (λ (r : ActionButton). r.disabled) p.buttons i b h
            ∙ e;
        one_creation = v.one_creation;
      })

start_action-WaitsOnce :
    (p : Page) (i : ℕ) (b : Option ActionButton)
    → p.asking ≡ none
    → disabled_at p.buttons i ≡ false
    → get_elem? p.buttons i ≡ b
    → WaitsOnce p
    → WaitsOnce (start_action i b p)
unfolding start_action
start_action-WaitsOnce p i none quiet free h v = v
start_action-WaitsOnce p i (some b) quiet free h v = record {
  one_action = λ j.
      let before = v.one_action j in
      let more =
        count_if-append (is_action_of j) p.pending (client_action i b.client_id b.action ∷ []) in
      let after =
        test_at-modify_at (λ (r : ActionButton). r.disabled) p.buttons i
          (λ r. record r { disabled = true }) b j h in
      grind arith;
  asks = λ j same. cc;
  one_creation =
      let more =
        count_if-append is_creation p.pending (client_action i b.client_id b.action ∷ []) in
      let before = v.one_creation in ground arith;
}

pub resume-WaitsOnce :
    (p : Page) (who : Option ℕ)
    → p.asking ≡ none
    → ((i : ℕ) → who ≡ some i → disabled_at p.buttons i ≡ false)
    → WaitsOnce p
    → WaitsOnce (resume who p)
unfolding resume
resume-WaitsOnce p none quiet free v = v
resume-WaitsOnce p (some i) quiet free v =
    either_branch WaitsOnce (is_confirmed p.dialog) _ p
      (λ e. start_action-WaitsOnce p i (get_elem? p.buttons i) quiet (free i refl) refl v) (λ e. v)

-- The answer to a button's request is taken: none of its requests waits any longer.
pub taken-idle :
    (p : Page) (k i : ℕ) (id : Text) (action : ClientAction)
    → get_elem? p.pending k ≡ some (client_action i id action)
    → WaitsOnce p
    → count_if (is_action_of i) (remove_at k p.pending) ≡ 0
taken-idle p k i id action h v =
    let before = v.one_action i in
    let less = count_if-remove_at (is_action_of i) p.pending k (client_action i id action) h in
    elim (Bool-cases (disabled_at p.buttons i)) [ inl e ↦ ground arith | inr e ↦ ground arith ]

pub taken-WaitsOnce :
    (p : Page) (k : ℕ) (c : Call)
    → is_creation c ≡ false
    → get_elem? p.pending k ≡ some c
    → WaitsOnce p
    → WaitsOnce (record p { pending = remove_at k p.pending })
taken-WaitsOnce p k c other h v = record {
  one_action = λ j.
      let before = v.one_action j in
      let less = count_if-remove_at (is_action_of j) p.pending k c h in ground arith;
  asks = v.asks;
  one_creation =
      let before = v.one_creation in
      let less = count_if-remove_at is_creation p.pending k c h in ground arith;
}

-- A rotated secret is shown, and the button is freed unless showing it threw.
accept_action-WaitsOnce :
    (p : Page) (i : ℕ) (action : ClientAction) (client : Json)
    → count_if (is_action_of i) p.pending ≡ 0
    → WaitsOnce p
    → WaitsOnce (accept_action i action client p)
unfolding accept_action in_order
accept_action-WaitsOnce p i rotate_secret client idle v =
    let shown = show_credentials client p in
    let same : Same p shown.0 = show_credentials-Same p client p (refl, refl, refl, refl) in
    let kept : WaitsOnce shown.0 = Same-WaitsOnce p shown.0 same v in
    let noted : WaitsOnce (announce (lit "Client secret rotated.") shown.0) =
      Same-WaitsOnce shown.0 _ (refl, refl, refl, refl) kept in
    either_branch (λ (r : Page × Bool). WaitsOnce r.0) shown.1 _ _ (λ e. kept)
      (λ e. set_disabled-WaitsOnce _ i (ap (count_if (is_action_of i)) same.0 ∙ idle) noted)
accept_action-WaitsOnce p i disable client idle v = Same-WaitsOnce p _ (refl, refl, refl, refl) v
accept_action-WaitsOnce p i enable client idle v = Same-WaitsOnce p _ (refl, refl, refl, refl) v
accept_action-WaitsOnce p i revoke client idle v = Same-WaitsOnce p _ (refl, refl, refl, refl) v

pub finish_action-WaitsOnce :
    (p : Page) (i : ℕ) (action : ClientAction) (reply : Reply)
    → count_if (is_action_of i) p.pending ≡ 0
    → WaitsOnce p
    → WaitsOnce (finish_action i action reply p)
unfolding finish_action
finish_action-WaitsOnce p i action failed idle v = v
finish_action-WaitsOnce p i action (answered status body) idle v =
    either_branch WaitsOnce (is_ok status) _ _
      (λ e. accept_action-WaitsOnce p i action (body_or_empty body) idle v)
      (λ e.
        set_disabled-WaitsOnce (announce (lit "API client update failed.") p) i idle
          (Same-WaitsOnce p _ (refl, refl, refl, refl) v))
