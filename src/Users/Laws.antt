-- ===== src/Users/Laws.antt =====
-- The pages of the users between two events, and a button that is not freed: `setupUserManagement`
-- of web/static/admin.js.
use secureshare.Prelude.{
  ℕ, ◌≡◌, refl, ◌∙◌, ap, Bool, true, false, List, [], ◌∷◌, ◌++◌, Option, none, some, arith,
  get_elem?, modify_at, remove_at, one_if, either_branch, count_if, count_if-append,
  count_if-remove_at, remove_at-eq_none, get_elem?-modify_at,
}
use secureshare.Text.{Text, lit}
use secureshare.Json.{Json}
use secureshare.Fetch.{Reply, failed, answered, is_ok}
use secureshare.Button.{set_button_loading}
use secureshare.Effect.{in_order-Keeps, write_text-Keeps}
use secureshare.Users.{
  UserFields, ActionButton, Call, create_user, update_user, reset_password, user_action, Page,
  posted, user_path, open_user, start_create, read_create, finish_create, start_update,
  finish_update, start_reset, finish_reset, start_action, finish_action, Event, submit_create,
  submit_update, submit_reset, type_new, type_user, type_reset, click_action, answer, finish, step,
  run,
}

abbrev pub is_creation : Call → Bool
is_creation (create_user u w) = true
is_creation _ = false

-- The button of the form of a new user is disabled exactly while its one request waits.
abbrev pub OneCreation : Page → Type 0
OneCreation p = count_if is_creation p.pending ≡ one_if p.create.disabled

module _ (waiting : List Call) where
  abbrev Waits : Page → Type 0
  Waits p = p.pending ≡ waiting

  open_user-Waits : (user : Option Json) (p : Page) → Waits p → Waits (open_user user p).0
  unfolding open_user
  open_user-Waits none p h = h
  open_user-Waits (some user) p h =
      in_order-Keeps Waits _
        ((λ q k. k), (write_text-Keeps Waits (user_path user) _ (λ t q k. k), tt)) p h

  -- The answer to a new user does not change what waits.
  read_create-Waits : (reply : Reply) (p : Page) → Waits p → Waits (read_create reply p).0
  unfolding read_create
  read_create-Waits failed p h = h
  read_create-Waits (answered status body) p h =
      either_branch (λ (r : Page × Bool). Waits r.0) (is_ok status) (open_user body p) _
        (λ e. open_user-Waits body p h) (λ e. h)

finish_create-OneCreation :
    (p : Page) (k : ℕ) (u : UserFields) (w : Text) (reply : Reply)
    → OneCreation p
    → get_elem? p.pending k ≡ some (create_user u w)
    → OneCreation (finish_create reply (record p { pending = remove_at k p.pending }))
unfolding finish_create set_button_loading
finish_create-OneCreation p k u w reply v h =
    let rest = record p { pending = remove_at k p.pending } in
    let waits = read_create-Waits (remove_at k p.pending) reply rest refl in
    let less = count_if-remove_at is_creation p.pending k (create_user u w) h in
    let idle : count_if is_creation (remove_at k p.pending) ≡ 0 = ground arith in
    ap (count_if is_creation) waits ∙ idle

-- The answers to the other requests change neither the button of a new user nor what waits.
abbrev Aside : (Reply → Page → Page) → Type 0
Aside f = (reply : Reply) (p : Page) → OneCreation p → OneCreation (f reply p)

finish_update-Aside : Aside finish_update
unfolding finish_update
finish_update-Aside failed p v = v
finish_update-Aside (answered status body) p v = v

finish_reset-Aside : Aside finish_reset
unfolding finish_reset
finish_reset-Aside failed p v = v
finish_reset-Aside (answered status body) p v =
    either_branch OneCreation (is_ok status) _ _ (λ e. v) (λ e. v)

finish_action-Aside : Aside finish_action
unfolding finish_action
finish_action-Aside failed p v = v
finish_action-Aside (answered status body) p v =
    either_branch OneCreation (is_ok status) _ _ (λ e. v) (λ e. v)

-- Another request is sent, or an answer to it taken.
sent-OneCreation :
    (p : Page) (c : Call)
    → is_creation c ≡ false
    → OneCreation p
    → count_if is_creation (p.pending ++ c ∷ []) ≡ one_if p.create.disabled
sent-OneCreation p c other v =
    let more = count_if-append is_creation p.pending (c ∷ []) in ground arith

taken-OneCreation :
    (p : Page) (k : ℕ) (c : Call)
    → is_creation c ≡ false
    → get_elem? p.pending k ≡ some c
    → OneCreation p
    → OneCreation (record p { pending = remove_at k p.pending })
taken-OneCreation p k c other h v =
    let less = count_if-remove_at is_creation p.pending k c h in ground arith

finish-OneCreation :
    (p : Page) (k : ℕ) (call : Option Call) (reply : Reply)
    → get_elem? p.pending k ≡ call
    → OneCreation p
    → OneCreation (finish call reply (record p { pending = remove_at k p.pending }))
unfolding finish
finish-OneCreation p k none reply h v =
    ap (count_if is_creation) (remove_at-eq_none p.pending k h) ∙ v
finish-OneCreation p k (some (create_user u w)) reply h v =
    finish_create-OneCreation p k u w reply v h
finish-OneCreation p k (some (update_user id u)) reply h v =
    finish_update-Aside reply _ (taken-OneCreation p k (update_user id u) refl h v)
finish-OneCreation p k (some (reset_password id w force)) reply h v =
    finish_reset-Aside reply _ (taken-OneCreation p k (reset_password id w force) refl h v)
finish-OneCreation p k (some (user_action i id action)) reply h v =
    finish_action-Aside reply _ (taken-OneCreation p k (user_action i id action) refl h v)

start_create-OneCreation :
    (p : Page) → OneCreation p → p.create.disabled ≡ false → OneCreation (start_create p)
unfolding start_create set_button_loading
start_create-OneCreation p v free =
    let more =
      count_if-append is_creation p.pending (create_user (posted p.new_user) p.new_password ∷ []) in
    ground arith

start_action-OneCreation :
    (p : Page) (i : ℕ) (confirmed : Bool) (b : Option ActionButton)
    → OneCreation p
    → OneCreation (start_action i confirmed b p)
unfolding start_action
start_action-OneCreation p i confirmed none v = v
start_action-OneCreation p i confirmed (some b) v =
    either_branch OneCreation b.disabled p _ (λ e. v)
      (λ e.
        either_branch OneCreation confirmed _ p
          (λ h. sent-OneCreation p (user_action i b.user_id b.action) refl v) (λ h. v))

step-OneCreation : (p : Page) (e : Event) → OneCreation p → OneCreation (step p e)
unfolding step start_update start_reset
step-OneCreation p submit_create v =
    either_branch OneCreation p.create.disabled p (start_create p) (λ e. v)
      (start_create-OneCreation p v)
step-OneCreation p submit_update v =
    sent-OneCreation p (update_user p.user_id (posted p.user)) refl v
step-OneCreation p submit_reset v =
    sent-OneCreation p (reset_password p.user_id p.other_password p.force_other) refl v
step-OneCreation p (type_new u w) v = v
step-OneCreation p (type_user u) v = v
step-OneCreation p (type_reset w force) v = v
step-OneCreation p (click_action i confirmed) v =
    start_action-OneCreation p i confirmed (get_elem? p.buttons i) v
step-OneCreation p (answer k reply) v = finish-OneCreation p k (get_elem? p.pending k) reply refl v

-- However the user and the server go on, the button that creates a user is disabled exactly while
-- its one request waits, if this holds when the run begins.
pub run-OneCreation : (es : List Event) (p : Page) → OneCreation p → OneCreation (run p es)
unfolding run
run-OneCreation [] p v = v
run-OneCreation (e ∷ es) p v = run-OneCreation es (step p e) (step-OneCreation p e v)

-- If the server refuses an action on a user, the button stays disabled: the page says that the
-- update failed, it is not loaded again, and another click on the button does nothing.
pub refused_action :
    (p : Page) (i : ℕ) (b : ActionButton) (status : ℕ) (body : Option Json)
    → get_elem? p.buttons i ≡ some b
    → b.disabled ≡ false
    → p.pending ≡ []
    → is_ok status ≡ false
    → let q = run p (click_action i true ∷ answer 0 (answered status body) ∷ []) in
      (q.sent ≡ user_action i b.user_id b.action ∷ p.sent)
      × (q.toasts ≡ lit "User update failed." ∷ p.toasts)
      × (q.reloading ≡ p.reloading)
      × (q.pending ≡ [])
      × (step q (click_action i true) ≡ q)
unfolding run step start_action finish finish_action
refused_action p i b status body at free quiet bad =
    let off : get_elem? (modify_at i (λ (r : ActionButton). record r { disabled = true }) p.buttons)
          i
        ≡ some (record b { disabled = true }) =
      get_elem?-modify_at p.buttons i _ b at in
    simp (at, free, quiet, bad, off) (refl, refl, refl, refl, refl)
