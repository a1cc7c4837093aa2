-- ===== src/EmailSettings/Waits.antt =====
-- Each button of the email settings is disabled exactly while its one request waits:
-- `setupEmailSettings` of web/static/admin.js.
use secureshare.Prelude.{
  ℕ, zero, suc, ◌≡◌, refl, sym, ◌∙◌, ap, Bool, true, false, List, [], ◌∷◌, ◌++◌, Option, none, some,
  arith, Bool-cases, inl, inr, either_branch, if◌then◌else◌, count_if, count_if-append,
  count_if-remove_at, remove_at, remove_at-eq_none, get_elem?, one_if,
}
use secureshare.Fetch.{Reply}
use secureshare.Button.{Button, set_button_loading}
use secureshare.EmailSettings.{
  Settings, settings_payload, EmailAction, test_connection, enable, disable, Which, save, preview,
  send_test, on_action, Next, after_submit, before_action, before_test, Call, put_settings,
  post_action, post_test, post_preview, Page, loading, index, same, waiting_button,
}
use secureshare.EmailSettings.Answers.{
  Saved, rejected, refused, saved, read_saved, read_action, read_test, read_preview,
}
use secureshare.EmailSettings.Events.{
  start_saving, start_action, start_preview, click_button, go_on, tells, finish_saving, finish,
  Event, type_settings, type_test, click, answer, step, run,
}
use secureshare.EmailSettings.Keeps.{
  Same, read_saved-Same, read_action-Same, read_test-Same, read_preview-Same,
}

of_index : ℕ → Which
of_index zero = save
of_index (suc zero) = preview
of_index (suc (suc zero)) = send_test
of_index (suc (suc (suc zero))) = on_action test_connection
of_index (suc (suc (suc (suc zero)))) = on_action enable
of_index (suc (suc (suc (suc (suc n))))) = on_action disable

of_index-index : (w : Which) → of_index (index w) ≡ w
unfolding of_index
of_index-index save = refl
of_index-index preview = refl
of_index-index send_test = refl
of_index-index (on_action test_connection) = refl
of_index-index (on_action enable) = refl
of_index-index (on_action disable) = refl

pub same→≡ : (a b : Which) → same a b ≡ true → a ≡ b
same→≡ a b h =
    let e : index a ≡ index b = ground arith in
    sym (of_index-index a) ∙ ap of_index e ∙ of_index-index b

abbrev pub waits : Which → Call → Bool
waits b c = same (waiting_button c) b

abbrev pub Counts : List Call → (Which → Button) → Type 0
Counts calls buttons = (b : Which) → count_if (waits b) calls ≡ one_if (buttons b).disabled

-- Each button is disabled exactly while one request waits that its listener goes on with, and there
-- is never a second one.
abbrev pub OneEach : Page → Type 0
OneEach p = Counts p.pending p.buttons

abbrev turned : Which → Bool → (Which → Button) → Which → Button
turned which on buttons = λ b. if same which b then set_button_loading on (buttons b) else buttons b

module _ (calls : List Call) (buttons : Which → Button) (v : Counts calls buttons) where
  -- A free button starts a request.
  started :
      (c : Call)
      → (buttons (waiting_button c)).disabled ≡ false
      → Counts (calls ++ c ∷ []) (turned (waiting_button c) true buttons)
  unfolding set_button_loading
  started c free b =
      let before = v b in
      let more = count_if-append (waits b) calls (c ∷ []) in
      elim (Bool-cases (same (waiting_button c) b)) [
        | inl e ↦
            let idle : (buttons b).disabled ≡ false =
              ap (λ w. (buttons w).disabled) (sym (same→≡ (waiting_button c) b e)) ∙ free in
            ground arith
        | inr e ↦ ground arith
      ]

  -- Its answer frees the button.
  freed :
      (k : ℕ) (c : Call)
      → get_elem? calls k ≡ some c
      → Counts (remove_at k calls) (turned (waiting_button c) false buttons)
  unfolding set_button_loading
  freed k c h b =
      let before = v b in
      let less = count_if-remove_at (waits b) calls k c h in
      elim (Bool-cases (same (waiting_button c) b)) [
        | inl e ↦ elim (Bool-cases (buttons b).disabled) [
          | inl on ↦ ground arith
          | inr off ↦ ground arith
        ]
        | inr e ↦ ground arith
      ]

  -- Its answer leads to a second request of the same button.
  followed :
      (k : ℕ) (c d : Call)
      → get_elem? calls k ≡ some c
      → waiting_button d ≡ waiting_button c
      → Counts (remove_at k calls ++ d ∷ []) buttons
  followed k c d h same_button b =
      let before = v b in
      let less = count_if-remove_at (waits b) calls k c h in
      let more = count_if-append (waits b) (remove_at k calls) (d ∷ []) in
      let as_c : waits b d ≡ waits b c = ap (λ w. same w b) same_button in ground arith

-- A click on a free button.
start_action-OneEach :
    (a : EmailAction) (p : Page)
    → OneEach p
    → (p.buttons (on_action a)).disabled ≡ false
    → OneEach (start_action a p)
unfolding start_action start_saving loading
start_action-OneEach disable p v free = started p.pending p.buttons v (post_action disable) free
start_action-OneEach enable p v free =
    started p.pending p.buttons v
      (put_settings (settings_payload p.settings) (before_action enable)) free
start_action-OneEach test_connection p v free =
    started p.pending p.buttons v
      (put_settings (settings_payload p.settings) (before_action test_connection)) free

click_button-OneEach :
    (b : Which) (p : Page) → OneEach p → (p.buttons b).disabled ≡ false → OneEach (click_button b p)
unfolding click_button start_saving start_preview loading
click_button-OneEach save p v free =
    started p.pending p.buttons v (put_settings (settings_payload p.settings) after_submit) free
click_button-OneEach preview p v free =
    let s = settings_payload p.settings in
    started p.pending p.buttons v (post_preview s.default_subject s.default_message s.footer_text)
      free
click_button-OneEach send_test p v free =
    started p.pending p.buttons v
      (put_settings (settings_payload p.settings) (before_test p.test_to)) free
click_button-OneEach (on_action a) p v free = start_action-OneEach a p v free

module _ (p : Page) (v : OneEach p) (k : ℕ) where
  -- The page on which an answer is read.
  abbrev rest : Page
  rest = record p { pending = remove_at k p.pending }

  freed_on :
      (c : Call) (q : Page)
      → Same rest q
      → get_elem? p.pending k ≡ some c
      → Counts q.pending (turned (waiting_button c) false q.buttons)
  freed_on c q (waiting, buttons) h = rw (waiting, buttons) (freed p.pending p.buttons v k c h)

  followed_on :
      (c d : Call) (q : Page)
      → Same rest q
      → get_elem? p.pending k ≡ some c
      → waiting_button d ≡ waiting_button c
      → Counts (q.pending ++ d ∷ []) q.buttons
  followed_on c d q (waiting, buttons) h same_button =
      rw (waiting, buttons) (followed p.pending p.buttons v k c d h same_button)

  go_on-OneEach :
      (s : Settings) (next : Next) (result : Saved) (q : Page)
      → Same rest q
      → get_elem? p.pending k ≡ some (put_settings s next)
      → OneEach (go_on next result q)
  unfolding go_on loading
  go_on-OneEach s after_submit result q same_page h =
      freed_on (put_settings s after_submit) q same_page h
  go_on-OneEach s (before_action a) saved q same_page h =
      followed_on (put_settings s (before_action a)) (post_action a) q same_page h refl
  go_on-OneEach s (before_action a) refused q same_page h =
      freed_on (put_settings s (before_action a)) q same_page h
  go_on-OneEach s (before_action a) rejected q same_page h =
      freed_on (put_settings s (before_action a)) q same_page h
  go_on-OneEach s (before_test to) saved q same_page h =
      followed_on (put_settings s (before_test to)) (post_test to) q same_page h refl
  go_on-OneEach s (before_test to) refused q same_page h =
      freed_on (put_settings s (before_test to)) q same_page h
  go_on-OneEach s (before_test to) rejected q same_page h =
      freed_on (put_settings s (before_test to)) q same_page h

  finish-OneEach :
      (call : Option Call) (reply : Reply)
      → get_elem? p.pending k ≡ call
      → OneEach (finish call reply rest)
  unfolding finish finish_saving loading
  finish-OneEach none reply h = λ b. ap (count_if (waits b)) (remove_at-eq_none p.pending k h) ∙ v b
  finish-OneEach (some (put_settings s next)) reply h =
      go_on-OneEach s next (read_saved (tells next) reply rest).1
        (read_saved (tells next) reply rest).0
        (read_saved-Same rest (tells next) reply rest (refl, refl)) h
  finish-OneEach (some (post_action a)) reply h =
      freed_on (post_action a) (read_action a reply rest).0
        (read_action-Same rest a reply rest (refl, refl)) h
  finish-OneEach (some (post_test to)) reply h =
      freed_on (post_test to) (read_test reply rest).0 (read_test-Same rest reply rest (refl, refl))
        h
  finish-OneEach (some (post_preview subject message footer)) reply h =
      freed_on (post_preview subject message footer) (read_preview reply rest).0
        (read_preview-Same rest reply rest (refl, refl)) h

step-OneEach : (p : Page) (e : Event) → OneEach p → OneEach (step p e)
unfolding step
step-OneEach p (type_settings s) v = v
step-OneEach p (type_test to) v = v
step-OneEach p (click b) v =
    either_branch OneEach (p.buttons b).disabled p (click_button b p) (λ e. v)
      (click_button-OneEach b p v)
step-OneEach p (answer k reply) v = finish-OneEach p v k (get_elem? p.pending k) reply refl

-- On every run of the page of the email settings, each of its six buttons is disabled exactly while
-- one request waits that its listener goes on with, the saves before an action or a test included,
-- and there is never a second one, if this holds when the run begins.
pub run-OneEach : (es : List Event) (p : Page) → OneEach p → OneEach (run p es)
unfolding run
run-OneEach [] p v = v
run-OneEach (e ∷ es) p v = run-OneEach es (step p e) (step-OneEach p e v)
