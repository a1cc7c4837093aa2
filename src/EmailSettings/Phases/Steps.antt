-- ===== src/EmailSettings/Phases/Steps.antt =====
-- Each event of the email settings is at most one move of each button: `setupEmailSettings` of
-- web/static/admin.js.
use secureshare.Prelude.{
  ℕ, ◌≡◌, ◌≤◌, refl, sym, ◌∙◌, ap, true, false, List, [], ◌∷◌, ◌++◌, Option, none, some, arith,
  count_if, one_if, remove_at, remove_at-eq_none, get_elem?, either_branch,
}
use secureshare.Fetch.{Reply}
use secureshare.EmailSettings.{
  Settings, settings_payload, EmailAction, test_connection, enable, disable, Which, save, preview,
  send_test, on_action, Next, after_submit, before_action, before_test, Call, put_settings,
  post_action, post_test, post_preview, Page, loading, waiting_button,
}
use secureshare.EmailSettings.Answers.{
  Saved, rejected, refused, saved, read_saved, read_action, read_test, read_preview,
}
use secureshare.EmailSettings.Events.{
  start_saving, start_action, start_preview, click_button, go_on, tells, finish_saving, finish,
  Event, type_settings, type_test, click, answer, step, run,
}
use secureshare.EmailSettings.Keeps.{
  Same, read_saved-Same, read_action-Same, read_test-Same, read_preview-Same,
}
use secureshare.EmailSettings.Waits.{OneEach, waits, same→≡, run-OneEach}
use secureshare.EmailSettings.Phases.{
  acting, acts, Moves, stays, begins_saving, begins_acting, phase_of, phase,
}
use secureshare.EmailSettings.Phases.Calls.{IsFirst, started-Moves, freed-Moves, followed-Moves}

-- A page with its invariant, and a button.
module _ (p : Page) (v : OneEach p) (b : Which) where
  at_most_one : count_if (waits b) p.pending ≤ 1
  at_most_one = let counts = v b in ground arith

  -- A click on the free button that a request waits for.
  sent-Moves :
      (c : Call)
      → IsFirst c
      → (p.buttons (waiting_button c)).disabled ≡ false
      → Moves b (phase b p.pending) (phase b (p.pending ++ c ∷ []))
  sent-Moves c first free = started-Moves b p.pending c first (λ e.
      v b
      ∙ ap one_if (ap (λ w. (p.buttons w).disabled) (sym (same→≡ (waiting_button c) b e)) ∙ free))

  start_action-Moves :
      (a : EmailAction)
      → (p.buttons (on_action a)).disabled ≡ false
      → Moves b (phase b p.pending) (phase b (start_action a p).pending)
  unfolding start_action start_saving loading
  start_action-Moves disable free =
      sent-Moves (post_action disable) (begins_acting (on_action disable) refl) free
  start_action-Moves enable free =
      sent-Moves (put_settings (settings_payload p.settings) (before_action enable))
        (begins_saving (on_action enable) refl) free
  start_action-Moves test_connection free =
      sent-Moves (put_settings (settings_payload p.settings) (before_action test_connection))
        (begins_saving (on_action test_connection) refl) free

  click_button-Moves :
      (w : Which)
      → (p.buttons w).disabled ≡ false
      → Moves b (phase b p.pending) (phase b (click_button w p).pending)
  unfolding click_button start_saving start_preview loading
  click_button-Moves save free =
      sent-Moves (put_settings (settings_payload p.settings) after_submit) (begins_saving save refl)
        free
  click_button-Moves preview free =
      let s = settings_payload p.settings in
      sent-Moves (post_preview s.default_subject s.default_message s.footer_text)
        (begins_acting preview refl) free
  click_button-Moves send_test free =
      sent-Moves (put_settings (settings_payload p.settings) (before_test p.test_to))
        (begins_saving send_test refl) free
  click_button-Moves (on_action a) free = start_action-Moves a free

  module _ (k : ℕ) where
    abbrev rest : Page
    rest = record p { pending = remove_at k p.pending }

    freed_on-Moves :
        (c : Call) (q : Page)
        → Same rest q
        → get_elem? p.pending k ≡ some c
        → Moves b (phase b p.pending) (phase b q.pending)
    freed_on-Moves c q (waiting, buttons) h = rw waiting (freed-Moves b p.pending k c h at_most_one)

    -- From the first request of a button to its second.
    followed_on-Moves :
        (s : Settings) (next : Next) (d : Call) (q : Page)
        → Same rest q
        → get_elem? p.pending k ≡ some (put_settings s next)
        → waiting_button d ≡ waiting_button (put_settings s next)
        → phase_of d ≡ acting
        → acts (waiting_button (put_settings s next)) ≡ true
        → Moves b (phase b p.pending) (phase b (q.pending ++ d ∷ []))
    followed_on-Moves s next d q (waiting, buttons) h same_button to own =
        rw waiting (
          followed-Moves b p.pending k (put_settings s next) d h same_button refl to own
            at_most_one)

    go_on-Moves :
        (s : Settings) (next : Next) (result : Saved) (q : Page)
        → Same rest q
        → get_elem? p.pending k ≡ some (put_settings s next)
        → Moves b (phase b p.pending) (phase b (go_on next result q).pending)
    unfolding go_on loading
    go_on-Moves s after_submit result q kept h =
        freed_on-Moves (put_settings s after_submit) q kept h
    go_on-Moves s (before_action a) saved q kept h =
        followed_on-Moves s (before_action a) (post_action a) q kept h refl refl refl
    go_on-Moves s (before_action a) refused q kept h =
        freed_on-Moves (put_settings s (before_action a)) q kept h
    go_on-Moves s (before_action a) rejected q kept h =
        freed_on-Moves (put_settings s (before_action a)) q kept h
    go_on-Moves s (before_test to) saved q kept h =
        followed_on-Moves s (before_test to) (post_test to) q kept h refl refl refl
    go_on-Moves s (before_test to) refused q kept h =
        freed_on-Moves (put_settings s (before_test to)) q kept h
    go_on-Moves s (before_test to) rejected q kept h =
        freed_on-Moves (put_settings s (before_test to)) q kept h

    finish-Moves :
        (call : Option Call) (reply : Reply)
        → get_elem? p.pending k ≡ call
        → Moves b (phase b p.pending) (phase b (finish call reply rest).pending)
    unfolding finish finish_saving loading
    finish-Moves none reply h = rw (remove_at-eq_none p.pending k h) (stays b (phase b p.pending))
    finish-Moves (some (put_settings s next)) reply h =
        go_on-Moves s next (read_saved (tells next) reply rest).1
          (read_saved (tells next) reply rest).0
          (read_saved-Same rest (tells next) reply rest (refl, refl)) h
    finish-Moves (some (post_action a)) reply h =
        freed_on-Moves (post_action a) (read_action a reply rest).0
          (read_action-Same rest a reply rest (refl, refl)) h
    finish-Moves (some (post_test to)) reply h =
        freed_on-Moves (post_test to) (read_test reply rest).0
          (read_test-Same rest reply rest (refl, refl)) h
    finish-Moves (some (post_preview subject message footer)) reply h =
        freed_on-Moves (post_preview subject message footer) (read_preview reply rest).0
          (read_preview-Same rest reply rest (refl, refl)) h

  step-Moves : (e : Event) → Moves b (phase b p.pending) (phase b (step p e).pending)
  unfolding step
  step-Moves (type_settings s) = stays b (phase b p.pending)
  step-Moves (type_test to) = stays b (phase b p.pending)
  step-Moves (click w) =
      either_branch (λ (q : Page). Moves b (phase b p.pending) (phase b q.pending))
        (p.buttons w).disabled p (click_button w p) (λ e. stays b (phase b p.pending))
        (λ e. click_button-Moves w e)
  step-Moves (answer k reply) = finish-Moves k (get_elem? p.pending k) reply refl

-- On a page on which each button is disabled exactly while its one request waits, after any events,
-- the next event is for each button at most one move of this machine: a free button that saves begins
-- by saving the settings, one that does not begins with its own request; only a saving that is over
-- leads to the own request of a button that has one; and from anywhere a button can end.
pub run-step-phase :
    (p : Page) (es : List Event) (e : Event) (b : Which)
    → OneEach p
    → Moves b (phase b (run p es).pending) (phase b (step (run p es) e).pending)
run-step-phase p es e b v = step-Moves (run p es) (run-OneEach es p v) b e
