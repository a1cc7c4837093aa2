-- ===== src/EmailSettings/Phases.antt =====
-- The life of a button of the email settings, as a machine of three phases: `setupEmailSettings` of
-- web/static/admin.js.
pub mod Calls
pub mod Steps
use secureshare.Prelude.{
  ℕ, zero, suc, ◌+◌, ◌≡◌, ◌≤◌, refl, sym, ◌∙◌, ap, subst, Bool, true, false, List, [], ◌∷◌, ◌++◌,
  Option, none, some, arith, Bool-cases, inl, inr, count_if, count_if-append, count_if-remove_at,
  one_if, remove_at, remove_at-eq_none, get_elem?, if◌then◌else◌, either_branch,
}
use secureshare.Fetch.{Reply}
use secureshare.EmailSettings.{
  Settings, settings_payload, EmailAction, test_connection, enable, disable, Which, save, preview,
  send_test, on_action, Next, after_submit, before_action, before_test, Call, put_settings,
  post_action, post_test, post_preview, Page, loading, index, same, waiting_button,
}
use secureshare.EmailSettings.Answers.{
  Saved, rejected, refused, saved, read_saved, read_action, read_test, read_preview,
}
use secureshare.EmailSettings.Events.{
  start_saving, start_action, start_preview, click_button, go_on, tells, finish_saving, finish,
  Event, type_settings, type_test, click, answer, step, run,
}
use secureshare.EmailSettings.Keeps.{
  Same, read_saved-Same, read_action-Same, read_test-Same, read_preview-Same,
}
use secureshare.EmailSettings.Waits.{OneEach, waits, same→≡, run-OneEach}

-- Nothing is under way; the settings are being saved; the button's own request is under way.
pub data Phase : Type 0 where
  idle saving acting : Phase

-- Whether a button saves the settings, and whether it has a request of its own.
abbrev pub saves : Which → Bool
saves preview = false
saves (on_action disable) = false
saves _ = true

abbrev pub acts : Which → Bool
acts save = false
acts _ = true

-- One move of a button, or none.
pub data Moves : Which → Phase → Phase → Type 0 where
  stays : (b : Which) (s : Phase) → Moves b s s
  begins_saving : (b : Which) → saves b ≡ true → Moves b idle saving
  begins_acting : (b : Which) → saves b ≡ false → Moves b idle acting
  goes_on : (b : Which) → acts b ≡ true → Moves b saving acting
  ends : (b : Which) (s : Phase) → Moves b s idle

abbrev pub phase_of : Call → Phase
phase_of (put_settings s next) = saving
phase_of _ = acting

-- The phase of a button, by the first request that it waits for.
abbrev pub phase : Which → List Call → Phase
phase b [] = idle
phase b (c ∷ cs) = let rest = phase b cs in if waits b c then phase_of c else rest

module _ (b : Which) where
  pub phase-idle : (cs : List Call) → count_if (waits b) cs ≡ 0 → phase b cs ≡ idle
  phase-idle [] h = refl
  phase-idle (c ∷ cs) h = elim (Bool-cases (waits b c)) [
    | inl e ↦ ground arith
    | inr e ↦ rw e (phase-idle cs (ground arith))
  ]

  pub phase-append :
      (cs : List Call) (c : Call)
      → waits b c ≡ true
      → count_if (waits b) cs ≡ 0
      → phase b (cs ++ c ∷ []) ≡ phase_of c
  phase-append [] c w h = rw w refl
  phase-append (d ∷ cs) c w h = elim (Bool-cases (waits b d)) [
    | inl e ↦ ground arith
    | inr e ↦ rw e (phase-append cs c w (ground arith))
  ]

  pub phase-append_other :
      (cs : List Call) (c : Call) → waits b c ≡ false → phase b (cs ++ c ∷ []) ≡ phase b cs
  phase-append_other [] c w = rw w refl
  phase-append_other (d ∷ cs) c w = elim (Bool-cases (waits b d)) [
    | inl e ↦ rw e refl
    | inr e ↦ rw e (phase-append_other cs c w)
  ]

  pub phase-remove_at_other :
      (cs : List Call) (k : ℕ) (c : Call)
      → get_elem? cs k ≡ some c
      → waits b c ≡ false
      → phase b (remove_at k cs) ≡ phase b cs
  phase-remove_at_other [] k c h w = cc
  phase-remove_at_other (d ∷ cs) zero c h w =
      let at : d ≡ c = cc in let other : waits b d ≡ false = ap (waits b) at ∙ w in rw other refl
  phase-remove_at_other (d ∷ cs) (suc k) c h w = elim (Bool-cases (waits b d)) [
    | inl e ↦ rw e refl
    | inr e ↦ rw e (phase-remove_at_other cs k c h w)
  ]

  -- Where the button waits for no other request.
  pub phase-at :
      (cs : List Call) (k : ℕ) (c : Call)
      → get_elem? cs k ≡ some c
      → waits b c ≡ true
      → count_if (waits b) cs ≤ 1
      → phase b cs ≡ phase_of c
  phase-at [] k c h w one = cc
  phase-at (d ∷ cs) zero c h w one =
      let at : d ≡ c = cc in
      let own : waits b d ≡ true = ap (waits b) at ∙ w in rw own (ap phase_of at)
  phase-at (d ∷ cs) (suc k) c h w one = elim (Bool-cases (waits b d)) [
    | inl e ↦ let less = count_if-remove_at (waits b) cs k c h in ground arith
    | inr e ↦ rw e (phase-at cs k c h w (ground arith))
  ]
