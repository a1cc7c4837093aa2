-- ===== src/EmailSettings/Phases/Calls.antt =====
-- What a request that comes or goes means for the phase of a button of the email settings,
-- `setupEmailSettings` of web/static/admin.js.
use secureshare.Prelude.{
  ℕ, ◌≡◌, ◌≤◌, sym, ◌∙◌, ap, subst, true, List, [], ◌∷◌, ◌++◌, some, arith, Bool-cases, inl, inr,
  count_if, count_if-remove_at, remove_at, get_elem?,
}
use secureshare.EmailSettings.{Call, Which, same, waiting_button}
use secureshare.EmailSettings.Waits.{waits, same→≡}
use secureshare.EmailSettings.Phases.{
  idle, saving, acting, acts, Moves, stays, goes_on, ends, phase_of, phase, phase-idle,
  phase-append, phase-append_other, phase-remove_at_other, phase-at,
}

-- The request that a click on a free button sends: the first of its kind.
abbrev pub IsFirst : Call → Type 0
IsFirst c = Moves (waiting_button c) idle (phase_of c)

module _ (b : Which) (cs : List Call) where
  pub started-Moves :
      (c : Call)
      → IsFirst c
      → (waits b c ≡ true → count_if (waits b) cs ≡ 0)
      → Moves b (phase b cs) (phase b (cs ++ c ∷ []))
  started-Moves c first free = elim (Bool-cases (waits b c)) [
    | inl e ↦
        rw (phase-idle b cs (free e), phase-append b cs c e (free e))
          (subst (λ w. Moves w idle (phase_of c)) (same→≡ (waiting_button c) b e) first)
    | inr e ↦ rw (phase-append_other b cs c e) (stays b (phase b cs))
  ]

  pub freed-Moves :
      (k : ℕ) (c : Call)
      → get_elem? cs k ≡ some c
      → count_if (waits b) cs ≤ 1
      → Moves b (phase b cs) (phase b (remove_at k cs))
  freed-Moves k c h one = elim (Bool-cases (waits b c)) [
    | inl e ↦
        let less = count_if-remove_at (waits b) cs k c h in
        rw (phase-idle b (remove_at k cs) (ground arith)) (ends b (phase b cs))
    | inr e ↦ rw (phase-remove_at_other b cs k c h e) (stays b (phase b cs))
  ]

  pub followed-Moves :
      (k : ℕ) (c d : Call)
      → get_elem? cs k ≡ some c
      → waiting_button d ≡ waiting_button c
      → phase_of c ≡ saving
      → phase_of d ≡ acting
      → acts (waiting_button c) ≡ true
      → count_if (waits b) cs ≤ 1
      → Moves b (phase b cs) (phase b (remove_at k cs ++ d ∷ []))
  followed-Moves k c d h same_button from to own one =
      let as_c : waits b d ≡ waits b c = ap (λ w. same w b) same_button in
      elim (Bool-cases (waits b c)) [
        | inl e ↦
            let less = count_if-remove_at (waits b) cs k c h in
            let alone : count_if (waits b) (remove_at k cs) ≡ 0 = ground arith in
            let own_b : acts b ≡ true = ap acts (sym (same→≡ (waiting_button c) b e)) ∙ own in
            rw
              (
                phase-at b cs k c h e one ∙ from,
                phase-append b (remove_at k cs) d (as_c ∙ e) alone ∙ to,
              )
              (goes_on b own_b)
        | inr e ↦
            rw
              (
                phase-append_other b (remove_at k cs) d (as_c ∙ e),
                phase-remove_at_other b cs k c h e,
              )
              (stays b (phase b cs))
      ]
