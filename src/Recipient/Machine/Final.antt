-- ===== src/Recipient/Machine/Final.antt =====
-- The final states of web/static/reveal.js.
use secureshare.Prelude.{◌≡◌, refl, sym, subst, ◌∙◌, List, [], ◌∷◌, Option}
use secureshare.Text.{Text}
use secureshare.Time.{Calendar}
use secureshare.Recipient.{Copy, Page, State, revealed, unavailable}
use secureshare.Recipient.Events.{Event, step, run, opened}
use secureshare.Recipient.Invariant.{Inv}
use secureshare.Recipient.Events.Keeps.{run-opened-Inv, step-Inv}
use secureshare.Recipient.Machine.{
  Moves, stays, offers, finds_gone, cannot_ask, asks, asks_again, refuses, shows_secret, is_gone,
  is_cut_off, prepares, repeats, gives_up, step-Moves,
}

abbrev pub IsFinal : State → Type 0
IsFinal revealed = Unit
IsFinal unavailable = Unit
IsFinal _ = ⊥

Moves-final : (s t : State) → IsFinal s → Moves s t → t ≡ s
Moves-final _ _ f (stays s) = refl
Moves-final _ _ f offers = absurd f
Moves-final _ _ f finds_gone = absurd f
Moves-final _ _ f cannot_ask = absurd f
Moves-final _ _ f asks = absurd f
Moves-final _ _ f asks_again = absurd f
Moves-final _ _ f refuses = absurd f
Moves-final _ _ f shows_secret = absurd f
Moves-final _ _ f is_gone = absurd f
Moves-final _ _ f is_cut_off = absurd f
Moves-final _ _ f prepares = absurd f
Moves-final _ _ f repeats = absurd f
Moves-final _ _ f gives_up = absurd f

module _ (cal : Calendar) (c : Copy) where
  run_final :
      (p : Page) (es : List Event)
      → Inv p
      → IsFinal p.current
      → (run cal c p es).current ≡ p.current
  unfolding run
  run_final p [] v f = refl
  run_final p (e ∷ es) v f =
      let same = Moves-final p.current _ f (step-Moves cal c p v e) in
      run_final (step cal c p e) es (step-Inv cal c p v e) (subst IsFinal (sym same) f) ∙ same

  -- Once a page shows its secret, or that the link is not available, it does so whatever happens.
  pub run-run_final :
      (loading_text : Option Text) (fragment : Text) (es later : List Event)
      → let p = run cal c (opened c loading_text fragment) es in
        IsFinal p.current → (run cal c p later).current ≡ p.current
  run-run_final loading_text fragment es later f =
      run_final _ later (run-opened-Inv cal c loading_text fragment es) f
