-- ===== src/Theme/Laws.antt =====
-- The theme button of web/static/admin.js shows the theme of the page, and asks for known themes.
use secureshare.Prelude.{
  ℕ, zero, suc, ◌≡◌, ◌≢◌, refl, sym, ◌∙◌, subst, true, false, List, [], ◌∷◌, Option, none, some,
  arith, inl, inr, ◌⊎◌, Bool-cases, All, text_eq, text_eq_iff,
}
use secureshare.Text.{Text, lit}
use secureshare.Json.{string, object, end, field, Value, prop, lookup}
use secureshare.Fetch.{Reply, answered, failure}
use secureshare.Button.{set_button_loading}
use secureshare.Button.Laws.{set_button_loading_lem}
use secureshare.Theme.{
  themes, includes, index_of, current_theme, next_theme, Page, Saved, told, saved, read_answer,
  start_theme, take_answer, Event, click, answer, theme_text, show_theme, apply_saved, finish_theme,
  step, run,
}

-- The current theme is a known one, that of the page if this is known.
current_theme_cases :
    (o : Option Text)
    → let t = current_theme o in (t ≡ lit "system") ⊎ (t ≡ lit "light") ⊎ (t ≡ lit "dark")
unfolding current_theme includes
current_theme_cases none = inl refl
current_theme_cases (some t) = elim (Bool-cases (text_eq (lit "system") t)) [
  | inl a ↦ rw a (inl (sym ((text_eq_iff (lit "system") t).0 a)))
  | inr a ↦ elim (Bool-cases (text_eq (lit "light") t)) [
    | inl b ↦ rw (a, b) (inr (inl (sym ((text_eq_iff (lit "light") t).0 b))))
    | inr b ↦ elim (Bool-cases (text_eq (lit "dark") t)) [
      | inl c ↦ rw (a, b, c) (inr (inr (sym ((text_eq_iff (lit "dark") t).0 c))))
      | inr c ↦ rw (a, b, c) (inl refl)
    ]
  ]
]

next_theme-known : (o : Option Text) → includes themes (next_theme o) ≡ true
unfolding next_theme index_of includes text_eq
next_theme-known o = elim (current_theme_cases o) [
  | inl e ↦ rw e refl
  | inr (inl e) ↦ rw e refl
  | inr (inr e) ↦ rw e refl
]

current_theme-known : (t : Text) → includes themes t ≡ true → current_theme (some t) ≡ t
unfolding current_theme
current_theme-known t h = rw h refl

-- Three steps through the themes end where they began.
next_theme_thrice :
    (t : Text)
    → includes themes t ≡ true
    → next_theme (some (next_theme (some (next_theme (some t))))) ≡ t
unfolding next_theme index_of includes text_eq current_theme
next_theme_thrice t h = elim (current_theme_cases (some t)) [
  | inl e ↦
      subst (λ u. next_theme (some (next_theme (some (next_theme (some u))))) ≡ u)
        (sym (sym (current_theme-known t h) ∙ e)) refl
  | inr (inl e) ↦
      subst (λ u. next_theme (some (next_theme (some (next_theme (some u))))) ≡ u)
        (sym (sym (current_theme-known t h) ∙ e)) refl
  | inr (inr e) ↦
      subst (λ u. next_theme (some (next_theme (some (next_theme (some u))))) ≡ u)
        (sym (sym (current_theme-known t h) ∙ e)) refl
]

-- The three themes, each of which is in a list.
abbrev pub HoldsAll : List Text → Type 0
HoldsAll ts =
    (includes ts (lit "system") ≡ true)
    × (includes ts (lit "light") ≡ true)
    × (includes ts (lit "dark") ≡ true)

-- A known theme and the two that follow it are all three.
next_theme-HoldsAll :
    (t : Text)
    → includes themes t ≡ true
    → let u = next_theme (some t) in HoldsAll (t ∷ next_theme (some u) ∷ u ∷ [])
unfolding next_theme index_of includes text_eq current_theme
next_theme-HoldsAll t h = elim (current_theme_cases (some t)) [
  | inl e ↦ subst After (sym (sym (current_theme-known t h) ∙ e)) (refl, refl, refl)
  | inr (inl e) ↦ subst After (sym (sym (current_theme-known t h) ∙ e)) (refl, refl, refl)
  | inr (inr e) ↦ subst After (sym (sym (current_theme-known t h) ∙ e)) (refl, refl, refl)
]
  where
    After : Text → Type 0
    After w = let x = next_theme (some w) in HoldsAll (w ∷ next_theme (some x) ∷ x ∷ [])

module _ (upper : ℕ → Text) where
  apply_saved-sent : (v : Value) (p : Page) → (apply_saved upper v p).sent ≡ p.sent
  unfolding apply_saved show_theme
  apply_saved-sent (some (string [])) p = refl
  apply_saved-sent (some (string (c ∷ s))) p = refl
  apply_saved-sent v p = ground arith

  finish_theme-sent : (r : Saved) (p : Page) → (finish_theme upper r p).sent ≡ p.sent
  unfolding finish_theme
  finish_theme-sent (told t) p = refl
  finish_theme-sent (saved v) p = apply_saved-sent v _

  take_answer-sent :
      (n : ℕ) (reply : Reply) (p : Page) → (take_answer upper n reply p).sent ≡ p.sent
  take_answer-sent zero reply p = refl
  take_answer-sent (suc n) reply p = finish_theme-sent (read_answer reply) _

  step-sent :
      (p : Page) (e : Event)
      → All (λ t. includes themes t ≡ true) p.sent
      → All (λ t. includes themes t ≡ true) (step upper p e).sent
  unfolding step start_theme
  step-sent p click h = ground (arith, next_theme-known p.theme)
  step-sent p (answer reply) h =
      subst (All (λ t. includes themes t ≡ true)) (sym (take_answer-sent p.pending reply p)) h

  -- From a page that has asked for known themes only, every theme that is ever asked for is one of
  -- `system`, `light` and `dark`, whatever the page's theme and the answers are.
  pub run-sent_known :
      (es : List Event) (p : Page)
      → All (λ t. includes themes t ≡ true) p.sent
      → All (λ t. includes themes t ≡ true) (run upper p es).sent
  unfolding run
  run-sent_known [] p h = h
  run-sent_known (e ∷ es) p h = run-sent_known es (step upper p e) (step-sent p e h)

  -- An answer that saves this theme.
  abbrev pub echo : Text → Event
  echo t = answer (answered 200 (some (object (field (lit "theme") (string t) end))))

  -- The button is free, and the page has this theme.
  abbrev pub Rests : Text → Page → Type 0
  Rests t p = (p.theme ≡ some t) × (p.button.disabled ≡ false) × (p.pending ≡ 0)

  -- A click on a free button, and an answer that saves the theme `u`.
  saved_round :
      (t u : Text) (p : Page)
      → Rests t p
      → u ≢ []
      → let q = run upper p (click ∷ echo u ∷ []) in
        Rests u q × (q.button.text ≡ theme_text upper u) × (q.sent ≡ next_theme (some t) ∷ p.sent)
  unfolding run step start_theme read_answer failure finish_theme apply_saved show_theme prop lookup
      set_button_loading text_eq
  saved_round t [] p r h = absurd (h refl)
  saved_round t (c ∷ s) p (at, free, none_waits) h =
      rw (free, none_waits) ((refl, refl, refl), refl, rw at)

  known-ne_nil : (t : Text) → includes themes t ≡ true → t ≢ []
  unfolding includes text_eq
  known-ne_nil [] h = λ e. cc
  known-ne_nil (c ∷ s) h = λ e. cc

  -- From a free button on a page with a known theme, three clicks whose answers save what they ask
  -- for go once through the themes: the three requests ask for `system`, `light` and `dark`, each
  -- once, and the page has its theme again, with the
  -- button free and showing it.
  pub three_rounds :
      (t : Text) (p : Page)
      → includes themes t ≡ true
      → Rests t p
      → let u = next_theme (some t) in
        let v = next_theme (some u) in
        let q = run upper p (click ∷ echo u ∷ click ∷ echo v ∷ click ∷ echo t ∷ []) in
        Rests t q
        × (q.button.text ≡ theme_text upper t)
        × (q.sent ≡ t ∷ v ∷ u ∷ p.sent)
        × HoldsAll (t ∷ v ∷ u ∷ [])
  unfolding run
  three_rounds t p known rests =
      let u = next_theme (some t) in
      let v = next_theme (some u) in
      let p' = run upper p (click ∷ echo u ∷ []) in
      let p'' = run upper p' (click ∷ echo v ∷ []) in
      let (r', _, s') = saved_round t u p rests (known-ne_nil u (next_theme-known (some t))) in
      let (r'', _, s'') = saved_round u v p' r' (known-ne_nil v (next_theme-known (some u))) in
      let (r, shown, s) = saved_round v t p'' r'' (known-ne_nil t known) in
      (r, shown, rw (s, s'', s', next_theme_thrice t known), next_theme-HoldsAll t known)

  -- From a free button with a text, a click whose answer only leaves a message keeps the theme and
  -- the button's text, frees the button, and shows the message.
  pub refused_round :
      (p : Page) (reply : Reply) (m : Text)
      → p.button.disabled ≡ false
      → p.pending ≡ 0
      → p.button.text ≢ []
      → read_answer reply ≡ told m
      → let q = run upper p (click ∷ answer reply ∷ []) in
        (q.theme ≡ p.theme)
        × (q.button.text ≡ p.button.text)
        × (q.button.disabled ≡ false)
        × (q.toasts ≡ m ∷ p.toasts)
  unfolding run step start_theme finish_theme
  refused_round p reply m free none_waits named e =
      let (_, same, enabled) =
        set_button_loading_lem (record p.button { disabled = false }) named in
      rw (free, none_waits) (rw (e, finish_theme) (refl, same, enabled, refl))
