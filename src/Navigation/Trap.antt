-- ===== src/Navigation/Trap.antt =====
-- The drawer of web/static/admin.js: what it shows agrees, and the Tab key stays within it.
use secureshare.Prelude.{
  ℕ, ◌≡◌, refl, sym, ap, subst, ◌∙◌, if◌then◌else◌, Bool, true, false, not, ◌&&◌, ◌||◌, List, [],
  ◌∷◌, Option, none, some, map, arith, All, ◌⊎◌, inl, inr, Bool-cases, Option-cases,
}
use secureshare.Navigation.{
  Layout, Nav, focus, set_open, trap, is_active, Event, click_opener, click_close, click_backdrop,
  click_link, press_escape, press_tab, viewport, page_hide, focus_moves, menus_change, step, run,
  last_or, head?, first_of_either,
}

-- The sidebar, the body and every opener agree, and an open drawer means a narrow screen.
pub record Agrees (n : Nav) : Type 0 where
  pub body_agrees : n.body_open ≡ n.sidebar_open
  pub openers_agree : All (λ e. e ≡ n.sidebar_open) n.expanded
  pub narrow : n.sidebar_open ≡ true → n.mobile ≡ true

All-const : (b : Bool) (es : List Bool) → All (λ e. e ≡ b) (map (λ e. b) es)
All-const b [] = tt
All-const b (e ∷ es) = (refl, All-const b es)

-- The focus and the user menus are no part of it.
aside-Agrees :
    (n : Nav) (active : Option ℕ) (menus : List Bool)
    → Agrees n
    → Agrees (record n { active = active; user_menus = menus })
aside-Agrees n active menus a = record {
  body_agrees = a.body_agrees;
  openers_agree = a.openers_agree;
  narrow = a.narrow;
}

focus-Agrees : (o : Option ℕ) (n : Nav) → Agrees n → Agrees (focus o n)
focus-Agrees none n a = a
focus-Agrees (some e) n a = aside-Agrees n (some e) n.user_menus a

either-Agrees : (b : Bool) (m n : Nav) → Agrees m → Agrees n → Agrees (if b then m else n)
either-Agrees true m n a b = a
either-Agrees false m n a b = b

set_open-Agrees :
    (l : Layout) (open_it return_focus : Bool) (n : Nav)
    → Agrees (set_open l open_it return_focus n)
unfolding set_open
set_open-Agrees l open_it return_focus n =
    let should = open_it && n.mobile in
    let m = record n {
      sidebar_open = should;
      body_open = should;
      expanded = map (λ e. should) n.expanded;
    } in
    let a : Agrees m = record {
      body_agrees = refl;
      openers_agree = All-const should n.expanded;
      narrow = λ h. ground arith;
    } in
    either-Agrees should _ _ (focus-Agrees (first_of_either l.close_button (head? l.focusable)) m a)
      (either-Agrees return_focus _ _ (focus-Agrees n.last_opener m a) a)

step-Agrees : (l : Layout) (n : Nav) (e : Event) → Agrees n → Agrees (step l n e)
unfolding step
step-Agrees l n (click_opener e) a = set_open-Agrees l _ _ _
step-Agrees l n click_close a = set_open-Agrees l _ _ _
step-Agrees l n click_backdrop a = set_open-Agrees l _ _ _
step-Agrees l n click_link a = set_open-Agrees l _ _ _
step-Agrees l n press_escape a =
    either-Agrees n.sidebar_open _ _ (set_open-Agrees l false true _)
      (aside-Agrees n n.active (map (λ b. false) n.user_menus) a)
step-Agrees l n (press_tab shift target) a =
    elim (Bool-cases (not n.mobile || not n.sidebar_open)) [
      | inl free ↦ rw free (aside-Agrees n target n.user_menus a)
      | inr held ↦ elim (Option-cases (trap shift n.active l.focusable)) [
        | inl e ↦ rw held (rw (e, step) (aside-Agrees n target n.user_menus a))
        | inr (t, e) ↦ rw held (rw (e, step) (aside-Agrees n (some t) n.user_menus a))
      ]
    ]
step-Agrees l n (viewport true) a = record {
  body_agrees = a.body_agrees;
  openers_agree = a.openers_agree;
  narrow = λ h. refl;
}
step-Agrees l n (viewport false) a = set_open-Agrees l _ _ _
step-Agrees l n page_hide a = set_open-Agrees l _ _ _
step-Agrees l n (focus_moves e) a = aside-Agrees n e n.user_menus a
step-Agrees l n (menus_change bs) a = aside-Agrees n n.active bs a

-- If the sidebar, the body and the openers agree, and an open drawer means a narrow screen, then so
-- they do after any events.
pub run-Agrees : (l : Layout) (es : List Event) (n : Nav) → Agrees n → Agrees (run l n es)
unfolding run
run-Agrees l [] n a = a
run-Agrees l (e ∷ es) n a = run-Agrees l es (step l n e) (step-Agrees l n e a)

abbrev pub Mem : ℕ → List ℕ → Type 0
Mem e [] = ⊥
Mem e (x ∷ xs) = (e ≡ x) ⊎ Mem e xs

abbrev pub Within : Option ℕ → List ℕ → Type 0
Within none es = ⊥
Within (some e) es = Mem e es

Mem-last_or : (x : ℕ) (xs : List ℕ) → Mem (last_or x xs) (x ∷ xs)
Mem-last_or x [] = inl refl
Mem-last_or x (y ∷ ys) = inr (Mem-last_or y ys)

trap_values :
    (shift : Bool) (active : Option ℕ) (first : ℕ) (rest : List ℕ) (t : ℕ)
    → trap shift active (first ∷ rest) ≡ some t
    → (t ≡ first) ⊎ (t ≡ last_or first rest)
unfolding trap
trap_values shift active first rest t h = ground arith

trap-Mem :
    (shift : Bool) (active : Option ℕ) (es : List ℕ) (t : ℕ)
    → trap shift active es ≡ some t
    → Mem t es
unfolding trap
trap-Mem shift active [] t h = ground arith
trap-Mem shift active (first ∷ rest) t h = elim (trap_values shift active first rest t h) [
  | inl e ↦ inl e
  | inr e ↦ subst (λ t. Mem t (first ∷ rest)) (sym e) (Mem-last_or first rest)
]

is_active_self : (e : ℕ) (o : Option ℕ) → o ≡ some e → is_active e o ≡ true
is_active_self e o h = ground arith

trap_wraps :
    (first : ℕ) (rest : List ℕ) (active : Option ℕ)
    → (active ≡ some (last_or first rest) → trap false active (first ∷ rest) ≡ some first)
      × (active ≡ some first → trap true active (first ∷ rest) ≡ some (last_or first rest))
unfolding trap
trap_wraps first rest active = (
  λ h. rw (is_active_self (last_or first rest) active h) refl,
  λ h. rw (is_active_self first active h) refl,
)

-- In an open drawer on a narrow screen, Tab on the last of the elements goes to the first, wherever
-- the browser would have gone.
pub tab_wraps :
    (l : Layout) (n : Nav) (first : ℕ) (rest : List ℕ) (target : Option ℕ)
    → n.mobile ≡ true
    → n.sidebar_open ≡ true
    → l.focusable ≡ first ∷ rest
    → n.active ≡ some (last_or first rest)
    → (step l n (press_tab false target)).active ≡ some first
unfolding step
tab_wraps l n first rest target m o f h =
    let forth = (trap_wraps first rest n.active).0 h in
    rw (m, o) (rw (ap (trap false n.active) f ∙ forth, step) refl)

-- In an open drawer on a narrow screen, Shift with Tab on the first of the elements goes to the last,
-- wherever the browser would have gone.
pub shift_tab_wraps :
    (l : Layout) (n : Nav) (first : ℕ) (rest : List ℕ) (target : Option ℕ)
    → n.mobile ≡ true
    → n.sidebar_open ≡ true
    → l.focusable ≡ first ∷ rest
    → n.active ≡ some first
    → (step l n (press_tab true target)).active ≡ some (last_or first rest)
unfolding step
shift_tab_wraps l n first rest target m o f h =
    let back = (trap_wraps first rest n.active).1 h in
    rw (m, o) (rw (ap (trap true n.active) f ∙ back, step) refl)

-- In an open drawer on a narrow screen, if the browser's own move of the focus, where the script leaves it the key, is
-- to an element of the drawer, then the focus is within the drawer after Tab, Shift or not.
pub tab_stays :
    (l : Layout) (n : Nav) (shift : Bool) (target : Option ℕ)
    → n.mobile ≡ true
    → n.sidebar_open ≡ true
    → (trap shift n.active l.focusable ≡ none → Within target l.focusable)
    → Within (step l n (press_tab shift target)).active l.focusable
unfolding step
tab_stays l n shift target m o h = elim (Option-cases (trap shift n.active l.focusable)) [
  | inl e ↦ rw (m, o) (rw (e, step) (h e))
  | inr (t, e) ↦ rw (m, o) (rw (e, step) (trap-Mem shift n.active l.focusable t e))
]
