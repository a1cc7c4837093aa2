-- ===== src/Navigation.antt =====
-- `setupNavigation` of web/static/admin.js on a page that has a sidebar: the drawer of narrow screens
-- and its focus trap. Elements are numbers; those that the script finds are given by `Layout`.
pub mod Trap
use secureshare.Prelude.{
  ℕ, Bool, true, false, not, ◌&&◌, ◌||◌, List, [], ◌∷◌, Option, none, some, map, ◌==◌,
  if◌then◌else◌,
}

pub record Layout : Type 0 where
  -- `[data-menu-close]` within the sidebar, the first.
  pub close_button : Option ℕ
  -- `focusableElements()`, in document order.
  pub focusable : List ℕ

pub record Nav : Type 0 where
  pub mobile : Bool  -- `mobileViewport.matches`
  pub sidebar_open : Bool
  pub body_open : Bool  -- `navigation-open` on the body
  pub expanded : List Bool  -- `aria-expanded` of each opener
  pub last_opener : Option ℕ
  pub active : Option ℕ  -- `document.activeElement`
  pub user_menus : List Bool  -- which user menus are open

abbrev pub head? : List ℕ → Option ℕ
head? [] = none
head? (x ∷ xs) = some x

abbrev pub last_or : ℕ → List ℕ → ℕ
last_or x [] = x
last_or x (y ∷ ys) = last_or y ys

-- `target?.focus()`.
abbrev pub focus : Option ℕ → Nav → Nav
focus none n = n
focus (some e) n = record n { active = some e }

abbrev pub first_of_either : Option ℕ → Option ℕ → Option ℕ
first_of_either none o = o
first_of_either (some e) o = some e

unfoldable pub set_open : Layout → Bool → Bool → Nav → Nav
set_open l open_it return_focus n =
    let should_open = open_it && n.mobile in
    let m = record n {
      sidebar_open = should_open;
      body_open = should_open;
      expanded = map (λ e. should_open) n.expanded;
    } in
    if should_open
    then focus (first_of_either l.close_button (head? l.focusable)) m
    else if return_focus
    then focus n.last_opener m
    else m

abbrev is_active : ℕ → Option ℕ → Bool
is_active e none = false
is_active e (some a) = a == e

-- The target of the trap for the Tab key, if it takes the key from the browser.
unfoldable pub trap : Bool → Option ℕ → List ℕ → Option ℕ
trap shift active [] = none
trap shift active (first ∷ rest) =
    let last = last_or first rest in
    if shift && is_active first active
    then some last
    else if not shift && is_active last active
    then some first
    else none

pub data Event : Type 0 where
  -- A click on the opener with this element.
  click_opener : ℕ → Event
  click_close click_backdrop click_link : Event
  press_escape : Event
  -- Tab, with Shift or not, and where the browser would move the focus.
  press_tab : Bool → Option ℕ → Event
  -- The media query changes to this value.
  viewport : Bool → Event
  page_hide : Event
  -- The reader puts the focus elsewhere, or opens a user menu.
  focus_moves : Option ℕ → Event
  menus_change : List Bool → Event

unfoldable pub step : Layout → Nav → Event → Nav
step l n (click_opener e) = set_open l (not n.sidebar_open) true (record n { last_opener = some e })
step l n click_close = set_open l false true n
step l n click_backdrop = set_open l false true n
step l n click_link = set_open l false false n
step l n press_escape =
    let m = record n { user_menus = map (λ b. false) n.user_menus } in
    if n.sidebar_open then set_open l false true m else m
step l n (press_tab shift target) =
    if not n.mobile || not n.sidebar_open
    then record n { active = target }
    else elim (trap shift n.active l.focusable) [
      | none ↦ record n { active = target }
      | some e ↦ record n { active = some e }
    ]
step l n (viewport matches) =
    let m = record n { mobile = matches } in if matches then m else set_open l false false m
step l n page_hide = set_open l false false n
step l n (focus_moves e) = record n { active = e }
step l n (menus_change bs) = record n { user_menus = bs }

unfoldable pub run : Layout → Nav → List Event → Nav
run l n [] = n
run l n (e ∷ es) = run l (step l n e) es
