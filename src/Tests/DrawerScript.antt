-- ===== src/Tests/DrawerScript.antt =====
-- scripts/navigation-interaction-test.js, the repository's own test of the drawer, on the model.
use secureshare.Prelude.{ℕ, ◌≡◌, refl, true, false, List, [], ◌∷◌, none, some}
use secureshare.Navigation.{
  Layout, Nav, Event, click_opener, click_backdrop, click_link, press_escape, press_tab, viewport,
  focus_moves, set_open, trap, step, run,
}

-- `document.opener`, `close` and `navLink` of the test's `FakeDocument`, and its `querySelectorAll`.
abbrev opener : ℕ
opener = 1

abbrev close_control : ℕ
close_control = 2

abbrev nav_link : ℕ
nav_link = 3

abbrev fake_document : Layout
fake_document = record {
  close_button = some close_control;
  focusable = close_control ∷ nav_link ∷ [];
}

-- The state in which the script is run: a narrow viewport, and nothing focused.
abbrev start : Nav
start = record {
  mobile = true;
  sidebar_open = false;
  body_open = false;
  expanded = false ∷ [];
  last_opener = none;
  active = none;
  user_menus = [];
}

-- What the test does between its assertions.
abbrev opening : List Event
opening = click_opener opener ∷ []

abbrev forward_tab : List Event
forward_tab = focus_moves (some nav_link) ∷ press_tab false none ∷ []

abbrev backward_tab : List Event
backward_tab = focus_moves (some close_control) ∷ press_tab true none ∷ []

abbrev escaping : List Event
escaping = press_escape ∷ []

abbrev by_backdrop : List Event
by_backdrop = click_opener opener ∷ click_backdrop ∷ []

abbrev by_link : List Event
by_link = click_opener opener ∷ click_link ∷ []

abbrev by_resize : List Event
by_resize = click_opener opener ∷ viewport false ∷ []

abbrev after : List (List Event) → Nav
after [] = start
after (es ∷ earlier) = run fake_document (after earlier) es

abbrev to_tab : List (List Event)
to_tab = forward_tab ∷ opening ∷ []

abbrev to_escape : List (List Event)
to_escape = escaping ∷ backward_tab ∷ to_tab

abbrev to_link : List (List Event)
to_link = by_link ∷ by_backdrop ∷ to_escape

-- The assertions, one after the other; those on `defaultPrevented` are that the focus is not where the
-- browser would move it.
assertions :
    let opened = after (opening ∷ []) in
    let escaped = after to_escape in
    let hidden = after (by_backdrop ∷ to_escape) in
    let chosen = after to_link in
    let resized = after (by_resize ∷ to_link) in
    (opened.sidebar_open ≡ true)
    × (opened.body_open ≡ true)
    × (opened.expanded ≡ true ∷ [])
    × (opened.active ≡ some close_control)
    × ((after to_tab).active ≡ some close_control)
    × ((after (backward_tab ∷ to_tab)).active ≡ some nav_link)
    × (escaped.sidebar_open ≡ false)
    × (escaped.body_open ≡ false)
    × (escaped.expanded ≡ false ∷ [])
    × (escaped.active ≡ some opener)
    × (hidden.sidebar_open ≡ false)
    × (hidden.active ≡ some opener)
    × (chosen.sidebar_open ≡ false)
    × (chosen.body_open ≡ false)
    × (resized.sidebar_open ≡ false)
    × (resized.body_open ≡ false)
unfolding run step set_open trap
assertions =
    (refl, refl, refl, refl, refl, refl, refl, refl, refl, refl, refl, refl, refl, refl, refl, refl)
