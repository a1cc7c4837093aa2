-- ===== src/Tests/Drawer.antt =====
-- A narrow screen with a drawer of three links.
use secureshare.Prelude.{◌≡◌, refl, true, false, [], ◌∷◌, none, some}
use secureshare.Navigation.{Layout, Nav, click_opener, viewport, run, trap}
use secureshare.Navigation.Trap.{Agrees, run-Agrees}

abbrev layout : Layout
layout = record { close_button = some 1; focusable = 1 ∷ 2 ∷ 3 ∷ [] }

abbrev closed : Nav
closed = record {
  mobile = true;
  sidebar_open = false;
  body_open = false;
  expanded = false ∷ [];
  last_opener = none;
  active = none;
  user_menus = [];
}

abbrev opened : Nav
opened = record closed {
  sidebar_open = true;
  body_open = true;
  expanded = true ∷ [];
  last_opener = some 9;
  active = some 3;
}

run-Agrees_example : Agrees (run layout closed (click_opener 9 ∷ viewport false ∷ []))
run-Agrees_example =
    run-Agrees layout (click_opener 9 ∷ viewport false ∷ []) closed
      (record { body_agrees = refl; openers_agree = (refl, tt); narrow = λ e. refl })

at_end : trap false (some 3) (1 ∷ 2 ∷ 3 ∷ []) ≡ some 1
unfolding trap
at_end = refl
