-- ===== src/Tests/LinkPage.antt =====
-- The password of a link is set, and removed while another submit waits.
use secureshare.Prelude.{◌≡◌, refl, true, false, [], ◌∷◌, none, some}
use secureshare.Text.{lit}
use secureshare.Fetch.{failure, failed, answered}
use secureshare.Button.{Button}
use secureshare.Dialog.{confirm}
use secureshare.Protection.{
  Page, guidance_text, save_text, remove_failure, submit, click_remove, close_dialog, answer, run,
}
use secureshare.Protection.Laws.{Matches, run-Matches}
use secureshare.Protection.Outcomes.{stale_save_text}

abbrev save_button : Button
save_button = record {
  text = save_text true;
  original_text = none;
  loading_text = some (lit "Saving...");
  disabled = false;
}

abbrev remove_button : Button
remove_button = record {
  text = lit "Remove password";
  original_text = none;
  loading_text = none;
  disabled = false;
}

abbrev pub page : Page
page = record {
  is_protected = true;
  status = lit "Yes";
  badge = lit "Protected";
  guidance = guidance_text true;
  save = save_button;
  remove = remove_button;
  remove_hidden = false;
  error_text = [];
  password = lit "pw";
  toasts = [];
  dialog = record { is_open = false; return_value = []; title = []; message = [] };
  asking = false;
  pending = [];
}

pub page-Matches : Matches page
page-Matches = record {
  status_shown = refl;
  badge_shown = refl;
  guidance_shown = refl;
  remove_shown = refl;
  saves_waiting = refl;
  removals_waiting = refl;
  asked_free = refl;
}

run-Matches_example :
    Matches
      (run page (submit ∷ click_remove ∷ close_dialog confirm ∷ answer 1 (answered 200 none) ∷ []))
run-Matches_example =
    run-Matches (submit ∷ click_remove ∷ close_dialog confirm ∷ answer 1 (answered 200 none) ∷ [])
      page page-Matches

good : remove_failure (answered 200 none) ≡ none
unfolding failure
good = refl

stale_save_text_example :
    let q = run page (
      submit
      ∷ click_remove
      ∷ close_dialog confirm
      ∷ answer 1 (answered 200 none)
      ∷ answer 0 failed
      ∷ []) in
    (q.is_protected ≡ false) × (q.save.text ≡ save_text true)
stale_save_text_example =
    stale_save_text page (answered 200 none) failed
      (lit "Link password could not be updated. Check your connection and try again.") refl refl
      refl refl refl refl good (unfold failure in refl)
