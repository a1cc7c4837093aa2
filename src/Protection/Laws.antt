-- ===== src/Protection/Laws.antt =====
-- The page of a link keeps to one account of its password: `setupPasswordProtection` of
-- web/static/admin.js.
use secureshare.Prelude.{
  ℕ, zero, suc, ◌+◌, ◌≡◌, refl, Bool, true, false, not, ◌&&◌, ◌||◌, List, [], ◌∷◌, ◌++◌, Option,
  none, some, arith, inl, inr, Option-cases, get_elem?, remove_at, if◌then◌else◌,
}
use secureshare.Text.{lit}
use secureshare.Fetch.{Reply}
use secureshare.Button.{set_button_loading}
use secureshare.Dialog
use secureshare.Dialog.{Dialog, Closing, cancel, confirm, escape, is_confirmed}
use secureshare.Protection.{
  Call, put_password, delete_password, Page, guidance_text, update_protection_ui, start_save,
  start_remove, save_failure, remove_failure, finish_save, finish_remove, Event, submit,
  click_remove, close_dialog, ask_remove, resume, type_password, answer, finish, step, run,
}

-- How many submits, and how many removals, wait for an answer.
abbrev pub saves : List Call → ℕ
saves [] = 0
saves (put_password w b ∷ cs) = suc (saves cs)
saves (delete_password ∷ cs) = saves cs

abbrev pub removals : List Call → ℕ
removals [] = 0
removals (put_password w b ∷ cs) = removals cs
removals (delete_password ∷ cs) = suc (removals cs)

abbrev pub one_if : Bool → ℕ
one_if b = if b then 1 else 0

-- The line, the badge, the guidance and the remove button show whether the link is protected; a
-- button is disabled exactly while its one request waits; while the handler of the
-- remove button waits for the dialog, its button is free.
pub record Matches (p : Page) : Type 0 where
  pub status_shown : p.status ≡ (if p.is_protected then lit "Yes" else lit "No")
  pub badge_shown : p.badge ≡ (if p.is_protected then lit "Protected" else lit "Not protected")
  pub guidance_shown : p.guidance ≡ guidance_text p.is_protected
  pub remove_shown : p.remove_hidden ≡ not p.is_protected
  pub saves_waiting : saves p.pending ≡ one_if p.save.disabled
  pub removals_waiting : removals p.pending ≡ one_if p.remove.disabled
  pub asked_free : (p.asking && p.remove.disabled) ≡ false

saves-append : (cs : List Call) (c : Call) → saves (cs ++ c ∷ []) ≡ saves cs + saves (c ∷ [])
saves-append [] c = omega arith
saves-append (put_password w b ∷ cs) c = omega (arith, saves-append cs c)
saves-append (delete_password ∷ cs) c = saves-append cs c

removals-append :
    (cs : List Call) (c : Call) → removals (cs ++ c ∷ []) ≡ removals cs + removals (c ∷ [])
removals-append [] c = omega arith
removals-append (put_password w b ∷ cs) c = removals-append cs c
removals-append (delete_password ∷ cs) c = omega (arith, removals-append cs c)

-- What the call at a position adds to the counts.
taken :
    (cs : List Call) (i : ℕ) (c : Call)
    → get_elem? cs i ≡ some c
    → (saves cs ≡ saves (c ∷ []) + saves (remove_at i cs))
      × (removals cs ≡ removals (c ∷ []) + removals (remove_at i cs))
taken [] i c h = cc
taken (d ∷ cs) zero (put_password w b) h = ground arith
taken (d ∷ cs) zero delete_password h = ground arith
taken (put_password w b ∷ cs) (suc i) c h = let (s, r) = taken cs i c h in (omega arith, r)
taken (delete_password ∷ cs) (suc i) c h = let (s, r) = taken cs i c h in (s, omega arith)

not_taken : (cs : List Call) (i : ℕ) → get_elem? cs i ≡ none → remove_at i cs ≡ cs
not_taken [] i h = refl
not_taken (c ∷ cs) zero h = cc
not_taken (c ∷ cs) (suc i) h = rw (not_taken cs i h)

-- The part of `Matches` that the requests have no say in.
abbrev Shows : Page → Type 0
Shows p =
    (p.status ≡ (if p.is_protected then lit "Yes" else lit "No"))
    × (p.badge ≡ (if p.is_protected then lit "Protected" else lit "Not protected"))
    × (p.guidance ≡ guidance_text p.is_protected)
    × (p.remove_hidden ≡ not p.is_protected)

abbrev IsFree : Page → Type 0
IsFree p = (p.asking && p.remove.disabled) ≡ false

Matches-of :
    (p : Page)
    → Shows p
    → saves p.pending ≡ one_if p.save.disabled
    → removals p.pending ≡ one_if p.remove.disabled
    → IsFree p
    → Matches p
Matches-of p (s, b, g, h) sv rm free = record {
  status_shown = s;
  badge_shown = b;
  guidance_shown = g;
  remove_shown = h;
  saves_waiting = sv;
  removals_waiting = rm;
  asked_free = free;
}

shows : (p : Page) → Matches p → Shows p
shows p m = (m.status_shown, m.badge_shown, m.guidance_shown, m.remove_shown)

finish_save-Matches :
    (was : Bool) (reply : Reply) (p : Page)
    → Shows p
    → saves p.pending ≡ 0
    → removals p.pending ≡ one_if p.remove.disabled
    → IsFree p
    → Matches (finish_save was reply p)
unfolding finish_save update_protection_ui set_button_loading
finish_save-Matches was reply p s sv rm free = elim (Option-cases (save_failure reply)) [
  | inl e ↦ rw (e, finish_save) (Matches-of _ (refl, refl, refl, refl) sv rm free)
  | inr (t, e) ↦ rw (e, finish_save) (Matches-of _ s sv rm free)
]

finish_remove-Matches :
    (reply : Reply) (p : Page)
    → Shows p
    → saves p.pending ≡ one_if p.save.disabled
    → removals p.pending ≡ 0
    → Matches (finish_remove reply p)
unfolding finish_remove update_protection_ui set_button_loading
finish_remove-Matches reply p s sv rm = elim (Option-cases (remove_failure reply)) [
  | inl e ↦ rw (e, finish_remove) (Matches-of _ (refl, refl, refl, refl) sv rm (ground arith))
  | inr (t, e) ↦ rw (e, finish_remove) (Matches-of _ s sv rm (ground arith))
]

finish-Matches :
    (p : Page) (i : ℕ) (reply : Reply) (o : Option Call)
    → Matches p
    → get_elem? p.pending i ≡ o
    → Matches (finish o reply (record p { pending = remove_at i p.pending }))
unfolding finish
finish-Matches p i reply none m e =
    let same = not_taken p.pending i e in
    Matches-of _ (shows p m) (rw same m.saves_waiting) (rw same m.removals_waiting) m.asked_free
finish-Matches p i reply (some (put_password w b)) m e =
    let (s, r) = taken p.pending i _ e in
    finish_save-Matches b reply _ (shows p m) (ground (arith, s, m.saves_waiting))
      (ground (arith, r, m.removals_waiting)) m.asked_free
finish-Matches p i reply (some delete_password) m e =
    let (s, r) = taken p.pending i _ e in
    finish_remove-Matches reply _ (shows p m) (ground (arith, s, m.saves_waiting))
      (ground (arith, r, m.removals_waiting))

either-Matches :
    (b : Bool) (m n : Page)
    → (b ≡ true → Matches m)
    → (b ≡ false → Matches n)
    → Matches (if b then m else n)
either-Matches true m n kept other = kept refl
either-Matches false m n kept other = other refl

start_save-Matches : (p : Page) → Matches p → p.save.disabled ≡ false → Matches (start_save p)
unfolding start_save set_button_loading
start_save-Matches p m free =
    let c = put_password p.password p.is_protected in
    Matches-of _ (shows p m) (ground (arith, saves-append p.pending c, m.saves_waiting))
      (ground (arith, removals-append p.pending c, m.removals_waiting)) m.asked_free

start_remove-Matches :
    (p : Page) → Matches p → p.asking ≡ false → p.remove.disabled ≡ false → Matches (start_remove p)
unfolding start_remove set_button_loading
start_remove-Matches p m quiet free =
    Matches-of _ (shows p m)
      (ground (arith, saves-append p.pending delete_password, m.saves_waiting))
      (ground (arith, removals-append p.pending delete_password, m.removals_waiting)) (ground arith)

resume-Matches :
    (asked : Bool) (p : Page)
    → Matches p
    → p.asking ≡ false
    → (asked && p.remove.disabled) ≡ false
    → Matches (resume asked p)
unfolding resume
resume-Matches asked p m quiet free =
    either-Matches (asked && is_confirmed p.dialog) (start_remove p) p
      (λ h. start_remove-Matches p m quiet (ground arith)) (λ h. m)

pub step-Matches : (p : Page) (e : Event) → Matches p → Matches (step p e)
unfolding step ask_remove
step-Matches p submit m =
    either-Matches (p.dialog.is_open || p.save.disabled) p (start_save p) (λ h. m)
      (λ h. start_save-Matches p m (ground arith))
step-Matches p click_remove m =
    either-Matches (p.dialog.is_open || p.remove.disabled || p.remove_hidden) p (ask_remove p)
      (λ h. m) (λ h. Matches-of _ (shows p m) m.saves_waiting m.removals_waiting (ground arith))
step-Matches p (close_dialog how) m =
    let q = record p { asking = false; dialog = Dialog.close how p.dialog } in
    either-Matches p.dialog.is_open (resume p.asking q) p
      (λ h.
        resume-Matches p.asking q (Matches-of _ (shows p m) m.saves_waiting m.removals_waiting refl)
          refl m.asked_free)
      (λ h. m)
step-Matches p (type_password w) m =
    either-Matches p.dialog.is_open p _ (λ h. m)
      (λ h. Matches-of _ (shows p m) m.saves_waiting m.removals_waiting m.asked_free)
step-Matches p (answer i reply) m = finish-Matches p i reply _ m refl

-- On a page that shows whether its link is protected, and whose buttons are disabled exactly while
-- their requests wait, all of this holds after any events, however the answers of the two buttons'
-- requests are interleaved; so neither button has two requests under way.
pub run-Matches : (es : List Event) (p : Page) → Matches p → Matches (run p es)
unfolding run
run-Matches [] p m = m
run-Matches (e ∷ es) p m = run-Matches es (step p e) (step-Matches p e m)
