-- ===== src/Composer/Rows/Laws.antt =====
-- What the row editor of web/static/admin.js keeps.
use secureshare.Prelude.{
  modify_at, Bool, ℕ, zero, suc, ◌≡◌, ◌≤◌, ◌<◌, refl, ap, ◌∙◌, true, false, List, [], ◌∷◌, ◌++◌,
  arith, length, leb, length-append, Bool-cases, ◌⊎◌, inl, inr,
}
use mathlib.Core.List.{Perm}
use mathlib.Core.List.Perm
use secureshare.Text.{Text, trim, is_empty}
use secureshare.Composer.{Host, max_fields, member}
use secureshare.Composer.Rows.{
  Form, add_structured_field, pick_field, erase_at, move_down, move_up, Event, add_empty, pick,
  remove, up, down, edit, create_another, step, run, current_field_names, row_template, new_row,
}

module _ {ℓ} {A : Type ℓ} where
  length-erase_at : (i : ℕ) (xs : List A) → length (erase_at i xs) ≤ length xs
  unfolding erase_at
  length-erase_at i [] = omega arith
  length-erase_at zero (x ∷ xs) = omega arith
  length-erase_at (suc i) (x ∷ xs) = omega (arith, length-erase_at i xs)

  length-modify_at : (i : ℕ) (f : A → A) (xs : List A) → length (modify_at i f xs) ≡ length xs
  length-modify_at i f [] = refl
  length-modify_at zero f (x ∷ xs) = refl
  length-modify_at (suc i) f (x ∷ xs) = ap suc (length-modify_at i f xs)

  length-move_down : (i : ℕ) (xs : List A) → length (move_down i xs) ≡ length xs
  unfolding move_down
  length-move_down i [] = refl
  length-move_down i (x ∷ []) = refl
  length-move_down zero (x ∷ y ∷ xs) = refl
  length-move_down (suc i) (x ∷ y ∷ xs) = ap suc (length-move_down i (y ∷ xs))

  length-move_up : (i : ℕ) (xs : List A) → length (move_up i xs) ≡ length xs
  unfolding move_up
  length-move_up zero xs = refl
  length-move_up (suc i) xs = ground (arith, length-move_down i xs)

  move_down-perm : (i : ℕ) (xs : List A) → Perm (move_down i xs) xs
  unfolding move_down
  move_down-perm i [] = Perm.refl []
  move_down-perm i (x ∷ []) = Perm.refl (x ∷ [])
  move_down-perm zero (x ∷ y ∷ xs) = Perm.swap x y xs
  move_down-perm (suc i) (x ∷ y ∷ xs) = Perm.cons x (move_down-perm i (y ∷ xs))

  move_up-perm : (i : ℕ) (xs : List A) → Perm (move_up i xs) xs
  unfolding move_up
  move_up-perm zero xs = Perm.refl xs
  move_up-perm (suc i) xs = elim (Bool-cases (leb (length xs) (suc i))) [
    | inl far ↦ rw far (Perm.refl xs)
    | inr near ↦ rw near (move_down-perm i xs)
  ]

  move_down-cons : (i : ℕ) (x : A) (xs : List A) → move_down (suc i) (x ∷ xs) ≡ x ∷ move_down i xs
  unfolding move_down
  move_down-cons i x [] = refl
  move_down-cons i x (y ∷ xs) = refl

  move_down-move_down : (i : ℕ) (xs : List A) → move_down i (move_down i xs) ≡ xs
  unfolding move_down
  move_down-move_down i [] = refl
  move_down-move_down i (x ∷ []) = refl
  move_down-move_down zero (x ∷ y ∷ xs) = refl
  move_down-move_down (suc i) (x ∷ y ∷ xs) =
      move_down-cons i x (move_down i (y ∷ xs)) ∙ ap (λ l. x ∷ l) (move_down-move_down i (y ∷ xs))

  move_down_far : (i : ℕ) (xs : List A) → length xs ≤ suc i → move_down i xs ≡ xs
  unfolding move_down
  move_down_far i [] h = refl
  move_down_far i (x ∷ []) h = refl
  move_down_far zero (x ∷ y ∷ xs) h = absurd (omega arith)
  move_down_far (suc i) (x ∷ y ∷ xs) h = ap (λ l. x ∷ l) (move_down_far i (y ∷ xs) (omega arith))

  -- Moving a row keeps all rows, and moving it back restores the order, at the ends of the list too.
  pub moves_lem :
      (i : ℕ) (xs : List A)
      → Perm (move_down i xs) xs × Perm (move_up i xs) xs × (move_up (suc i) (move_down i xs) ≡ xs)
  unfolding move_up
  moves_lem i xs = (
    move_down-perm i xs,
    move_up-perm i xs,
    ground (arith, length-move_down i xs, move_down-move_down i xs, move_down_far i xs),
  )

module _ (host : Host) where
  -- What adding a name leaves of the form `f`, by whether it was added.
  abbrev pub AddEnds : Bool → Text → Text → Form → Form → Type 0
  AddEnds false normalized name f g =
      (g.rows ≡ f.rows)
      × ((max_fields ≤ length f.rows)
          ⊎ ((is_empty normalized ≡ false)
              × (member normalized (current_field_names host f.rows) ≡ true)))
  AddEnds true normalized name f g =
      (length f.rows < max_fields)
      × ((is_empty normalized ≡ true)
          ⊎ (member normalized (current_field_names host f.rows) ≡ false))
      × (g.rows ≡ f.rows ++ new_row host name ∷ [])
      × ((new_row host name).key ≡ normalized)

  -- A name that is added becomes one new row at the end, of fewer than 50 rows none of which has the
  -- name, unless it is blank; the rows are left alone when it is refused, for there are 50 of them or
  -- one has the name.
  pub add_structured_field_lem :
      (name : Text) (f : Form)
      → let normalized = host.lower_case (trim name) in
        let (g, added) = add_structured_field host name f in AddEnds added normalized name f g
  unfolding add_structured_field new_row row_template
  add_structured_field_lem name f = ground arith

  AddEnds-length :
      (added : Bool) (normalized name : Text) (f g : Form)
      → AddEnds added normalized name f g
      → length f.rows ≤ max_fields
      → length g.rows ≤ max_fields
  AddEnds-length false normalized name f g (kept, _) h = rw kept h
  AddEnds-length true normalized name f g (room, _, grown, _) h =
      rw grown (omega (arith, length-append f.rows (new_row host name ∷ [])))

  add-length :
      (name : Text) (f : Form)
      → length f.rows ≤ max_fields
      → length (add_structured_field host name f).0.rows ≤ max_fields
  add-length name f h = AddEnds-length _ _ name f _ (add_structured_field_lem name f) h

  step-limit :
      (f : Form) (e : Event) → length f.rows ≤ max_fields → length (step host f e).rows ≤ max_fields
  unfolding step pick_field
  step-limit f add_empty h = add-length [] f h
  step-limit f (pick []) h = h
  step-limit f (pick (c ∷ s)) h = add-length _ f h
  step-limit f (remove i) h = ground (arith, length-erase_at i f.rows)
  step-limit f (up i) h = rw (length-move_up i f.rows) h
  step-limit f (down i) h = rw (length-move_down i f.rows) h
  step-limit f (edit i r) h = rw (length-modify_at i (λ old. r) f.rows) h
  step-limit f create_another h = omega arith

  -- A form with at most 50 rows has at most 50 rows after any events.
  pub run-limit :
      (es : List Event) (f : Form)
      → length f.rows ≤ max_fields
      → length (run host f es).rows ≤ max_fields
  unfolding run
  run-limit [] f h = h
  run-limit (e ∷ es) f h = run-limit es (step host f e) (step-limit f e h)
