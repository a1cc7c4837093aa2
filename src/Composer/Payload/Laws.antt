-- ===== src/Composer/Payload/Laws.antt =====
-- `structuredPayload` of web/static/admin.js accepts exactly the forms whose keys are well formed and
-- distinct but for case.
use secureshare.Prelude.{
  ◌≡◌, ◌≢◌, ◌↔◌, refl, sym, ap, ◌∙◌, true, false, List, [], ◌∷◌, ◌++◌, map, arith, inl, inr,
  Bool-cases, text_eq, text_eq_iff, All,
}
use secureshare.Text.{Text, trim, is_empty}
use secureshare.Composer.{Host, returned, thrown, Row, member, Outcome-cases}
use secureshare.Composer.Payload.{
  SecretField, is_field_name, field_of, normalized, check_row, collect, structured_payload,
}

-- Each text differs from those behind it.
abbrev pub Distinct : List Text → Type 0
Distinct [] = Unit
Distinct (t ∷ ts) = All (λ s. t ≢ s) ts × Distinct ts

-- Every key, trimmed, is a field name, and no two are the same but for case.
abbrev pub WellNamed : Host → List Row → Type 0
WellNamed host rows =
    All (λ r. is_field_name (trim r.key) ≡ true) rows × Distinct (map (normalized host) rows)

text_eq-eq_false : (s t : Text) → (text_eq s t ≡ false) ↔ (s ≢ t)
text_eq-eq_false s t = (
  λ h e. cc ((text_eq_iff s t).1 e),
  λ ne. elim (Bool-cases (text_eq s t)) [
    | inl same ↦ absurd (ne ((text_eq_iff s t).0 same))
    | inr other ↦ other
  ],
)

-- What `seen` keeps out.
abbrev Unseen : List Text → List Text → Type 0
Unseen seen names = All (λ n. member n seen ≡ false) names

member-cons :
    (t n : Text) (seen : List Text)
    → (member n (t ∷ seen) ≡ false) ↔ ((t ≢ n) × (member n seen ≡ false))
unfolding member
member-cons t n seen = (
  λ h. ((text_eq-eq_false t n).0 (ground arith), ground arith),
  λ h. let ne = (text_eq-eq_false t n).1 h.0 in ground arith,
)

Unseen-cons :
    (t : Text) (seen names : List Text)
    → Unseen (t ∷ seen) names ↔ (All (λ s. t ≢ s) names × Unseen seen names)
Unseen-cons t seen [] = (λ h. (tt, tt), λ h. tt)
Unseen-cons t seen (n ∷ names) =
    let (there, back) = Unseen-cons t seen names in
    let (out, into) = member-cons t n seen in
    (
      λ h. let (ne, new) = out h.0 in let (apart, rest) = there h.1 in ((ne, apart), (new, rest)),
      λ h. (into (h.0.0, h.1.0), back (h.0.1, h.1.1)),
    )

Unseen-nil : (names : List Text) → Unseen [] names
unfolding member
Unseen-nil [] = tt
Unseen-nil (n ∷ names) = (refl, Unseen-nil names)

is_field_name-nonempty : (s : Text) → is_field_name s ≡ true → is_empty s ≡ false
unfolding is_field_name
is_field_name-nonempty [] h = cc
is_field_name-nonempty (c ∷ s) h = refl

module _ (host : Host) where
  check_row_lem :
      (seen : List Text) (r : Row)
      → is_field_name (trim r.key) ≡ true
      → member (normalized host r) seen ≡ false
      → check_row host seen r ≡ returned (field_of host r)
  unfolding check_row
  check_row_lem seen r named new = ground (arith, is_field_name-nonempty (trim r.key))

  check_row_inv :
      (seen : List Text) (r : Row) (f : SecretField)
      → check_row host seen r ≡ returned f
      → (is_field_name (trim r.key) ≡ true)
        × (member (normalized host r) seen ≡ false)
        × (f ≡ field_of host r)
  unfolding check_row
  check_row_inv seen r f h = ground arith

  -- The loop succeeds on well-named rows whose names are not among those seen.
  collect_complete :
      (seen : List Text) (rows : List Row)
      → WellNamed host rows
      → Unseen seen (map (normalized host) rows)
      → collect host seen rows ≡ returned (map (field_of host) rows)
  unfolding collect
  collect_complete seen [] w u = refl
  collect_complete seen (r ∷ rs) ((named, all), (apart, distinct)) (new, u) =
      rw (check_row_lem seen r named new) (
        rw (
          collect_complete (normalized host r ∷ seen) rs (all, distinct)
            ((Unseen-cons (normalized host r) seen _).1 (apart, u))))

  -- Nothing else makes it succeed.
  collect_sound :
      (seen : List Text) (rows : List Row) (fs : List SecretField)
      → collect host seen rows ≡ returned fs
      → WellNamed host rows
        × Unseen seen (map (normalized host) rows)
        × (fs ≡ map (field_of host) rows)
  unfolding collect
  collect_sound seen [] fs h = ((tt, tt), tt, ground arith)
  collect_sound seen (r ∷ rs) fs h = elim (Outcome-cases (check_row host seen r)) [
    | inr (e, k) ↦ absurd (ground arith)
    | inl (f, k) ↦ elim (Outcome-cases (collect host (normalized host r ∷ seen) rs)) [
      | inr (e, l) ↦ absurd (ground arith)
      | inl (gs, l) ↦
          let (named, new, same) = check_row_inv seen r f k in
          let ((all, distinct), u, rest) = collect_sound (normalized host r ∷ seen) rs gs l in
          let (apart, u') = (Unseen-cons (normalized host r) seen _).0 u in
          (((named, all), (apart, distinct)), (new, u'), ground arith)
    ]
  ]

  -- The form is accepted exactly when it has a row, every trimmed key is a field name and no two are
  -- the same but for case; the fields are then those of the rows, in order.
  pub structured_payload_iff :
      (rows : List Row) (fs : List SecretField)
      → (structured_payload host rows ≡ returned fs)
        ↔ ((rows ≢ []) × WellNamed host rows × (fs ≡ map (field_of host) rows))
  unfolding structured_payload
  structured_payload_iff [] fs = (λ h. absurd (ground arith), λ h. absurd (h.0 refl))
  structured_payload_iff (r ∷ rs) fs = (
    λ h. let (w, _, same) = collect_sound [] (r ∷ rs) fs h in (λ e. cc, w, same),
    λ h.
        collect_complete [] (r ∷ rs) h.1 (Unseen-nil (map (normalized host) (r ∷ rs)))
        ∙ ap returned (sym h.2),
  )

  -- The names that the loop has seen after these rows.
  abbrev seen_after : List Text → List Row → List Text
  seen_after seen [] = seen
  seen_after seen (r ∷ rs) = seen_after (normalized host r ∷ seen) rs

  collect-append_error :
      (seen : List Text) (good rest : List Row) (e : Text)
      → WellNamed host good
      → Unseen seen (map (normalized host) good)
      → collect host (seen_after seen good) rest ≡ thrown e
      → collect host seen (good ++ rest) ≡ thrown e
  unfolding collect
  collect-append_error seen [] rest e w u h = h
  collect-append_error seen (r ∷ rs) rest e ((named, all), (apart, distinct)) (new, u) h =
      rw (check_row_lem seen r named new) (
        rw (
          collect-append_error (normalized host r ∷ seen) rs rest e (all, distinct)
            ((Unseen-cons (normalized host r) seen (map (normalized host) rs)).1 (apart, u)) h))

  check_error :
      (seen : List Text) (r : Row) (rest : List Row) (e : Text)
      → check_row host seen r ≡ thrown e
      → collect host seen (r ∷ rest) ≡ thrown e
  unfolding collect
  check_error seen r rest e h = rw h

  -- If the rows before a row are well named and the check of that row against their names throws a
  -- message, then the form is refused with this message, whatever rows stand behind it.
  pub structured_payload-first_error :
      (good : List Row) (bad : Row) (rest : List Row) (e : Text)
      → WellNamed host good
      → check_row host (seen_after [] good) bad ≡ thrown e
      → structured_payload host (good ++ bad ∷ rest) ≡ thrown e
  unfolding structured_payload
  structured_payload-first_error [] bad rest e w h = check_error [] bad rest e h
  structured_payload-first_error (r ∷ rs) bad rest e w h =
      collect-append_error [] (r ∷ rs) (bad ∷ rest) e w
        (Unseen-nil (map (normalized host) (r ∷ rs)))
        (check_error (seen_after [] (r ∷ rs)) bad rest e h)
