-- ===== src/Text/Trim.antt =====
-- Laws of `trim`.
use secureshare.Prelude.{ℕ, ◌≡◌, refl, true, false, [], ◌∷◌, inl, inr, Bool-cases, if◌then◌else◌}
use secureshare.Text.{Text, is_space, trim_start, trim_end, trim}

trim_start-cons : (c : ℕ) (s : Text) → is_space c ≡ false → trim_start (c ∷ s) ≡ c ∷ s
unfolding trim_start
trim_start-cons c s h = rw h

trim_start-space : (c : ℕ) (s : Text) → is_space c ≡ true → trim_start (c ∷ s) ≡ trim_start s
unfolding trim_start
trim_start-space c s h = rw h

trim_end-cons_cons : (c d : ℕ) (s r : Text) → trim_end s ≡ d ∷ r → trim_end (c ∷ s) ≡ c ∷ d ∷ r
unfolding trim_end
trim_end-cons_cons c d s r e = rw e

trim_end-cons_nil :
    (c : ℕ) (s : Text) → trim_end s ≡ [] → trim_end (c ∷ s) ≡ (if is_space c then [] else c ∷ [])
unfolding trim_end
trim_end-cons_nil c s e = rw e

trim_end-single : (c : ℕ) → is_space c ≡ false → trim_end (c ∷ []) ≡ c ∷ []
unfolding trim_end
trim_end-single c solid = rw solid

-- What is left of `c ∷ s` is left again, given what is left of `s`.
trim_end_idem-cons :
    (c : ℕ) (s t : Text)
    → trim_end s ≡ t
    → trim_end t ≡ t
    → trim_end (trim_end (c ∷ s)) ≡ trim_end (c ∷ s)
trim_end_idem-cons c s [] e f = elim (Bool-cases (is_space c)) [
  | inl sp ↦ rw (trim_end-cons_nil c s e, sp) (unfold trim_end in refl)
  | inr solid ↦ rw (trim_end-cons_nil c s e, solid) (trim_end-single c solid)
]
trim_end_idem-cons c s (d ∷ r) e f =
    rw (trim_end-cons_cons c d s r e) (trim_end-cons_cons c d (d ∷ r) r f)

trim_end_idem : (s : Text) → trim_end (trim_end s) ≡ trim_end s
trim_end_idem [] = unfold trim_end in refl
trim_end_idem (c ∷ s) = trim_end_idem-cons c s (trim_end s) refl (trim_end_idem s)

-- A text that begins with a solid unit keeps it at its front.
trim_start-trim_end-cons :
    (c : ℕ) (s t : Text)
    → is_space c ≡ false
    → trim_end s ≡ t
    → trim_start (trim_end (c ∷ s)) ≡ trim_end (c ∷ s)
trim_start-trim_end-cons c s [] solid e =
    rw (trim_end-cons_nil c s e, solid) (trim_start-cons c [] solid)
trim_start-trim_end-cons c s (d ∷ r) solid e =
    rw (trim_end-cons_cons c d s r e) (trim_start-cons c (d ∷ r) solid)

trim_start-trim_end : (s : Text) → trim_start (trim_end (trim_start s)) ≡ trim_end (trim_start s)
trim_start-trim_end [] = unfold trim_end trim_start in refl
trim_start-trim_end (c ∷ s) = elim (Bool-cases (is_space c)) [
  | inl sp ↦ rw (trim_start-space c s sp) (trim_start-trim_end s)
  | inr solid ↦
      rw (trim_start-cons c s solid) (trim_start-trim_end-cons c s (trim_end s) solid refl)
]

-- Trimming a trimmed text changes nothing.
pub trim_idem : (s : Text) → trim (trim s) ≡ trim s
unfolding trim
trim_idem s = rw (trim_start-trim_end s) (trim_end_idem (trim_start s))
