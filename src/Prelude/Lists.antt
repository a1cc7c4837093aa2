-- ===== src/Prelude/Lists.antt =====
-- Lists measured by native numbers, predicates on their elements, and lookup by position.
use Prim.Native.Nat.{ℕ, zero, suc, ◌+◌}
use mathlib.Core.Path.{◌≡◌, refl, ap}
use mathlib.Core.Logic.{◌≢◌}
use mathlib.Core.Option.{Option, none, some}
use mathlib.Core.Bool.{Bool, false}
use secureshare.Prelude.Tests.{◌==◌, if◌then◌else◌}
use mathlib.Core.List.{List, [], ◌∷◌, ◌++◌}
use native.Mathlib.Omega.{arith}

module _ {ℓ} {A : Type ℓ} where
  abbrev pub length : List A → ℕ
  length [] = 0
  length (x ∷ xs) = suc (length xs)

  abbrev pub get_elem? : List A → ℕ → Option A
  get_elem? [] i = none
  get_elem? (x ∷ xs) zero = some x
  get_elem? (x ∷ xs) (suc i) = get_elem? xs i

  abbrev pub remove_at : ℕ → List A → List A
  remove_at n [] = []
  remove_at zero (x ∷ xs) = xs
  remove_at (suc n) (x ∷ xs) = x ∷ remove_at n xs

  abbrev pub modify_at : ℕ → (A → A) → List A → List A
  modify_at n f [] = []
  modify_at zero f (x ∷ xs) = f x ∷ xs
  modify_at (suc n) f (x ∷ xs) = x ∷ modify_at n f xs

  pub length-append : (xs ys : List A) → length (xs ++ ys) ≡ length xs + length ys
  length-append [] ys = omega arith
  length-append (x ∷ xs) ys = omega (arith, length-append xs ys)

module _ {κ ℓ} {B : Type ℓ} where
  -- A predicate of every element, as a tuple of its proofs.
  abbrev pub All : (B → Type κ) → List B → Type κ
  All holds [] = Unit
  All holds (b ∷ bs) = holds b × All holds bs

  pub All-append :
      (holds : B → Type κ) (front back : List B)
      → All holds front
      → All holds back
      → All holds (front ++ back)
  All-append holds [] back _ there = there
  All-append holds (b ∷ front) back (at, here) there = (at, All-append holds front back here there)

module _ {ℓ} {A : Type ℓ} where
  -- How many elements pass a test.
  abbrev pub count_if : (A → Bool) → List A → ℕ
  count_if test [] = 0
  count_if test (x ∷ xs) = (if test x then 1 else 0) + count_if test xs

  pub count_if-append :
      (test : A → Bool) (xs ys : List A)
      → count_if test (xs ++ ys) ≡ count_if test xs + count_if test ys
  count_if-append test [] ys = omega arith
  count_if-append test (x ∷ xs) ys = omega (arith, count_if-append test xs ys)

  -- What an element adds to the count.
  pub count_if-remove_at :
      (test : A → Bool) (xs : List A) (i : ℕ) (x : A)
      → get_elem? xs i ≡ some x
      → count_if test xs ≡ (if test x then 1 else 0) + count_if test (remove_at i xs)
  count_if-remove_at test [] i x h = cc
  count_if-remove_at test (y ∷ xs) zero x h = ground arith
  count_if-remove_at test (y ∷ xs) (suc i) x h = omega (arith, count_if-remove_at test xs i x h)

  pub remove_at-eq_none : (xs : List A) (i : ℕ) → get_elem? xs i ≡ none → remove_at i xs ≡ xs
  remove_at-eq_none [] i h = refl
  remove_at-eq_none (y ∷ xs) zero h = cc
  remove_at-eq_none (y ∷ xs) (suc i) h = rw (remove_at-eq_none xs i h)

module _ {ℓ} {A : Type ℓ} where
  pub get_elem?-modify_at :
      (xs : List A) (i : ℕ) (f : A → A) (x : A)
      → get_elem? xs i ≡ some x
      → get_elem? (modify_at i f xs) i ≡ some (f x)
  get_elem?-modify_at [] i f x h = cc
  get_elem?-modify_at (y ∷ xs) zero f x h = cc
  get_elem?-modify_at (y ∷ xs) (suc i) f x h = get_elem?-modify_at xs i f x h

  pub get_elem?-modify_at_other :
      (xs : List A) (i j : ℕ) (f : A → A) → i ≢ j → get_elem? (modify_at i f xs) j ≡ get_elem? xs j
  get_elem?-modify_at_other [] i j f n = refl
  get_elem?-modify_at_other (y ∷ xs) zero zero f n = absurd (n refl)
  get_elem?-modify_at_other (y ∷ xs) zero (suc j) f n = refl
  get_elem?-modify_at_other (y ∷ xs) (suc i) zero f n = refl
  get_elem?-modify_at_other (y ∷ xs) (suc i) (suc j) f n =
      get_elem?-modify_at_other xs i j f (λ e. n (ap suc e))

module _ {ℓ} {A : Type ℓ} (test : A → Bool) where
  -- Whether the element at a position passes a test; `false` out of range.
  abbrev pub test_at : List A → ℕ → Bool
  test_at [] i = false
  test_at (x ∷ xs) zero = test x
  test_at (x ∷ xs) (suc i) = test_at xs i

  pub test_at-get_elem? :
      (xs : List A) (i : ℕ) (x : A) → get_elem? xs i ≡ some x → test_at xs i ≡ test x
  test_at-get_elem? [] i x h = cc
  test_at-get_elem? (y ∷ xs) zero x h = cc
  test_at-get_elem? (y ∷ xs) (suc i) x h = test_at-get_elem? xs i x h

  pub test_at-modify_at :
      (xs : List A) (i : ℕ) (f : A → A) (x : A) (j : ℕ)
      → get_elem? xs i ≡ some x
      → test_at (modify_at i f xs) j ≡ (if i == j then test (f x) else test_at xs j)
  test_at-modify_at [] i f x j h = cc
  test_at-modify_at (y ∷ xs) zero f x zero h = cc
  test_at-modify_at (y ∷ xs) zero f x (suc j) h = ground arith
  test_at-modify_at (y ∷ xs) (suc i) f x zero h = ground arith
  test_at-modify_at (y ∷ xs) (suc i) f x (suc j) h =
      let e = test_at-modify_at xs i f x j h in ground arith

  -- A change that the test does not see.
  pub test_at-modify_at_same :
      (f : A → A) (xs : List A) (i j : ℕ)
      → ((x : A) → test (f x) ≡ test x)
      → test_at (modify_at i f xs) j ≡ test_at xs j
  test_at-modify_at_same f [] i j h = refl
  test_at-modify_at_same f (y ∷ xs) zero zero h = h y
  test_at-modify_at_same f (y ∷ xs) zero (suc j) h = refl
  test_at-modify_at_same f (y ∷ xs) (suc i) zero h = refl
  test_at-modify_at_same f (y ∷ xs) (suc i) (suc j) h = test_at-modify_at_same f xs i j h

abbrev pub one_if : Bool → ℕ
one_if b = if b then 1 else 0
