-- ===== src/Effect.antt =====
-- A stretch of a script that writes to the page and may throw on the way: the page that it leaves,
-- and whether it threw. What was written before a throw stays.
use secureshare.Prelude.{
  ◌≡◌, Bool, true, false, Option, none, some, if◌then◌else◌, List, [], ◌∷◌, All,
}
use secureshare.Text.{Text}

abbrev pub Effect : Type 0 → Type 0
Effect S = S → S × Bool

module _ {S : Type 0} where
  abbrev pub write : (S → S) → Effect S
  write change page = (change page, false)

  -- A write of a value that is turned into a text; `none` is a TypeError.
  abbrev pub write_text : Option Text → (Text → S → S) → Effect S
  write_text none change page = (page, true)
  write_text (some t) change page = (change t page, false)

  -- One after the other, up to the first that throws.
  unfoldable pub in_order : List (Effect S) → Effect S
  in_order [] page = (page, false)
  in_order (e ∷ es) page =
      let (written, threw) = e page in if threw then (written, true) else in_order es written

  pub in_order-cons :
      (e : Effect S) (es : List (Effect S)) (p q : S)
      → e p ≡ (q, false)
      → in_order (e ∷ es) p ≡ in_order es q
  unfolding in_order
  in_order-cons e es p q h = rw h

  -- What holds of the page stays, thrown or not.
  abbrev pub Keeps : (S → Type 0) → Effect S → Type 0
  Keeps P effect = (page : S) → P page → P (effect page).0

  pub either_page :
      (P : S → Type 0) (threw : Bool) (written : S) (later : S × Bool)
      → P written
      → P later.0
      → P (if threw then (written, true) else later).0
  either_page P true written later h k = h
  either_page P false written later h k = k

  pub in_order-Keeps :
      (P : S → Type 0) (es : List (Effect S)) → All (Keeps P) es → Keeps P (in_order es)
  unfolding in_order
  in_order-Keeps P [] all page h = h
  in_order-Keeps P (e ∷ es) (kept, all) page h =
      either_page P (e page).1 (e page).0 (in_order es (e page).0) (kept page h)
        (in_order-Keeps P es all (e page).0 (kept page h))

  pub write_text-Keeps :
      (P : S → Type 0) (t : Option Text) (change : Text → S → S)
      → ((s : Text) (page : S) → P page → P (change s page))
      → Keeps P (write_text t change)
  write_text-Keeps P none change kept page h = h
  write_text-Keeps P (some s) change kept page h = kept s page h
