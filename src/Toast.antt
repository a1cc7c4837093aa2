-- ===== src/Toast.antt =====
-- `toast` of web/static/admin.js and web/static/reveal.js: messages that go away by themselves.
pub mod Recent
use secureshare.Prelude.{
  ℕ, zero, suc, ◌+◌, Bool, List, [], ◌∷◌, ◌++◌, Option, none, some, map, leb, if◌then◌else◌,
}
use secureshare.Text.{Text}

-- An element of the region: its text, and the milliseconds since its timer was set.
pub record Item : Type 0 where
  pub text : Text
  pub age : ℕ

abbrev pub lifetime : ℕ
lifetime = 3200

-- `none` is a page without a `.toast-region`.
pub record Region : Type 0 where
  pub items : Option (List Item)

abbrev pub new_item : Text → Item
new_item message = record { text = message; age = 0 }

unfoldable pub toast : Text → Region → Region
toast message region = elim region.items [
  | none ↦ region
  | some items ↦ record { items = some (items ++ new_item message ∷ []) }
]

-- `setTimeout` promises that its callback is not called before the delay is over; it may be called
-- at any time from then on. It is called once, and takes the element out of the region.
abbrev pub remove : ℕ → List Item → List Item
remove k [] = []
remove zero (i ∷ is) = if leb lifetime i.age then is else i ∷ is
remove (suc k) (i ∷ is) = i ∷ remove k is

abbrev pub older : ℕ → Item → Item
older ms i = record i { age = ms + i.age }

abbrev on_items : (List Item → List Item) → Region → Region
on_items f region = elim region.items [
  | none ↦ region
  | some items ↦ record { items = some (f items) }
]

pub data Event : Type 0 where
  -- A script announces something.
  announce : Text → Event
  -- Milliseconds pass.
  wait : ℕ → Event
  -- The timer of an element, by its position in the region, runs out, if it is due.
  fire : ℕ → Event

unfoldable pub step : Region → Event → Region
step region (announce message) = toast message region
step region (wait ms) = on_items (map (older ms)) region
step region (fire k) = on_items (remove k) region

unfoldable pub run : Region → List Event → Region
run region [] = region
run region (e ∷ es) = run (step region e) es
