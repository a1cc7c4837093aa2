-- ===== src/Toast/Recent.antt =====
-- The messages on display are the recent ones: `toast` of web/static/admin.js and
-- web/static/reveal.js.
use secureshare.Prelude.{
  ℕ, zero, suc, ◌+◌, ◌≤◌, ◌≡◌, refl, ◌∙◌, ap, sym, subst, true, false, List, [], ◌∷◌, ◌++◌, none,
  some, map, length, leb, ltb, if◌then◌else◌, arith, Bool-cases, inl, inr,
}
use mathlib.Core.List.{append_assoc, append-nil}
use secureshare.Text.{Text}
use secureshare.Toast.{
  Item, Region, lifetime, new_item, toast, remove, older, Event, announce, wait, fire, step, run,
}

-- The time that passes in a run.
abbrev pub waited : List Event → ℕ
waited [] = 0
waited (announce message ∷ es) = waited es
waited (wait ms ∷ es) = waited es + ms
waited (fire k ∷ es) = waited es

-- The messages of a run, each with the time that has passed since it was announced.
abbrev pub log : List Event → List (Text × ℕ)
log [] = []
log (announce message ∷ es) = (message, waited es) ∷ log es
log (wait ms ∷ es) = log es
log (fire k ∷ es) = log es

-- The messages that were announced less than 3200 milliseconds ago.
abbrev pub recent : List (Text × ℕ) → List Text
recent [] = []
recent ((message, since) ∷ entries) =
    let rest = recent entries in if ltb since 3200 then message ∷ rest else rest

-- The elements are those of the messages, in their order, but that messages which were announced
-- 3200 milliseconds ago or earlier may have none.
pub data Shows : List Item → List (Text × ℕ) → Type 0 where
  all_shown : Shows [] []
  stays :
      {message : Text} {since : ℕ} {is : List Item} {entries : List (Text × ℕ)}
      → Shows is entries
      → Shows (record { text = message; age = since } ∷ is) ((message, since) ∷ entries)
  gone :
      {message : Text} {since : ℕ} {is : List Item} {entries : List (Text × ℕ)}
      → 3200 ≤ since
      → Shows is entries
      → Shows is ((message, since) ∷ entries)

-- The events in which the timers of all the elements that are 3200 milliseconds old run out, where
-- the first element stands at a position.
abbrev pub overdue : ℕ → List Item → List Event
overdue k [] = []
overdue k (i ∷ is) =
    let here = overdue k is in
    let next = overdue (suc k) is in if leb 3200 i.age then fire k ∷ here else next

abbrev pub shown : Region → List Item
shown region = elim region.items [ none ↦ [] | some items ↦ items ]

abbrev pub texts : List Item → List Text
texts = map (λ i. i.text)

abbrev pub with_items : List Item → Region
with_items is = record { items = some is }

abbrev since_then : ℕ → List (Text × ℕ) → List (Text × ℕ)
since_then ms = map (λ (message, since). (message, ms + since))

Shows-announce :
    {is : List Item} {entries : List (Text × ℕ)} (message : Text)
    → Shows is entries
    → Shows (is ++ new_item message ∷ []) (entries ++ (message, 0) ∷ [])
Shows-announce message all_shown = stays all_shown
Shows-announce message (stays s) = stays (Shows-announce message s)
Shows-announce message (gone old s) = gone old (Shows-announce message s)

Shows-wait :
    {is : List Item} {entries : List (Text × ℕ)} (ms : ℕ)
    → Shows is entries
    → Shows (map (older ms) is) (since_then ms entries)
Shows-wait ms all_shown = all_shown
Shows-wait ms (stays s) = stays (Shows-wait ms s)
Shows-wait ms (gone old s) = gone (omega arith) (Shows-wait ms s)

Shows-fire :
    {is : List Item} {entries : List (Text × ℕ)} (k : ℕ)
    → Shows is entries
    → Shows (remove k is) entries
Shows-fire k all_shown = all_shown
Shows-fire k (gone old s) = gone old (Shows-fire k s)
Shows-fire (suc k) (stays s) = stays (Shows-fire k s)
Shows-fire zero (stays {since = since} s) = elim (Bool-cases (leb lifetime since)) [
  | inl e ↦ rw e (gone (ground arith) s)
  | inr e ↦ rw e (stays s)
]

since_then-none : (entries : List (Text × ℕ)) → since_then 0 entries ≡ entries
since_then-none [] = refl
since_then-none ((message, since) ∷ entries) =
    let same : 0 + since ≡ since = omega arith in rw (same, since_then-none entries) refl

since_then-append :
    (ms : ℕ) (xs ys : List (Text × ℕ))
    → since_then ms (xs ++ ys) ≡ since_then ms xs ++ since_then ms ys
since_then-append ms [] ys = refl
since_then-append ms (x ∷ xs) ys = rw (since_then-append ms xs ys) refl

since_then-since_then :
    (m n : ℕ) (xs : List (Text × ℕ)) → since_then m (since_then n xs) ≡ since_then (m + n) xs
since_then-since_then m n [] = refl
since_then-since_then m n ((message, since) ∷ xs) =
    let sum : m + (n + since) ≡ m + n + since = omega arith in
    rw (since_then-since_then m n xs, sum) refl

run-items :
    (es : List Event) (is : List Item) (entries : List (Text × ℕ))
    → Shows is entries
    → (run (with_items is) es ≡ with_items (shown (run (with_items is) es)))
      × Shows (shown (run (with_items is) es)) (since_then (waited es) entries ++ log es)
unfolding run step toast
run-items [] is entries s = (refl, rw (since_then-none entries, append-nil entries) s)
run-items (announce message ∷ es) is entries s =
    let zeroed : waited es + 0 ≡ waited es = omega arith in
    let (some_items, t) =
      run-items es (is ++ new_item message ∷ []) (entries ++ (message, 0) ∷ [])
        (Shows-announce message s) in
    (
      some_items,
      subst (λ x. Shows (shown (run (with_items (is ++ new_item message ∷ [])) es)) x)
          (rw
            (
              since_then-append (waited es) entries ((message, 0) ∷ []),
              append_assoc (since_then (waited es) entries),
              zeroed,
            )
            refl)
          t,
    )
run-items (wait ms ∷ es) is entries s =
    let (some_items, t) =
      run-items es (map (older ms) is) (since_then ms entries) (Shows-wait ms s) in
    (some_items, rw ((sym (since_then-since_then (waited es) ms entries))) t)
run-items (fire k ∷ es) is entries s = run-items es (remove k is) entries (Shows-fire k s)

abbrev fresh : List Item → List Item
fresh [] = []
fresh (i ∷ is) = let rest = fresh is in if leb 3200 i.age then rest else i ∷ rest

remove-overdue :
    (front is : List Item) (i : Item)
    → leb 3200 i.age ≡ true
    → remove (length front) (front ++ i ∷ is) ≡ front ++ is
remove-overdue [] is i h = rw h refl
remove-overdue (j ∷ front) is i h = ap (λ js. j ∷ js) (remove-overdue front is i h)

length-one : (front : List Item) (i : Item) → length (front ++ i ∷ []) ≡ suc (length front)
length-one [] i = refl
length-one (j ∷ front) i = ap suc (length-one front i)

run-overdue :
    (is front : List Item)
    → run (with_items (front ++ is)) (overdue (length front) is) ≡ with_items (front ++ fresh is)
unfolding run step
run-overdue [] front = refl
run-overdue (i ∷ is) front = elim (Bool-cases (leb 3200 i.age)) [
  | inl e ↦ rw e (
      ap (λ js. run (with_items js) (overdue (length front) is)) (remove-overdue front is i e)
      ∙ run-overdue is front)
  | inr e ↦
      let rest = run-overdue is (front ++ i ∷ []) in
      rw e (
        rw (sym (append_assoc front (i ∷ []) is), sym (append_assoc front (i ∷ []) (fresh is)))
          (rw (sym (length-one front i)) rest))
]

texts-fresh :
    {is : List Item} {entries : List (Text × ℕ)}
    → Shows is entries
    → texts (fresh is) ≡ recent entries
texts-fresh all_shown = refl
texts-fresh (stays {since = since} s) = elim (Bool-cases (leb 3200 since)) [
  | inl e ↦ let late : ltb since 3200 ≡ false = ground arith in rw (e, late) (texts-fresh s)
  | inr e ↦ let early : ltb since 3200 ≡ true = ground arith in rw (e, early, texts-fresh s) refl
]
texts-fresh (gone {since = since} old s) =
    let late : ltb since 3200 ≡ false = ground arith in rw late (texts-fresh s)

run-silent : (es : List Event) → run (record { items = none }) es ≡ record { items = none }
unfolding run step toast
run-silent [] = refl
run-silent (announce message ∷ es) = run-silent es
run-silent (wait ms ∷ es) = run-silent es
run-silent (fire k ∷ es) = run-silent es

-- From an empty region on, the messages on display are at all times announced ones, in the order in
-- which they were announced, and a message is absent only if it was announced at least 3200
-- milliseconds ago; once the timers that are due have run out, the messages on display are exactly
-- those announced less than 3200 milliseconds ago. A page without the region never gets one.
pub run-recent :
    (es : List Event)
    → let r = run (with_items []) es in
      let after = run r (overdue 0 (shown r)) in
      Shows (shown r) (log es)
      × (texts (shown after) ≡ recent (log es))
      × ((run (record { items = none }) es).items ≡ none)
run-recent es =
    let (whole, s) = run-items es [] [] all_shown in
    (
      s,
      ap (λ r. texts (shown (run r (overdue 0 (shown (run (with_items []) es)))))) whole
          ∙ ap (λ r. texts (shown r)) (run-overdue (shown (run (with_items []) es)) [])
          ∙ texts-fresh s,
      ap (λ r. r.items) (run-silent es),
    )
