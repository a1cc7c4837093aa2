-- ===== src/EmailSettings/Drains.antt =====
-- The requests of the email settings come to an end: `setupEmailSettings` of web/static/admin.js.
use secureshare.Prelude.{
  ℕ, zero, suc, ◌+◌, ◌≡◌, ◌≤◌, ◌<◌, refl, ap, false, List, [], ◌∷◌, ◌++◌, none, some, arith,
  remove_at, get_elem?, length, count_if, one_if, Option-cases, inl, inr, map,
}
use secureshare.Fetch.{Reply}
use secureshare.EmailSettings.{
  Settings, Which, Next, after_submit, before_action, before_test, Call, put_settings, post_action,
  post_test, post_preview, Page, loading,
}
use secureshare.EmailSettings.Answers.{Saved, rejected, refused, saved, read_saved}
use secureshare.EmailSettings.Events.{go_on, tells, finish_saving, finish, answer, step, run}
use secureshare.EmailSettings.Keeps.{
  read_saved-Same, read_action-Same, read_test-Same, read_preview-Same,
}
use secureshare.EmailSettings.Waits.{OneEach, run-OneEach, waits}

-- How many answers a request can still take, that of its successor included.
abbrev pub weight : Call → ℕ
weight (put_settings s after_submit) = 1
weight (put_settings s (before_action a)) = 2
weight (put_settings s (before_test to)) = 2
weight (post_action a) = 1
weight (post_test to) = 1
weight (post_preview subject message footer) = 1

abbrev pub total : List Call → ℕ
total [] = 0
total (c ∷ cs) = weight c + total cs

total-append : (cs ds : List Call) → total (cs ++ ds) ≡ total cs + total ds
total-append [] ds = omega arith
total-append (c ∷ cs) ds = omega (arith, total-append cs ds)

total-remove_at :
    (cs : List Call) (k : ℕ) (c : Call)
    → get_elem? cs k ≡ some c
    → total cs ≡ weight c + total (remove_at k cs)
total-remove_at [] k c h = cc
total-remove_at (d ∷ cs) zero c h = ground arith
total-remove_at (d ∷ cs) (suc k) c h = omega (arith, total-remove_at cs k c h)

go_on-total :
    (s : Settings) (next : Next) (result : Saved) (q : Page)
    → total (go_on next result q).pending < weight (put_settings s next) + total q.pending
unfolding go_on loading
go_on-total s after_submit result q = omega arith
go_on-total s (before_action a) saved q = omega (arith, total-append q.pending (post_action a ∷ []))
go_on-total s (before_action a) refused q = omega arith
go_on-total s (before_action a) rejected q = omega arith
go_on-total s (before_test to) saved q = omega (arith, total-append q.pending (post_test to ∷ []))
go_on-total s (before_test to) refused q = omega arith
go_on-total s (before_test to) rejected q = omega arith

finish-total :
    (c : Call) (reply : Reply) (p : Page)
    → total (finish (some c) reply p).pending < weight c + total p.pending
unfolding finish finish_saving loading
finish-total (put_settings s next) reply p =
    let (waiting, _) = read_saved-Same p (tells next) reply p (refl, refl) in
    let (q, result) = read_saved (tells next) reply p in
    omega (arith, go_on-total s next result q, ap total waiting)
finish-total (post_action a) reply p =
    let (waiting, _) = read_action-Same p a reply p (refl, refl) in omega (arith, ap total waiting)
finish-total (post_test to) reply p =
    let (waiting, _) = read_test-Same p reply p (refl, refl) in omega (arith, ap total waiting)
finish-total (post_preview subject message footer) reply p =
    let (waiting, _) = read_preview-Same p reply p (refl, refl) in omega (arith, ap total waiting)

-- An answer to a request that waits.
step-total :
    (p : Page) (k : ℕ) (reply : Reply) (c : Call)
    → get_elem? p.pending k ≡ some c
    → total (step p (answer k reply)).pending < total p.pending
unfolding step
step-total p k reply c h =
    let less = total-remove_at p.pending k c h in
    let ends = finish-total c reply (record p { pending = remove_at k p.pending }) in
    rw h (omega (arith, less, ends))

total-eq_zero : (cs : List Call) → total cs ≡ 0 → cs ≡ []
total-eq_zero [] h = refl
total-eq_zero (put_settings s after_submit ∷ cs) h = absurd (omega (arith, h))
total-eq_zero (put_settings s (before_action a) ∷ cs) h = absurd (omega (arith, h))
total-eq_zero (put_settings s (before_test to) ∷ cs) h = absurd (omega (arith, h))
total-eq_zero (post_action a ∷ cs) h = absurd (omega (arith, h))
total-eq_zero (post_test to ∷ cs) h = absurd (omega (arith, h))
total-eq_zero (post_preview subject message footer ∷ cs) h = absurd (omega (arith, h))

first-eq_none : (cs : List Call) → get_elem? cs 0 ≡ none → cs ≡ []
first-eq_none [] h = refl
first-eq_none (c ∷ cs) h = cc

-- Where no request waits, an answer leaves none.
step-idle :
    (p : Page) (reply : Reply)
    → get_elem? p.pending 0 ≡ none
    → total (step p (answer 0 reply)).pending ≡ 0
unfolding step finish
step-idle p reply h = rw h (ap (λ cs. total (remove_at 0 cs)) (first-eq_none p.pending h))

-- The answer to the request that has waited longest, if one waits.
step-first :
    (p : Page) (reply : Reply) (n : ℕ)
    → total p.pending ≤ suc n
    → total (step p (answer 0 reply)).pending ≤ n
step-first p reply n h = elim (Option-cases (get_elem? p.pending 0)) [
  | inl e ↦ omega (arith, step-idle p reply e)
  | inr (c, e) ↦ omega (arith, h, step-total p 0 reply c e)
]

run-total :
    (rs : List Reply) (p : Page)
    → total p.pending ≤ length rs
    → total (run p (map (answer 0) rs)).pending ≡ 0
unfolding run
run-total [] p h = omega (arith, h)
run-total (r ∷ rs) p h = run-total rs (step p (answer 0 r)) (step-first p r (length rs) h)

-- However the server answers the requests in the order in which they were sent, the second requests
-- that good answers lead to included, nothing waits after as many answers as the requests can take,
-- and each of the six buttons is enabled, if each was disabled exactly while its one request waited.
pub run-drained :
    (p : Page) (rs : List Reply)
    → OneEach p
    → total p.pending ≤ length rs
    → let q = run p (map (answer 0) rs) in
      (q.pending ≡ []) × ((b : Which) → (q.buttons b).disabled ≡ false)
run-drained p rs v h =
    let q = run p (map (answer 0) rs) in
    let empty : q.pending ≡ [] = total-eq_zero q.pending (run-total rs p h) in
    let kept : OneEach q = run-OneEach (map (answer 0) rs) p v in
    (empty, λ b. free b (kept b) empty)
  where
    free :
        (b : Which)
        → count_if (waits b) (run p (map (answer 0) rs)).pending
          ≡ one_if ((run p (map (answer 0) rs)).buttons b).disabled
        → (run p (map (answer 0) rs)).pending ≡ []
        → ((run p (map (answer 0) rs)).buttons b).disabled ≡ false
    free b k e =
        let none_waits : count_if (waits b) (run p (map (answer 0) rs)).pending ≡ 0 =
          ap (count_if (waits b)) e in
        ground arith
