-- ===== src/SignIn/Laws.antt =====
-- The sign-in page between two events, and at the end of a round: `setupLogin` of
-- web/static/admin.js.
use secureshare.Prelude.{
  ℕ, ◌≡◌, ◌≢◌, refl, ◌∙◌, ap, Bool, true, false, ◌⊎◌, inl, inr, List, [], ◌∷◌, Option, none, some,
  arith, get_elem?, remove_at, one_if, Bool-cases, either_branch, if◌then◌else◌, count_if,
  count_if-append, count_if-remove_at, remove_at-eq_none,
}
use secureshare.Text.{lit}
use secureshare.Fetch.{Reply, failed, answered, is_ok}
use secureshare.Button.{set_button_loading}
use secureshare.Button.Laws.{restored}
use secureshare.SignIn.{
  toggle_secret, Credentials, Page, start_login, read_login, finish_login, Event, type_fields,
  click_toggle, submit, answer, step, run,
}

abbrev always : Credentials → Bool
always c = true

-- The button is disabled exactly while its one request waits, and no error is shown meanwhile; the
-- toggle offers what the field does not do.
pub record Inv (p : Page) : Type 0 where
  pub one_login : count_if always p.pending ≡ one_if p.submit.disabled
  pub no_error : (p.submit.disabled ≡ false) ⊎ (p.error_text ≡ [])
  pub offers : p.toggle.text ≡ (if p.toggle.hides then lit "Show" else lit "Hide")

start_login-Inv : (p : Page) → Inv p → p.submit.disabled ≡ false → Inv (start_login p)
unfolding start_login set_button_loading
start_login-Inv p v free = record {
  one_login =
      let before = v.one_login in
      let more = count_if-append always p.pending (p.fields ∷ []) in ground arith;
  no_error = inr refl;
  offers = v.offers;
}

-- The answer changes neither what waits nor the toggle.
read_login-kept :
    (reply : Reply) (p : Page)
    → let q = read_login reply p in (q.pending ≡ p.pending) × (q.toggle ≡ p.toggle)
unfolding read_login
read_login-kept failed p = (refl, refl)
read_login-kept (answered status body) p =
    either_branch (λ (q : Page). (q.pending ≡ p.pending) × (q.toggle ≡ p.toggle)) (is_ok status) _ _
      (λ e. (refl, refl)) (λ e. (refl, refl))

finish_login-Inv :
    (p : Page) (i : ℕ) (c : Option Credentials) (reply : Reply)
    → Inv p
    → get_elem? p.pending i ≡ c
    → Inv (finish_login c reply (record p { pending = remove_at i p.pending }))
unfolding finish_login set_button_loading
finish_login-Inv p i none reply v h = record {
  one_login = ap (count_if always) (remove_at-eq_none p.pending i h) ∙ v.one_login;
  no_error = v.no_error;
  offers = v.offers;
}
finish_login-Inv p i (some c) reply v h =
    let (waits, toggle) = read_login-kept reply (record p { pending = remove_at i p.pending }) in
    let before = v.one_login in
    let less = count_if-remove_at always p.pending i c h in
    let idle : count_if always (remove_at i p.pending) ≡ 0 = ground arith in
    record {
      one_login = ap (count_if always) waits ∙ idle;
      no_error = inl refl;
      offers = rw toggle v.offers;
    }

step-Inv : (p : Page) (e : Event) → Inv p → Inv (step p e)
unfolding step toggle_secret
step-Inv p (type_fields c) v = record {
  one_login = v.one_login;
  no_error = v.no_error;
  offers = v.offers;
}
step-Inv p click_toggle v = record {
  one_login = v.one_login;
  no_error = v.no_error;
  offers = ground arith;
}
step-Inv p submit v =
    either_branch Inv p.submit.disabled p (start_login p) (λ e. v) (start_login-Inv p v)
step-Inv p (answer i reply) v = finish_login-Inv p i (get_elem? p.pending i) reply v refl

-- On every run of the sign-in page the button is disabled exactly while its one request waits, no
-- error is shown meanwhile, and the toggle of the password offers what the field does not do, if this
-- holds when the run begins.
pub run-Inv : (es : List Event) (p : Page) → Inv p → Inv (run p es)
unfolding run
run-Inv [] p v = v
run-Inv (e ∷ es) p v = run-Inv es (step p e) (step-Inv p e v)

-- What a round of the sign-in page ends with, by the answer.
abbrev pub RoundEnds : Reply → Page → Page → Type 0
RoundEnds failed p q =
    (q.error_text ≡ lit "SecureShare could not be reached.") × (q.location ≡ p.location)
RoundEnds (answered status body) p q =
    (q.error_text
      ≡ (if is_ok status then [] else lit "The username, email, or password was not accepted."))
    × (q.location ≡ (if is_ok status then some (lit "/admin") else p.location))

-- If nothing waits, a click on the free submit button sends what the fields hold, and when the server answers, the
-- button is free again with the text it had, if that is not empty; the page leaves for `/admin` on a
-- good answer alone, and otherwise tells what went wrong.
pub round_lem :
    (p : Page) (reply : Reply)
    → p.submit.disabled ≡ false
    → p.submit.text ≢ []
    → p.pending ≡ []
    → let q = run p (submit ∷ answer 0 reply ∷ []) in
      (q.sent ≡ p.fields ∷ p.sent)
      × (q.submit.text ≡ p.submit.text)
      × (q.submit.disabled ≡ false)
      × (q.pending ≡ [])
      × RoundEnds reply p q
unfolding run step start_login finish_login read_login set_button_loading
round_lem p failed free named quiet =
    let (same, idle) = restored p.submit p.submit.text named in
    simp (free, quiet) (refl, same, refl, refl, (refl, refl))
round_lem p (answered status body) free named quiet =
    let (same, idle) = restored p.submit p.submit.text named in
    elim (Bool-cases (is_ok status)) [
      | inl e ↦ simp (free, quiet, e) (refl, same, refl, refl, (refl, refl))
      | inr e ↦ simp (free, quiet, e) (refl, same, refl, refl, (refl, refl))
    ]
