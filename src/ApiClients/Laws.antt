-- ===== src/ApiClients/Laws.antt =====
-- What waits on the pages of the API clients, `setupAPIClients` of web/static/admin.js.
use secureshare.Prelude.{
  ℕ, ◌≡◌, ◌≤◌, sym, ◌∙◌, Bool, true, false, List, some, count_if, one_if, ◌==◌, ◌&&◌, either_branch,
  test_at,
}
use secureshare.Text.{lit}
use secureshare.Json.{Json, null, own, truthy}
use secureshare.Fetch.{Reply, failed, answered, is_ok, body_or_empty}
use secureshare.Effect.{Keeps, in_order-Keeps, write_text-Keeps}
use secureshare.ApiClients.{
  ActionButton, Call, create_client, client_action, Page, credential, put_view, show_credentials,
  refuse_create, read_create,
}

-- Whether the button at a position is disabled.
abbrev pub disabled_at : List ActionButton → ℕ → Bool
disabled_at = test_at (λ b. b.disabled)

-- The requests of the button at a position.
abbrev pub is_action_of : ℕ → Call → Bool
is_action_of i (create_client f) = false
is_action_of i (client_action j id action) = j == i

abbrev pub is_creation : Call → Bool
is_creation (create_client f) = true
is_creation _ = false

-- At most one request waits for each button, and none while the button is enabled; the button that
-- the dialog asks about is enabled; the button of the form is disabled exactly while its one request
-- waits.
pub record WaitsOnce (p : Page) : Type 0 where
  pub one_action : (i : ℕ) → count_if (is_action_of i) p.pending ≤ one_if (disabled_at p.buttons i)
  pub asks : (i : ℕ) → p.asking ≡ some i → disabled_at p.buttons i ≡ false
  pub one_creation : count_if is_creation p.pending ≡ one_if p.create.disabled

-- The invariant speaks of these fields alone.
abbrev pub Same : Page → Page → Type 0
Same p q =
    (q.pending ≡ p.pending)
    × (q.buttons ≡ p.buttons)
    × (q.asking ≡ p.asking)
    × (q.create ≡ p.create)

pub Same-WaitsOnce : (p q : Page) → Same p q → WaitsOnce p → WaitsOnce q
Same-WaitsOnce p q (waits, buttons, asking, create) v = record {
  one_action = λ i. rw (waits, buttons) (v.one_action i);
  asks = λ i h. rw buttons (v.asks i (sym asking ∙ h));
  one_creation = rw (waits, create) v.one_creation;
}

module _ (p : Page) where
  put_view-Same : (client : Json) → Keeps (Same p) (put_view client)
  unfolding put_view
  put_view-Same client q s =
      either_branch (λ (r : Page × Bool). Same p r.0)
        (q.result.has_view && truthy (own (lit "id") client)) _ _
        (λ e. write_text-Keeps (Same p) _ _ (λ t q s. s) q s) (λ e. s)

  -- Showing the credentials changes none of these fields, thrown or not.
  pub show_credentials-Same : (client : Json) → Keeps (Same p) (show_credentials client)
  unfolding show_credentials
  show_credentials-Same null q s = s
  show_credentials-Same client q s =
      in_order-Keeps (Same p) _
        (
          write_text-Keeps (Same p) (credential (lit "client_id") client) _ (λ t q s. s),
          (
            write_text-Keeps (Same p) (credential (lit "client_secret") client) _ (λ t q s. s),
            (put_view-Same client, ((λ q s. s), tt)),
          ),
        )
        q s

  pub read_create-Same : (reply : Reply) → Keeps (Same p) (read_create reply)
  unfolding read_create refuse_create
  read_create-Same failed q s = s
  read_create-Same (answered status body) q s =
      either_branch (λ (r : Page × Bool). Same p r.0) (is_ok status) _ _
        (λ e.
          in_order-Keeps (Same p) _ (show_credentials-Same (body_or_empty body), ((λ q s. s), tt)) q
            s)
        (λ e. write_text-Keeps (Same p) _ _ (λ t q s. s) q s)
