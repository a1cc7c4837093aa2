-- ===== src/EmailSettings/Keeps.antt =====
-- Each button of the email settings waits for one request: `setupEmailSettings` of
-- web/static/admin.js.
use secureshare.Prelude.{ℕ, ◌≡◌, Bool, List, [], ◌∷◌, Option, some, either_branch, either_case}
use secureshare.Text.{Text, lit}
use secureshare.Json.{Json, prop, truthy, to_text}
use secureshare.Fetch.{Reply, failed, answered, is_ok, body_or_empty}
use secureshare.Effect.{Keeps, in_order-Keeps, write_text-Keeps}
use secureshare.EmailSettings.{
  EmailAction, test_connection, enable, disable, Page, set_status, announce, field_names,
}
use secureshare.EmailSettings.Answers.{
  one_of, mark, field_messages, smtp_error_message, write_error, Saved, clear_password,
  announce_save, read_saved, timed, action_status, action_toast, read_action, read_test,
  read_preview,
}

-- The buttons and what waits are the same.
abbrev pub Same : Page → Page → Type 0
Same p q = (q.pending ≡ p.pending) × (q.buttons ≡ p.buttons)

module _ (p : Page) where
  mark-Same : (name : Text) (q : Page) → Same p q → Same p (mark name q)
  mark-Same name q s = either_branch (Same p) (one_of name field_names) _ q (λ e. s) (λ e. s)

  field_messages-Same :
      (es : List (Text × Json)) (q : Page) → Same p q → Same p (field_messages es q).0
  unfolding field_messages
  field_messages-Same [] q s = s
  field_messages-Same ((name, message) ∷ es) q s =
      either_case (λ (r : Page × Option (List Text)). Same p r.0) (to_text message) _ _
        (mark-Same name q s) (λ t. field_messages-Same es (mark name q) (mark-Same name q s))

  write_error-Same :
      (body : Json) (fallback : Text) (change : Text → Page → Page)
      → ((t : Text) (q : Page) → Same p q → Same p (change t q))
      → Keeps (Same p) (write_error body fallback change)
  unfolding write_error smtp_error_message
  write_error-Same body fallback change kept q s =
      write_text-Keeps (Same p) _ change kept _ (field_messages-Same _ q s)

  timed-Same :
      (body : Json) (good bad : Text) (change : Text → Page → Page)
      → ((t : Text) (q : Page) → Same p q → Same p (change t q))
      → Keeps (Same p) (timed body good bad change)
  unfolding timed
  timed-Same body good bad change kept q s =
      either_case (λ (r : Page × Bool). Same p r.0) (prop (lit "ok") (some body)) _ _ s
        (λ ok.
          either_branch (λ (r : Page × Bool). Same p r.0) (truthy ok) _ _
            (λ h. write_text-Keeps (Same p) _ change kept q s)
            (λ h. write_error-Same body bad change kept q s))

  action_status-Same :
      (a : EmailAction) (status : ℕ) (body : Json) → Keeps (Same p) (action_status a status body)
  unfolding action_status
  action_status-Same test_connection status body q s =
      timed-Same body _ _ set_status (λ t q s. s) q s
  action_status-Same enable status body q s =
      either_branch (λ (r : Page × Bool). Same p r.0) (is_ok status) _ _ (λ e. s)
        (λ e. write_error-Same body _ set_status (λ t q s. s) q s)
  action_status-Same disable status body q s =
      either_branch (λ (r : Page × Bool). Same p r.0) (is_ok status) _ _ (λ e. s)
        (λ e. write_error-Same body _ set_status (λ t q s. s) q s)

  pub read_action-Same : (a : EmailAction) (reply : Reply) → Keeps (Same p) (read_action a reply)
  unfolding read_action
  read_action-Same a failed q s = s
  read_action-Same a (answered status body) q s =
      in_order-Keeps (Same p) _
        (
          action_status-Same a status (body_or_empty body),
          (
            write_text-Keeps (Same p) (action_toast status (body_or_empty body)) announce
                (λ t q s. s),
            tt,
          ),
        )
        q s

  pub read_test-Same : (reply : Reply) → Keeps (Same p) (read_test reply)
  unfolding read_test
  read_test-Same failed q s = s
  read_test-Same (answered status body) q s = timed-Same (body_or_empty body) _ _ _ (λ t q s. s) q s

  pub read_preview-Same : (reply : Reply) → Keeps (Same p) (read_preview reply)
  unfolding read_preview
  read_preview-Same failed q s = s
  read_preview-Same (answered status body) q s =
      either_branch (λ (r : Page × Bool). Same p r.0) (is_ok status) _ _
        (λ e.
          in_order-Keeps (Same p) _
            (
              write_text-Keeps (Same p) _ _ (λ t q s. s),
              (write_text-Keeps (Same p) _ _ (λ t q s. s), ((λ q s. s), tt)),
            )
            q s)
        (λ e. write_text-Keeps (Same p) _ set_status (λ t q s. s) q s)

  pub read_saved-Same :
      (on : Bool) (reply : Reply) (q : Page) → Same p q → Same p (read_saved on reply q).0
  unfolding read_saved announce_save
  read_saved-Same on failed q s = s
  read_saved-Same on (answered status body) q s =
      either_branch (λ (r : Page × Saved). Same p r.0) (is_ok status) _ _
        (λ e.
          either_branch (λ (r : Page × Saved). Same p r.0) on _ _
            (λ h. write_text-Keeps (Same p) _ _ (λ t q s. s) (clear_password q) s) (λ h. s))
        (λ e. write_error-Same (body_or_empty body) _ _ (λ t q s. s) q s)
