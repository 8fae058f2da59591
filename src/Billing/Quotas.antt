-- ===== src/Billing/Quotas.antt =====
-- internal/billing/service.go: the checks against a plan and the usage counters, and errors.go
-- (statusAllowsUsage).
use text.Mathlib.Text.{◌==◌ as str_eq}
use brenox_engine.Base.{
  ℕ, Bool, not, ◌&&◌, ◌||◌, Option, none, some, String, ◌==◌, ltb, leb, if◌then◌else◌,
}
use brenox_engine.Base.Monad.{pure, ◌>>=◌, ◌>>◌}
use brenox_engine.Db.{billing, BillingError, M, optional, no_rows_is, on_error, raise_if}
use brenox_engine.Db.Accounts.{ℤ, pos, negsuc, ltz, App}
use brenox_engine.Queries.Billing.{
  SubscriptionRow, get_user_subscription, get_default_plan, create_user_subscription,
  count_apps_by_owner, get_app_by_id, get_app_by_workspace_id, sum_owner_message_usage,
  sum_owner_video_minutes_usage, increment_app_message_usage, increment_app_video_minutes,
}

unfoldable pub status_allows_usage : String → Bool
status_allows_usage status = str_eq status "active" || str_eq status "trialing"

unfoldable pub subscribe_if_missing : ℕ → Option SubscriptionRow → M (Unit {0})
subscribe_if_missing user (some s) = pure tt
subscribe_if_missing user none = do
  plan ← no_rows_is (billing BillingError.invalid_plan) get_default_plan
  create_user_subscription user plan.slug "active"

unfoldable pub ensure_user_subscription : ℕ → M (Unit {0})
ensure_user_subscription user = do
  existing ← optional (get_user_subscription user)
  subscribe_if_missing user existing

-- `sub.MaxApps < 0` stands for no limit.
unfoldable pub check_app_count : ℤ → ℕ → M (Unit {0})
check_app_count (negsuc n) user = pure tt
check_app_count (pos max) user =
    count_apps_by_owner user >>= λ n. raise_if (leb max n) (billing BillingError.app_limit)

unfoldable pub assert_can_create_app : ℕ → M (Unit {0})
assert_can_create_app user = do
  ensure_user_subscription user
  sub ← get_user_subscription user
  raise_if (not (status_allows_usage sub.subscription.status))
      (billing BillingError.subscription_inactive)
  check_app_count sub.plan.max_apps user

unfoldable pub check_owner_message_quota : ℕ → M (Unit {0})
check_owner_message_quota owner = do
  ensure_user_subscription owner
  sub ← get_user_subscription owner
  raise_if (not (status_allows_usage sub.subscription.status))
      (billing BillingError.subscription_inactive)
  n ← sum_owner_message_usage owner
  raise_if (ltz (pos 0) sub.plan.messages_limit && not (ltz (pos n) sub.plan.messages_limit))
      (billing BillingError.message_limit)

unfoldable pub check_quota_of : Option App → M (Unit {0})
check_quota_of none = pure tt
check_quota_of (some app) = check_owner_message_quota app.owner_id

unfoldable pub check_message_quota : ℕ → M (Unit {0})
check_message_quota app = optional (get_app_by_id app) >>= λ a. check_quota_of a

unfoldable pub check_quota_in : ℕ → Option App → M (Unit {0})
check_quota_in workspace none = pure tt
check_quota_in workspace (some app) =
    if workspace == app.sandbox_workspace_id
    then pure tt
    else check_owner_message_quota app.owner_id

unfoldable pub check_message_quota_by_workspace : ℕ → M (Unit {0})
check_message_quota_by_workspace workspace =
    optional (get_app_by_workspace_id workspace) >>= λ a. check_quota_in workspace a

unfoldable pub record_message_in : ℕ → Option App → M (Unit {0})
record_message_in workspace none = pure tt
record_message_in workspace (some app) =
    if workspace == app.sandbox_workspace_id then pure tt else increment_app_message_usage app.id

unfoldable pub record_message_by_workspace_id : ℕ → M (Unit {0})
record_message_by_workspace_id workspace =
    optional (get_app_by_workspace_id workspace) >>= λ a. record_message_in workspace a

unfoldable pub check_can_create_webhook : ℕ → M (Unit {0})
check_can_create_webhook id = do
  app ← no_rows_is (billing BillingError.webhooks_not_allowed) (get_app_by_id id)
  ensure_user_subscription app.owner_id
  sub ←
      on_error (λ e. billing BillingError.webhooks_not_allowed) (get_user_subscription app.owner_id)
  raise_if (not (status_allows_usage sub.subscription.status))
      (billing BillingError.subscription_inactive)
  raise_if (not sub.plan.webhooks_enabled) (billing BillingError.webhooks_not_allowed)

unfoldable pub check_video_minutes : ℕ → ℕ → M (Unit {0})
check_video_minutes limit owner =
    if ltb 0 limit
    then (sum_owner_video_minutes_usage owner >>= λ used.
        raise_if (leb limit used) (billing BillingError.video_minutes_limit))
    else pure tt

unfoldable pub check_owner_video : ℕ → M (Unit {0})
check_owner_video owner = do
  ensure_user_subscription owner
  sub ← on_error (λ e. billing BillingError.video_not_allowed) (get_user_subscription owner)
  raise_if (not (status_allows_usage sub.subscription.status))
      (billing BillingError.subscription_inactive)
  raise_if (not sub.plan.video_calls_enabled) (billing BillingError.video_not_allowed)
  check_video_minutes sub.plan.video_minutes_limit owner

unfoldable pub check_video_in : ℕ → Option App → M (Unit {0})
check_video_in workspace none = pure tt
check_video_in workspace (some app) =
    if workspace == app.sandbox_workspace_id then pure tt else check_owner_video app.owner_id

unfoldable pub check_can_start_video_call : ℕ → M (Unit {0})
check_can_start_video_call workspace =
    optional (get_app_by_workspace_id workspace) >>= λ a. check_video_in workspace a

unfoldable pub participants_for : Option App → M ℕ
participants_for none = pure 0
participants_for (some app) = do
  ensure_user_subscription app.owner_id
  sub ← get_user_subscription app.owner_id
  pure sub.plan.max_call_participants

unfoldable pub max_call_participants_for_workspace : ℕ → M ℕ
max_call_participants_for_workspace workspace =
    optional (get_app_by_workspace_id workspace) >>= λ a. participants_for a

unfoldable pub record_minutes_in : ℕ → ℕ → Option App → M (Unit {0})
record_minutes_in workspace minutes none = pure tt
record_minutes_in workspace minutes (some app) =
    if workspace == app.sandbox_workspace_id
    then pure tt
    else increment_app_video_minutes app.id minutes

unfoldable pub record_video_minutes_by_workspace_id : ℕ → ℕ → M (Unit {0})
record_video_minutes_by_workspace_id workspace minutes =
    if leb minutes 0
    then pure tt
    else (optional (get_app_by_workspace_id workspace) >>= λ a.
        record_minutes_in workspace minutes a)
