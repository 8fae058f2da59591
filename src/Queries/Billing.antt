-- ===== src/Queries/Billing.antt =====
-- internal/db/billing.sql.go and apps.sql.go: the queries on plans, subscriptions, apps and usage.
-- `month` is the current month, which the queries take from NOW().
use text.Mathlib.Text.{◌==◌ as str_eq}
use brenox_engine.Base.{
  ℕ, ◌+◌, Bool, ◌&&◌, ◌||◌, List, [], ◌∷◌, Option, none, some, String, ◌==◌, ltb, if◌then◌else◌,
  is_some, select, select_all, update, count,
}
use brenox_engine.Base.Monad.{Result, ok, err}
use brenox_engine.Db.{Error, unique_violation, M, accounts, read, read_all, write}
use brenox_engine.Db.Accounts.{ltz, eqz, Plan, Subscription, App, UsageCounter, Accounts}

-- What GetUserSubscription joins.
pub record SubscriptionRow : Type 0 where
  pub subscription : Subscription
  pub plan : Plan

abbrev pub find_plan : String → Accounts → Option Plan
find_plan slug t = select (λ p. str_eq p.slug slug) t.plans

abbrev pub join_plan : Subscription → Option Plan → Option SubscriptionRow
join_plan s none = none
join_plan s (some p) = some (record { subscription = s; plan = p })

abbrev pub join_of : Accounts → Option Subscription → Option SubscriptionRow
join_of t none = none
join_of t (some s) = join_plan s (find_plan s.plan_slug t)

abbrev pub find_stored : ℕ → Accounts → Option Subscription
find_stored user t = select (λ s. s.user_id == user) t.subscriptions

abbrev pub find_subscription : ℕ → Accounts → Option SubscriptionRow
find_subscription user t = join_of t (find_stored user t)

abbrev pub get_user_subscription : ℕ → M SubscriptionRow
get_user_subscription user = read accounts (find_subscription user)

-- ORDER BY sort_order ASC, price_cents ASC
abbrev pub is_before : Plan → Plan → Bool
is_before p q =
    ltz p.sort_order q.sort_order
    || (eqz p.sort_order q.sort_order && ltb p.price_cents q.price_cents)

abbrev pub first_of : Plan → Option Plan → Option Plan
first_of p none = some p
first_of p (some q) = some (if is_before q p then q else p)

abbrev pub first_plan : List Plan → Option Plan
first_plan [] = none
first_plan (p ∷ ps) = first_of p (first_plan ps)

abbrev pub find_default : Accounts → Option Plan
find_default t = first_plan (select_all (λ p. p.is_active) t.plans)

abbrev pub get_default_plan : M Plan
get_default_plan = read accounts find_default

-- UNIQUE (user_id)
abbrev pub insert_subscription :
    ℕ → String → String → ℕ → Accounts → Result Error (Unit {0}) × Accounts
insert_subscription user slug status now t = elim (find_stored user t) [
  | none ↦
      let s : Subscription = record {
        user_id = user;
        plan_slug = slug;
        status = status;
        stripe_customer_id = none;
        stripe_subscription_id = none;
      } in
      (ok tt, record t { subscriptions = s ∷ t.subscriptions })
  | some s ↦ (err unique_violation, t)
]

abbrev pub create_user_subscription : ℕ → String → String → M (Unit {0})
create_user_subscription user slug status = write accounts (insert_subscription user slug status)

abbrev pub owned_apps : ℕ → Accounts → ℕ
owned_apps owner t = count (λ a. a.owner_id == owner) t.apps

abbrev pub count_apps_by_owner : ℕ → M ℕ
count_apps_by_owner owner = read_all accounts (owned_apps owner)

abbrev pub find_app : ℕ → Accounts → Option App
find_app id t = select (λ a. a.id == id) t.apps

abbrev pub get_app_by_id : ℕ → M App
get_app_by_id id = read accounts (find_app id)

abbrev pub find_app_of : ℕ → Accounts → Option App
find_app_of workspace t =
    select (λ a. a.workspace_id == workspace || a.sandbox_workspace_id == workspace) t.apps

abbrev pub get_app_by_workspace_id : ℕ → M App
get_app_by_workspace_id workspace = read accounts (find_app_of workspace)

-- JOIN apps a ON a.id = u.app_id WHERE a.owner_id = $1 AND u.period_month = the current month
abbrev pub is_owned_usage : ℕ → Accounts → UsageCounter → Bool
is_owned_usage owner t u =
    u.period_month == t.month
    && is_some (select (λ a. a.id == u.app_id && a.owner_id == owner) t.apps)

abbrev pub sum : (UsageCounter → ℕ) → List UsageCounter → ℕ
sum f [] = 0
sum f (u ∷ us) = f u + sum f us

abbrev pub owner_messages : ℕ → Accounts → ℕ
owner_messages owner t = sum (λ u. u.messages_count) (select_all (is_owned_usage owner t) t.usage)

abbrev pub owner_minutes : ℕ → Accounts → ℕ
owner_minutes owner t = sum (λ u. u.video_minutes) (select_all (is_owned_usage owner t) t.usage)

abbrev pub sum_owner_message_usage : ℕ → M ℕ
sum_owner_message_usage owner = read_all accounts (owner_messages owner)

abbrev pub sum_owner_video_minutes_usage : ℕ → M ℕ
sum_owner_video_minutes_usage owner = read_all accounts (owner_minutes owner)

abbrev pub is_counter : ℕ → ℕ → UsageCounter → Bool
is_counter app month u = u.app_id == app && u.period_month == month

-- ON CONFLICT (app_id, period_month) DO UPDATE
abbrev pub add_usage : ℕ → ℕ → ℕ → ℕ → Accounts → Result Error (Unit {0}) × Accounts
add_usage app messages minutes now t = elim (select (is_counter app t.month) t.usage) [
  | none ↦
      let u : UsageCounter = record {
        app_id = app;
        period_month = t.month;
        messages_count = messages;
        video_minutes = minutes;
      } in
      (ok tt, record t { usage = u ∷ t.usage })
  | some u ↦ (
    ok tt,
    record t {
      usage =
          update (is_counter app t.month)
            (λ c. record c {
              messages_count = c.messages_count + messages;
              video_minutes = c.video_minutes + minutes;
            })
            t.usage;
    },
  )
]

abbrev pub increment_app_message_usage : ℕ → M (Unit {0})
increment_app_message_usage app = write accounts (add_usage app 1 0)

abbrev pub increment_app_video_minutes : ℕ → ℕ → M (Unit {0})
increment_app_video_minutes app minutes = write accounts (add_usage app 0 minutes)
