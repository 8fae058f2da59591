-- ===== src/Queries/Plans.antt =====
-- internal/db/billing.sql.go: the queries that administer plans and subscriptions.
use text.Mathlib.Text.{◌==◌ as str_eq}
use brenox_engine.Base.{
  ℕ, Bool, not, List, ◌∷◌, Option, none, some, String, ◌==◌, false, select, update, delete, count,
  sort_by, ltb, if◌then◌else◌,
}
use brenox_engine.Base.Monad.{Result, ok, err}
use brenox_engine.Db.{
  Error, no_rows, unique_violation, database_failed, M, accounts, read, read_all, write,
}
use brenox_engine.Db.Accounts.{ℤ, Plan, Subscription, Accounts}
use brenox_engine.Queries.Billing.{find_plan, find_stored, is_before}

abbrev pub get_plan : String → M Plan
get_plan slug = read accounts (find_plan slug)

abbrev pub is_on : String → Subscription → Bool
is_on slug s = str_eq s.plan_slug slug

abbrev pub count_subscriptions_for_plan : String → M ℕ
count_subscriptions_for_plan slug = read_all accounts (λ t. count (is_on slug) t.subscriptions)

-- ORDER BY sort_order ASC, price_cents ASC
abbrev pub list_plans_admin : M (List Plan)
list_plans_admin = read_all accounts (λ t. sort_by (λ p q. not (is_before q p)) t.plans)

-- PRIMARY KEY (slug)
abbrev pub insert_plan : Plan → ℕ → Accounts → Result Error Plan × Accounts
insert_plan p now t = elim (find_plan p.slug t) [
  | none ↦ (ok p, record t { plans = p ∷ t.plans })
  | some q ↦ (err unique_violation, t)
]

abbrev pub create_plan : Plan → M Plan
create_plan p = write accounts (insert_plan p)

-- The columns that UpdatePlan sets, `none` for NULL.
pub record PlanChange : Type 0 where
  pub name : Option String
  pub description : Option String
  pub price_cents : Option ℕ
  pub stripe_price_id : Option String
  pub messages_limit : Option ℤ
  pub connections_limit : Option ℤ
  pub retention_days : Option ℤ
  pub webhooks_enabled : Option Bool
  pub video_calls_enabled : Option Bool
  pub moderation_enabled : Option Bool
  pub is_active : Option Bool
  pub is_highlighted : Option Bool
  pub sort_order : Option ℤ
  pub max_apps : Option ℤ
  pub video_minutes_limit : Option ℕ
  pub max_call_participants : Option ℕ

abbrev pub coalesce {ℓ} : {A : Type ℓ} → Option A → A → A
coalesce none a = a
coalesce (some x) a = x

abbrev pub coalesce_null {ℓ} : {A : Type ℓ} → Option A → Option A → Option A
coalesce_null none a = a
coalesce_null (some x) a = some x

abbrev pub changed : PlanChange → Plan → Plan
changed c p = record {
  slug = p.slug;
  name = coalesce c.name p.name;
  description = coalesce c.description p.description;
  price_cents = coalesce c.price_cents p.price_cents;
  stripe_price_id = coalesce_null c.stripe_price_id p.stripe_price_id;
  messages_limit = coalesce c.messages_limit p.messages_limit;
  connections_limit = coalesce c.connections_limit p.connections_limit;
  retention_days = coalesce c.retention_days p.retention_days;
  webhooks_enabled = coalesce c.webhooks_enabled p.webhooks_enabled;
  video_calls_enabled = coalesce c.video_calls_enabled p.video_calls_enabled;
  moderation_enabled = coalesce c.moderation_enabled p.moderation_enabled;
  is_active = coalesce c.is_active p.is_active;
  is_highlighted = coalesce c.is_highlighted p.is_highlighted;
  sort_order = coalesce c.sort_order p.sort_order;
  max_apps = coalesce c.max_apps p.max_apps;
  video_minutes_limit = coalesce c.video_minutes_limit p.video_minutes_limit;
  max_call_participants = coalesce c.max_call_participants p.max_call_participants;
}

abbrev pub is_slug : String → Plan → Bool
is_slug slug p = str_eq p.slug slug

abbrev pub change_plans : String → PlanChange → Accounts → Accounts
change_plans slug c t = record t { plans = update (is_slug slug) (changed c) t.plans }

abbrev pub answer_plan : String → Accounts → Result Error Plan × Accounts
answer_plan slug t = elim (find_plan slug t) [ none ↦ (err no_rows, t) | some p ↦ (ok p, t) ]

abbrev pub update_plan : String → PlanChange → M Plan
update_plan slug c = write accounts (λ now t. answer_plan slug (change_plans slug c t))

-- user_subscriptions.plan_slug REFERENCES plans (slug)
abbrev pub remove_plan : String → ℕ → Accounts → Result Error (Unit {0}) × Accounts
remove_plan slug now t =
    if ltb 0 (count (is_on slug) t.subscriptions)
    then (err database_failed, t)
    else (ok tt, record t { plans = delete (is_slug slug) t.plans })

abbrev pub delete_plan : String → M (Unit {0})
delete_plan slug = write accounts (remove_plan slug)

pub record SubscriptionChange : Type 0 where
  pub plan_slug : Option String
  pub status : Option String
  pub stripe_customer_id : Option String
  pub stripe_subscription_id : Option String

abbrev pub changed_subscription : SubscriptionChange → Subscription → Subscription
changed_subscription c s = record {
  user_id = s.user_id;
  plan_slug = coalesce c.plan_slug s.plan_slug;
  status = coalesce c.status s.status;
  stripe_customer_id = coalesce_null c.stripe_customer_id s.stripe_customer_id;
  stripe_subscription_id = coalesce_null c.stripe_subscription_id s.stripe_subscription_id;
}

abbrev pub change_subscription : ℕ → SubscriptionChange → Accounts → Accounts
change_subscription user c t = record t {
  subscriptions = update (λ s. s.user_id == user) (changed_subscription c) t.subscriptions;
}

-- The row that the UPDATE returns. A plan that does not exist violates the foreign key.
abbrev pub store_subscription :
    ℕ → SubscriptionChange → ℕ → Accounts → Result Error Subscription × Accounts
store_subscription user c now t = elim (find_stored user t) [
  | none ↦ (err no_rows, t)
  | some s ↦ elim (find_plan (coalesce c.plan_slug s.plan_slug) t) [
    | none ↦ (err database_failed, t)
    | some p ↦ (ok (changed_subscription c s), change_subscription user c t)
  ]
]

abbrev pub update_user_subscription : ℕ → SubscriptionChange → M Subscription
update_user_subscription user c = write accounts (store_subscription user c)

abbrev pub has_stripe_id : String → Subscription → Bool
has_stripe_id id s = elim s.stripe_subscription_id [ none ↦ false | some x ↦ str_eq x id ]

abbrev pub find_by_stripe_id : String → Accounts → Option Subscription
find_by_stripe_id id t = select (has_stripe_id id) t.subscriptions

abbrev pub get_user_subscription_by_stripe_subscription_id : String → M Subscription
get_user_subscription_by_stripe_subscription_id id = read accounts (find_by_stripe_id id)
