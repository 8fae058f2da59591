-- ===== src/Db/Accounts.antt =====
-- The tables plans, user_subscriptions, apps and usage_counters (internal/db/models.go), with the
-- columns that the services read. `period_month` counts months.
use brenox_engine.Base.{ℕ, List, String, Bool, true, false, Option, ltb, ◌==◌}

pub data ℤ : Type 0 where
  pos : ℕ → ℤ
  negsuc : ℕ → ℤ

-- a < b, a ≡ b
abbrev pub ltz : ℤ → ℤ → Bool
ltz (pos a) (pos b) = ltb a b
ltz (pos a) (negsuc b) = false
ltz (negsuc a) (pos b) = true
ltz (negsuc a) (negsuc b) = ltb b a

abbrev pub eqz : ℤ → ℤ → Bool
eqz (pos a) (pos b) = a == b
eqz (pos a) (negsuc b) = false
eqz (negsuc a) (pos b) = false
eqz (negsuc a) (negsuc b) = a == b

pub record Plan : Type 0 where
  pub slug : String
  pub name : String
  pub description : String
  pub price_cents : ℕ
  pub stripe_price_id : Option String
  pub messages_limit : ℤ
  pub connections_limit : ℤ
  pub retention_days : ℤ
  pub webhooks_enabled : Bool
  pub video_calls_enabled : Bool
  pub moderation_enabled : Bool
  pub is_active : Bool
  pub is_highlighted : Bool
  pub sort_order : ℤ
  pub max_apps : ℤ
  pub video_minutes_limit : ℕ
  pub max_call_participants : ℕ

pub record Subscription : Type 0 where
  pub user_id : ℕ
  pub plan_slug : String
  pub status : String
  pub stripe_customer_id : Option String
  pub stripe_subscription_id : Option String

pub record App : Type 0 where
  pub id : ℕ
  pub owner_id : ℕ
  pub workspace_id : ℕ
  pub sandbox_workspace_id : ℕ

pub record UsageCounter : Type 0 where
  pub app_id : ℕ
  pub period_month : ℕ
  pub messages_count : ℕ
  pub video_minutes : ℕ

pub record Accounts : Type 0 where
  pub plans : List Plan
  pub subscriptions : List Subscription
  pub apps : List App
  pub usage : List UsageCounter
  pub month : ℕ
