-- ===== src/Billing/Plans.antt =====
-- internal/billing/service.go and types.go: the administration of the plans. The requests' numbers
-- are Go's signed ones; the answers are the stored plan and its number of subscriptions.
use text.Mathlib.Text.{◌==◌ as str_eq}
use brenox_engine.Base.{
  ℕ, Bool, true, false, not, ◌||◌, List, [], ◌∷◌, Option, none, some, String, ltb, ◌==◌, is_some,
  if◌then◌else◌,
}
use brenox_engine.Base.Monad.{pure, ◌>>=◌, ◌>>◌}
use brenox_engine.Db.{billing, BillingError, M, optional, no_rows_is, raise_if, or_raise}
use brenox_engine.Db.Accounts.{ℤ, pos, negsuc, Plan}
use brenox_engine.Queries.Plans.{
  PlanChange, get_plan, count_subscriptions_for_plan, list_plans_admin, create_plan, update_plan,
  delete_plan,
}
use brenox_engine.Strings.{Strings}

pub record CreatePlanRequest : Type 0 where
  pub slug : String
  pub name : String
  pub description : String
  pub price_cents : ℤ
  pub stripe_price_id : String
  pub messages_limit : ℤ
  pub connections_limit : ℤ
  pub retention_days : ℤ
  pub max_apps : ℤ
  pub video_minutes_limit : ℤ
  pub max_call_participants : ℤ
  pub webhooks_enabled : Bool
  pub video_calls_enabled : Bool
  pub moderation_enabled : Bool
  pub is_active : Bool
  pub is_highlighted : Bool
  pub sort_order : ℤ

-- `none` for a nil pointer
pub record UpdatePlanRequest : Type 0 where
  pub name : Option String
  pub description : Option String
  pub price_cents : Option ℤ
  pub stripe_price_id : Option String
  pub messages_limit : Option ℤ
  pub connections_limit : Option ℤ
  pub retention_days : Option ℤ
  pub max_apps : Option ℤ
  pub video_minutes_limit : Option ℤ
  pub max_call_participants : Option ℤ
  pub webhooks_enabled : Option Bool
  pub video_calls_enabled : Option Bool
  pub moderation_enabled : Option Bool
  pub is_active : Option Bool
  pub is_highlighted : Option Bool
  pub sort_order : Option ℤ

pub record AdminPlan : Type 0 where
  pub plan : Plan
  pub subscription_count : ℕ

abbrev pub plan_slug_pattern : String
plan_slug_pattern = "^[a-z0-9]+(?:-[a-z0-9]+)*$"

unfoldable pub normalize_plan_slug : Strings → String → Option String
normalize_plan_slug lib raw =
    let slug = lib.to_lower (lib.trim_space raw) in
    if str_eq slug "" || not (lib.matches plan_slug_pattern slug) then none else some slug

abbrev pub is_negative : ℤ → Bool
is_negative (pos n) = false
is_negative (negsuc n) = true

-- `< -1`
abbrev pub is_below_minus_one : ℤ → Bool
is_below_minus_one (pos n) = false
is_below_minus_one (negsuc n) = ltb 0 n

-- A number that the guard before has found not to be negative.
abbrev pub natural : ℤ → ℕ
natural (pos n) = n
natural (negsuc n) = 0

unfoldable pub has_bad_number : CreatePlanRequest → Bool
has_bad_number r =
    is_negative r.price_cents
    || (is_negative r.messages_limit
        || (is_negative r.connections_limit
            || (is_negative r.retention_days
                || (is_below_minus_one r.max_apps
                    || (is_negative r.video_minutes_limit
                        || is_negative r.max_call_participants)))))

unfoldable pub default_apps : ℤ → ℤ
default_apps (pos n) = if n == 0 then pos 1 else pos n
default_apps (negsuc n) = negsuc n

unfoldable pub blank_is_none : String → Option String
blank_is_none s = if str_eq s "" then none else some s

unfoldable pub new_plan : Strings → String → CreatePlanRequest → Plan
new_plan lib slug r = record {
  slug = slug;
  name = lib.trim_space r.name;
  description = lib.trim_space r.description;
  price_cents = natural r.price_cents;
  stripe_price_id = blank_is_none (lib.trim_space r.stripe_price_id);
  messages_limit = r.messages_limit;
  connections_limit = r.connections_limit;
  retention_days = r.retention_days;
  webhooks_enabled = r.webhooks_enabled;
  video_calls_enabled = r.video_calls_enabled;
  moderation_enabled = r.moderation_enabled;
  is_active = r.is_active;
  is_highlighted = r.is_highlighted;
  sort_order = r.sort_order;
  max_apps = default_apps r.max_apps;
  video_minutes_limit = natural r.video_minutes_limit;
  max_call_participants = natural r.max_call_participants;
}

abbrev pub no_change : PlanChange
no_change = record {
  name = none;
  description = none;
  price_cents = none;
  stripe_price_id = none;
  messages_limit = none;
  connections_limit = none;
  retention_days = none;
  webhooks_enabled = none;
  video_calls_enabled = none;
  moderation_enabled = none;
  is_active = none;
  is_highlighted = none;
  sort_order = none;
  max_apps = none;
  video_minutes_limit = none;
  max_call_participants = none;
}

abbrev pub highlight_off : PlanChange
highlight_off = record no_change { is_highlighted = some false }

unfoldable pub clear_each : String → List Plan → M (Unit {0})
clear_each keep [] = pure tt
clear_each keep (p ∷ ps) =
    let rest = clear_each keep ps in
    if str_eq p.slug keep || not p.is_highlighted
    then rest
    else (update_plan p.slug highlight_off >>= λ _. rest)

unfoldable pub clear_other_highlights : String → M (Unit {0})
clear_other_highlights keep = list_plans_admin >>= λ plans. clear_each keep plans

unfoldable pub clear_if : Bool → String → M (Unit {0})
clear_if highlighted slug = if highlighted then clear_other_highlights slug else pure tt

unfoldable pub admin_create_plan : Strings → CreatePlanRequest → M AdminPlan
admin_create_plan lib r = do
  slug ← or_raise (normalize_plan_slug lib r.slug) (billing BillingError.invalid_slug)
  raise_if (str_eq (lib.trim_space r.name) "") (billing BillingError.invalid_request)
  raise_if (has_bad_number r) (billing BillingError.invalid_request)
  existing ← optional (get_plan slug)
  raise_if (is_some existing) (billing BillingError.slug_taken)
  plan ← create_plan (new_plan lib slug r)
  clear_if r.is_highlighted slug
  pure (record { plan = plan; subscription_count = 0 })

abbrev pub is_blank : Strings → Option String → Bool
is_blank lib none = false
is_blank lib (some s) = str_eq (lib.trim_space s) ""

abbrev pub fails : (ℤ → Bool) → Option ℤ → Bool
fails p none = false
fails p (some n) = p n

abbrev pub map_opt : {A B : Type 0} → (A → B) → Option A → Option B
map_opt f none = none
map_opt f (some a) = some (f a)

unfoldable pub asks_nothing : UpdatePlanRequest → Bool
asks_nothing r = not (
    is_some r.name
    || (is_some r.description
        || (is_some r.price_cents
            || (is_some r.stripe_price_id
                || (is_some r.messages_limit
                    || (is_some r.connections_limit
                        || (is_some r.retention_days
                            || (is_some r.max_apps
                                || (is_some r.video_minutes_limit
                                    || (is_some r.max_call_participants
                                        || (is_some r.webhooks_enabled
                                            || (is_some r.video_calls_enabled
                                                || (is_some r.moderation_enabled
                                                    || (is_some r.is_active
                                                        || (is_some r.is_highlighted
                                                            || is_some r.sort_order)))))))))))))))

-- The checks of the single fields, which all answer with the same error. The limits on messages and
-- connections and the days of retention are not checked.
unfoldable pub has_bad_field : Strings → UpdatePlanRequest → Bool
has_bad_field lib r =
    is_blank lib r.name
    || (fails is_negative r.price_cents
        || (fails is_below_minus_one r.max_apps
            || (fails is_negative r.video_minutes_limit
                || fails is_negative r.max_call_participants)))

unfoldable pub change_of : Strings → UpdatePlanRequest → PlanChange
change_of lib r = record {
  name = map_opt lib.trim_space r.name;
  description = map_opt lib.trim_space r.description;
  price_cents = map_opt natural r.price_cents;
  stripe_price_id = map_opt lib.trim_space r.stripe_price_id;
  messages_limit = r.messages_limit;
  connections_limit = r.connections_limit;
  retention_days = r.retention_days;
  webhooks_enabled = r.webhooks_enabled;
  video_calls_enabled = r.video_calls_enabled;
  moderation_enabled = r.moderation_enabled;
  is_active = r.is_active;
  is_highlighted = r.is_highlighted;
  sort_order = r.sort_order;
  max_apps = r.max_apps;
  video_minutes_limit = map_opt natural r.video_minutes_limit;
  max_call_participants = map_opt natural r.max_call_participants;
}

abbrev pub is_true : Option Bool → Bool
is_true none = false
is_true (some b) = b

-- The plan that is answered: read again after the other highlights are cleared.
unfoldable pub refresh : Bool → String → Plan → M Plan
refresh highlighted slug plan =
    if highlighted then (clear_other_highlights slug >>= λ _. get_plan slug) else pure plan

unfoldable pub admin_update_plan : Strings → String → UpdatePlanRequest → M AdminPlan
admin_update_plan lib raw r = do
  raise_if (str_eq (lib.trim_space raw) "") (billing BillingError.invalid_request)
  no_rows_is (billing BillingError.not_found) (get_plan (lib.trim_space raw))
  raise_if (asks_nothing r) (billing BillingError.invalid_request)
  raise_if (has_bad_field lib r) (billing BillingError.invalid_request)
  stored ← update_plan (lib.trim_space raw) (change_of lib r)
  plan ← refresh (is_true r.is_highlighted) (lib.trim_space raw) stored
  n ← count_subscriptions_for_plan (lib.trim_space raw)
  pure (record { plan = plan; subscription_count = n })

unfoldable pub admin_delete_plan : Strings → String → M (Unit {0})
admin_delete_plan lib raw = do
  raise_if (str_eq (lib.trim_space raw) "") (billing BillingError.invalid_request)
  no_rows_is (billing BillingError.not_found) (get_plan (lib.trim_space raw))
  n ← count_subscriptions_for_plan (lib.trim_space raw)
  raise_if (ltb 0 n) (billing BillingError.plan_in_use)
  delete_plan (lib.trim_space raw)
