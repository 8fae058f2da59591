-- ===== src/Billing/Stripe.antt =====
-- internal/billing/service.go and errors.go: what the events from Stripe do to the subscriptions.
-- The Stripe library is not part of the repository: its constants, the check of a payload's signature
-- and the reading of a decimal number are a parameter, and an event comes with what decoding its data
-- gives, `none` where json.Unmarshal fails.
use text.Mathlib.Text.{◌==◌ as str_eq}
use brenox_engine.Base.{ℕ, Bool, not, ◌||◌, Option, none, some, String, if◌then◌else◌}
use brenox_engine.Base.Monad.{pure, ◌>>=◌, ◌>>◌}
use brenox_engine.Db.{billing, BillingError, encoding_failed, M, optional, raise_if, or_raise}
use brenox_engine.Db.Accounts.{Subscription}
use brenox_engine.Queries.Billing.{get_default_plan}
use brenox_engine.Queries.Plans.{
  SubscriptionChange, update_user_subscription, get_user_subscription_by_stripe_subscription_id,
}
use brenox_engine.Billing.Quotas.{ensure_user_subscription}
use brenox_engine.Billing.Plans.{blank_is_none}

-- A map read at a missing key gives "".
abbrev pub Metadata : Type 0
Metadata = String → String

pub record CheckoutSession : Type 0 where
  pub metadata : Metadata
  pub customer : String
  pub subscription : String

pub record StripeSubscription : Type 0 where
  pub id : String
  pub status : String
  pub metadata : Metadata

pub record Event : Type 0 where
  pub event_type : String
  pub session : Option CheckoutSession
  pub subscription : Option StripeSubscription

pub record StripeLibrary : Type 0 where
  -- the constants SubscriptionStatus…
  pub active : String
  pub trialing : String
  pub past_due : String
  pub canceled : String
  pub unpaid : String
  -- webhook.ConstructEvent: payload, signature, secret
  pub construct_event : String → String → String → Option Event
  -- strconv.ParseInt
  pub parse_int : String → Option ℕ

abbrev pub status_incomplete : String
status_incomplete = "incomplete"

abbrev pub status_trialing : String
status_trialing = "trialing"

abbrev pub status_active : String
status_active = "active"

abbrev pub status_past_due : String
status_past_due = "past_due"

abbrev pub status_canceled : String
status_canceled = "canceled"

-- The cases for `incomplete` and `incomplete_expired` give what the default gives.
unfoldable pub map_stripe_status : StripeLibrary → String → String
map_stripe_status st status =
    if str_eq status st.active
    then status_active
    else if str_eq status st.trialing
    then status_trialing
    else if str_eq status st.past_due
    then status_past_due
    else if str_eq status st.canceled || str_eq status st.unpaid
    then status_canceled
    else status_incomplete

unfoldable pub parse_metadata_int64 : StripeLibrary → Metadata → String → Option ℕ
parse_metadata_int64 st metadata key =
    if str_eq (metadata key) "" then none else st.parse_int (metadata key)

unfoldable pub checkout_change : CheckoutSession → SubscriptionChange
checkout_change c = record {
  plan_slug = blank_is_none (c.metadata "plan_slug");
  status = some status_active;
  stripe_customer_id = blank_is_none c.customer;
  stripe_subscription_id = blank_is_none c.subscription;
}

unfoldable pub handle_checkout_completed : StripeLibrary → Event → M (Unit {0})
handle_checkout_completed st event = do
  session ← or_raise event.session encoding_failed
  user ← or_raise (parse_metadata_int64 st session.metadata "user_id") encoding_failed
  ensure_user_subscription user
  update_user_subscription user (checkout_change session)
  pure tt

unfoldable pub plan_or_default : String → M String
plan_or_default slug =
    if str_eq slug "" then (get_default_plan >>= λ plan. pure plan.slug) else pure slug

unfoldable pub adopted_change : StripeLibrary → StripeSubscription → String → SubscriptionChange
adopted_change st sub slug = record {
  plan_slug = some slug;
  status = some (map_stripe_status st sub.status);
  stripe_customer_id = none;
  stripe_subscription_id = some sub.id;
}

-- A subscription that no row has yet is given to the user that its metadata name, if they do.
unfoldable pub adopt : StripeLibrary → StripeSubscription → Option ℕ → M (Unit {0})
adopt st sub none = pure tt
adopt st sub (some user) = do
  slug ← plan_or_default (sub.metadata "plan_slug")
  ensure_user_subscription user
  update_user_subscription user (adopted_change st sub slug)
  pure tt

abbrev pub deleted_type : String
deleted_type = "customer.subscription.deleted"

unfoldable pub followed_change : StripeLibrary → String → StripeSubscription → SubscriptionChange
followed_change st event_type sub = record {
  plan_slug = blank_is_none (sub.metadata "plan_slug");
  status =
      some (
        if str_eq event_type deleted_type
        then status_canceled
        else map_stripe_status st sub.status);
  stripe_customer_id = none;
  stripe_subscription_id = none;
}

unfoldable pub follow :
    StripeLibrary → String → StripeSubscription → Option Subscription → M (Unit {0})
follow st event_type sub none = adopt st sub (parse_metadata_int64 st sub.metadata "user_id")
follow st event_type sub (some existing) = do
  update_user_subscription existing.user_id (followed_change st event_type sub)
  pure tt

unfoldable pub handle_subscription_changed : StripeLibrary → Event → M (Unit {0})
handle_subscription_changed st event = do
  sub ← or_raise event.subscription encoding_failed
  if str_eq sub.id ""
      then pure tt
      else (optional (get_user_subscription_by_stripe_subscription_id sub.id) >>= λ existing.
          follow st event.event_type sub existing)

unfoldable pub dispatch : StripeLibrary → Event → M (Unit {0})
dispatch st event =
    if str_eq event.event_type "checkout.session.completed"
    then handle_checkout_completed st event
    else if str_eq event.event_type "customer.subscription.updated"
        || str_eq event.event_type deleted_type
    then handle_subscription_changed st event
    else pure tt

-- `enabled` is config.Enabled(), `secret` config.StripeWebhookSecret.
unfoldable pub handle_stripe_webhook :
    StripeLibrary → Bool → String → String → String → M (Unit {0})
handle_stripe_webhook st enabled secret payload signature = do
  raise_if (not enabled || str_eq secret "") (billing BillingError.stripe_not_configured)
  event ← or_raise (st.construct_event payload signature secret) encoding_failed
  dispatch st event
