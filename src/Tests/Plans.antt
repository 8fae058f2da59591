-- ===== src/Tests/Plans.antt =====
-- Runs of the requests on plans and of the events from Stripe.
use text.Mathlib.Text.{◌==◌ as str_eq}
use brenox_engine.Base.{
  ℕ, ◌≡◌, refl, ◌⊎◌, true, false, [], ◌∷◌, none, some, ◌==◌, if◌then◌else◌, arith,
}
use brenox_engine.Db.{accounts}
use brenox_engine.Db.Accounts.{pos, Subscription, Accounts}
use brenox_engine.Db.Triple.{Triple}
use brenox_engine.Queries.Billing.{find_stored}
use brenox_engine.Billing.Quotas.{status_allows_usage}
use brenox_engine.Billing.Allowances.{Provisioned}
use brenox_engine.Billing.Plans.{CreatePlanRequest, admin_delete_plan}
use brenox_engine.Billing.PlanRules.{UniqueSlugs, OneHighlight}
use brenox_engine.Billing.PlanDeletion.{Deleted, admin_delete_plan-Deleted}
use brenox_engine.Billing.PlanRequests.{creates, serve, serve-OneHighlight}
use brenox_engine.Billing.Stripe.{
  StripeSubscription, Event, StripeLibrary, handle_checkout_completed, handle_subscription_changed,
}
use brenox_engine.Billing.StripeEffects.{
  CheckedOut, handle_checkout_completed-CheckedOut, handle_subscription_changed-canceled,
}
use brenox_engine.Tests.Data.{plain, books}

abbrev growth : CreatePlanRequest
growth = record {
  slug = "growth";
  name = "Growth";
  description = "";
  price_cents = pos 2900;
  stripe_price_id = "";
  messages_limit = pos 50000;
  connections_limit = pos 500;
  retention_days = pos 90;
  max_apps = pos 0;
  video_minutes_limit = pos 600;
  max_call_participants = pos 8;
  webhooks_enabled = true;
  video_calls_enabled = true;
  moderation_enabled = false;
  is_active = true;
  is_highlighted = true;
  sort_order = pos 2;
}

books-OneHighlight : OneHighlight books
books-OneHighlight = record { slugs = record { run = λ s. ground arith }; highlights = omega arith }

serve-OneHighlight_example :
    Triple accounts books
      (serve plain (creates growth))
      (λ x T'. OneHighlight T')
      (λ e T'. UniqueSlugs T')
serve-OneHighlight_example = serve-OneHighlight plain (creates growth) books books-OneHighlight

admin_delete_plan-Deleted_example :
    Triple accounts books
      (admin_delete_plan plain "starter")
      (λ x T'. Deleted "starter" books T')
      (λ e T'. T' ≡ books)
admin_delete_plan-Deleted_example = admin_delete_plan-Deleted plain "starter" books

abbrev stripe : StripeLibrary
stripe = record {
  active = "active";
  trialing = "trialing";
  past_due = "past_due";
  canceled = "canceled";
  unpaid = "unpaid";
  construct_event = λ payload signature secret. none;
  parse_int = λ s. if str_eq s "7" then some 7 else none;
}

abbrev paid : Event
paid = record {
  event_type = "checkout.session.completed";
  session = some (record {
    metadata = λ key. if str_eq key "user_id" then "7" else "starter";
    customer = "cus_1";
    subscription = "sub_1";
  });
  subscription = none;
}

handle_checkout_completed-CheckedOut_example :
    Triple accounts books
      (handle_checkout_completed stripe paid)
      (λ x T'. CheckedOut stripe paid books T')
      (λ e T'. (T' ≡ books) ⊎ ((u : ℕ) × Provisioned u books T'))
handle_checkout_completed-CheckedOut_example =
    handle_checkout_completed-CheckedOut stripe paid books

abbrev row_of_seven : Subscription
row_of_seven = record {
  user_id = 7;
  plan_slug = "starter";
  status = "active";
  stripe_customer_id = some "cus_1";
  stripe_subscription_id = some "sub_1";
}

abbrev paid_books : Accounts
paid_books = record books { subscriptions = row_of_seven ∷ [] }

abbrev sub_one : StripeSubscription
sub_one = record { id = "sub_1"; status = "active"; metadata = λ key. "" }

abbrev gone : Event
gone = record {
  event_type = "customer.subscription.deleted";
  session = none;
  subscription = some sub_one;
}

handle_subscription_changed-canceled_example :
    Triple accounts paid_books
      (handle_subscription_changed stripe gone)
      (λ x T'.
        ((s : Subscription) × (find_stored 7 T' ≡ some s) × (status_allows_usage s.status ≡ false))
        × ((j : ℕ) → 7 == j ≡ false → find_stored j T' ≡ find_stored j paid_books))
      (λ e T'. T' ≡ paid_books)
handle_subscription_changed-canceled_example =
    handle_subscription_changed-canceled stripe gone sub_one row_of_seven paid_books refl refl refl
      refl
