-- ===== src/Billing.antt =====
-- internal/billing: quotas, metering, the administration of plans and the events from Stripe.
pub mod Quotas
pub mod Frames
pub mod Steady
pub mod Allowances
pub mod Usage
pub mod Plans
pub mod Highlights
pub mod PlanRules
pub mod PlanCreation
pub mod PlanUpdates
pub mod PlanDeletion
pub mod Stripe
pub mod StripeEffects
pub mod PlanRequests
