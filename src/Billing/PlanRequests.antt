-- ===== src/Billing/PlanRequests.antt =====
-- The three requests on plans, together.
use brenox_engine.Base.{String, arith, count-delete-le}
use brenox_engine.Base.Monad.{pure, ◌>>=◌}
use brenox_engine.Db.{M, accounts}
use brenox_engine.Db.Accounts.{Accounts}
use brenox_engine.Db.Triple.{Triple, Triple-bind, Triple-pure, Triple-weaken}
use brenox_engine.Queries.Plans.{is_slug}
use brenox_engine.Strings.{Strings}
use brenox_engine.Billing.Plans.{
  CreatePlanRequest, UpdatePlanRequest, AdminPlan, admin_create_plan, admin_update_plan,
  admin_delete_plan,
}
use brenox_engine.Billing.Highlights.{lit}
use brenox_engine.Billing.PlanRules.{UniqueSlugs, OneHighlight}
use brenox_engine.Billing.PlanCreation.{admin_create_plan-OneHighlight}
use brenox_engine.Billing.PlanUpdates.{admin_update_plan-OneHighlight}
use brenox_engine.Billing.PlanDeletion.{Deleted, admin_delete_plan-Deleted}

pub data PlanRequest : Type 0 where
  creates : CreatePlanRequest → PlanRequest
  updates : String → UpdatePlanRequest → PlanRequest
  deletes : String → PlanRequest

unfoldable pub serve : Strings → PlanRequest → M (Unit {0})
serve lib (creates r) = admin_create_plan lib r >>= λ (a : AdminPlan). pure tt
serve lib (updates slug r) = admin_update_plan lib slug r >>= λ (a : AdminPlan). pure tt
serve lib (deletes slug) = admin_delete_plan lib slug

-- If no two plans have the same slug and at most one is highlighted, both still hold after a request
-- to create, update or delete a plan has passed, also one that highlights another plan; if the
-- request fails, whichever queries do, no two plans have the same slug.
pub serve-OneHighlight :
    (lib : Strings) (q : PlanRequest) (T : Accounts)
    → OneHighlight T
    → Triple accounts T (serve lib q) (λ x T'. OneHighlight T') (λ e T'. UniqueSlugs T')
unfolding serve
serve-OneHighlight lib (creates r) T v = Triple-bind (
    Triple-weaken _ _ _ _ (admin_create_plan-OneHighlight lib r T v) (λ a T' h. Triple-pure tt h)
      (λ e T' h. h))
serve-OneHighlight lib (updates slug r) T v = Triple-bind (
    Triple-weaken _ _ _ _ (admin_update_plan-OneHighlight lib slug r T v)
      (λ a T' h. Triple-pure tt h) (λ e T' h. h))
serve-OneHighlight lib (deletes slug) T v =
    Triple-weaken _ _ _ _ (admin_delete_plan-Deleted lib slug T) (λ a T' d. removed T' d)
      (λ e T' same. rw same v.slugs)
  where
    removed : (T' : Accounts) → Deleted (lib.trim_space slug) T T' → OneHighlight T'
    removed T' d = rw d.tables record {
      slugs = record {
        run = λ s. omega (
          arith,
          v.slugs.run s,
          count-delete-le (is_slug s) (is_slug (lib.trim_space slug)) T.plans,
        );
      };
      highlights =
          omega (arith, v.highlights, count-delete-le lit (is_slug (lib.trim_space slug)) T.plans);
    }
