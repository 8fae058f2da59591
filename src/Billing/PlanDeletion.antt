-- ===== src/Billing/PlanDeletion.antt =====
-- What AdminDeletePlan does to the tables, whichever queries fail.
use brenox_engine.Base.{◌≡◌, refl, false, some, String, ltb, if◌then◌else◌, count, delete, arith}
use brenox_engine.Base.Monad.{ok, err}
use brenox_engine.Db.{database_failed, accounts}
use brenox_engine.Db.Accounts.{Plan, Accounts}
use brenox_engine.Db.Triple.{
  Triple, Answers, Triple-bind, Triple-read_all, Triple-write, Triple-raise_if,
}
use brenox_engine.Db.Reads.{Triple-required_read}
use brenox_engine.Queries.Billing.{find_plan}
use brenox_engine.Queries.Plans.{is_slug, is_on, remove_plan}
use brenox_engine.Strings.{Strings}
use brenox_engine.Billing.Plans.{admin_delete_plan}

-- A plan is removed on which no subscription is.
pub record Deleted (slug : String) (T T' : Accounts) : Type 0 where
  pub plan : Plan
  pub found : find_plan slug T ≡ some plan
  pub unused : count (is_on slug) T.subscriptions ≡ 0
  pub tables : T' ≡ record T { plans = delete (is_slug slug) T.plans }

-- AdminDeletePlan removes a plan on which no subscription is, or fails and changes nothing.
pub admin_delete_plan-Deleted :
    (lib : Strings) (raw : String) (T : Accounts)
    → Triple accounts T
        (admin_delete_plan lib raw)
        (λ x T'. Deleted (lib.trim_space raw) T T')
        (λ e T'. T' ≡ T)
unfolding admin_delete_plan
admin_delete_plan-Deleted lib raw T = Triple-bind (
    Triple-raise_if _ _
      (λ named. Triple-bind (
        Triple-required_read (find_plan slug) _
          (λ p found. Triple-bind (
            Triple-read_all _
              (Triple-bind (
                Triple-raise_if _ _
                  (λ unused. Triple-write (remove_plan slug) (λ now. removed p found unused) refl)
                  (λ used. refl)))
              refl))
          (λ e. refl)))
      (λ blank. refl))
  where
    slug : String
    slug = lib.trim_space raw

    removed :
        (p : Plan)
        → find_plan slug T ≡ some p
        → ltb 0 (count (is_on slug) T.subscriptions) ≡ false
        → Answers
            (λ x T'. Deleted slug T T')
            (λ e T'. T' ≡ T)
            (if ltb 0 (count (is_on slug) T.subscriptions)
              then (err database_failed, T)
              else (ok tt, record T { plans = delete (is_slug slug) T.plans }))
    removed p found unused =
        rw unused (record { plan = p; found = found; unused = ground arith; tables = refl })
