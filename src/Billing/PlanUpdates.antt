-- ===== src/Billing/PlanUpdates.antt =====
-- What AdminUpdatePlan does to the tables, whichever queries fail.
use brenox_engine.Base.{
  ℕ, ◌≡◌, refl, inl, inr, Bool, true, false, Option, none, some, String, Bool-cases, arith,
  count-update-le,
}
use brenox_engine.Base.Monad.{pure, ◌>>=◌}
use brenox_engine.Db.{accounts}
use brenox_engine.Db.Accounts.{Plan, Accounts}
use brenox_engine.Db.Triple.{
  Triple, Answers, Triple-bind, Triple-pure, Triple-read, Triple-read_all, Triple-write,
  Triple-raise_if, Triple-weaken,
}
use brenox_engine.Db.Reads.{Triple-required_read}
use brenox_engine.Queries.Billing.{find_plan}
use brenox_engine.Queries.Plans.{
  PlanChange, coalesce, count_subscriptions_for_plan, is_slug, changed, change_plans, answer_plan,
}
use brenox_engine.Strings.{Strings}
use brenox_engine.Billing.Plans.{
  UpdatePlanRequest, AdminPlan, admin_update_plan, change_of, is_true, refresh,
}
use brenox_engine.Billing.Highlights.{lit, clear_other_highlights-Cleared, SameSlugs-change}
use brenox_engine.Billing.PlanRules.{
  UniqueSlugs, OneHighlight, SameSlugs-Unique, Cleared-OneHighlight, same,
}

-- If at most one plan is highlighted, and slugs are unique, both still hold after AdminUpdatePlan
-- has passed; if it fails, the slugs are still unique.
pub admin_update_plan-OneHighlight :
    (lib : Strings) (raw : String) (r : UpdatePlanRequest) (T : Accounts)
    → OneHighlight T
    → Triple accounts T
        (admin_update_plan lib raw r)
        (λ a T'. OneHighlight T')
        (λ e T'. UniqueSlugs T')
unfolding admin_update_plan refresh change_of
admin_update_plan-OneHighlight lib raw r T v = Triple-bind (
    Triple-raise_if _ _
      (λ named. Triple-bind (
        Triple-required_read (find_plan slug) _
          (λ p found. Triple-bind (
            Triple-raise_if _ _
              (λ asks. Triple-bind (
                Triple-raise_if _ _
                  (λ sane. Triple-bind (
                    Triple-write (λ now t. answer_plan slug (change_plans slug c t))
                      (λ now. answer (find_plan slug T1) refl) v.slugs))
                  (λ bad. v.slugs)))
              (λ nothing. v.slugs)))
          (λ e. v.slugs)))
      (λ blank. v.slugs))
  where
    slug : String
    slug = lib.trim_space raw

    c : PlanChange
    c = change_of lib r

    T1 : Accounts
    T1 = change_plans slug c T

    u1 : UniqueSlugs T1
    u1 = SameSlugs-Unique T T1 (SameSlugs-change T T slug c (same T)) v.slugs

    answer_of : Plan → ℕ → AdminPlan
    answer_of plan n = record { plan = plan; subscription_count = n }

    counted :
        (plan : Plan) (T2 : Accounts)
        → OneHighlight T2
        → Triple accounts T2
            (count_subscriptions_for_plan slug >>= λ n. pure (answer_of plan n))
            (λ a T'. OneHighlight T')
            (λ e T'. UniqueSlugs T')
    counted plan T2 h = Triple-bind (Triple-read_all _ (Triple-pure _ h) h.slugs)

    unlit : (o : Option Bool) (b : Bool) → is_true o ≡ false → coalesce o b ≡ true → b ≡ true
    unlit none b h k = k
    unlit (some true) b h k = absurd cc
    unlit (some false) b h k = absurd cc

    settle :
        (stored : Plan)
        → Triple accounts T1
            (refresh (is_true r.is_highlighted) slug stored >>= λ plan.
              count_subscriptions_for_plan slug >>= λ n. pure (answer_of plan n))
            (λ a T'. OneHighlight T')
            (λ e T'. UniqueSlugs T')
    settle stored = elim (Bool-cases (is_true r.is_highlighted)) [
      | inl on ↦ rw on (
          Triple-bind (
            Triple-bind (
              Triple-weaken _ _ _ _ (clear_other_highlights-Cleared slug T1 T1 (same T1))
                (λ x T2 k.
                  Triple-read (find_plan slug)
                    (λ p found. counted p T2 (Cleared-OneHighlight slug T1 T2 u1 k))
                    (λ missing. SameSlugs-Unique T1 T2 k.same u1)
                    (SameSlugs-Unique T1 T2 k.same u1))
                (λ e T2 k. SameSlugs-Unique T1 T2 k u1))))
      | inr out ↦ rw out (
          Triple-bind (
            Triple-pure stored (
              counted stored T1 (record {
                slugs = u1;
                highlights = omega (
                  arith,
                  v.highlights,
                  count-update-le lit (is_slug slug) (changed c) T.plans
                      (λ x k. unlit r.is_highlighted x.is_highlighted out k),
                );
              }))))
    ]

    answer :
        (o : Option Plan)
        → find_plan slug T1 ≡ o
        → Answers
            (λ stored T2.
              Triple accounts T2
                (refresh (is_true r.is_highlighted) slug stored >>= λ plan.
                  count_subscriptions_for_plan slug >>= λ n. pure (answer_of plan n))
                (λ a T'. OneHighlight T')
                (λ e T'. UniqueSlugs T'))
            (λ e T'. UniqueSlugs T')
            (answer_plan slug T1)
    answer none e = rw (e, answer_plan) u1
    answer (some p) e = rw (e, answer_plan) (settle p)
