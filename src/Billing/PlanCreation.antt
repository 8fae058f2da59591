-- ===== src/Billing/PlanCreation.antt =====
-- What AdminCreatePlan does to the tables, whichever queries fail.
use brenox_engine.Base.{
  ℕ, ◌≤◌, ◌≡◌, refl, inl, inr, false, Option, none, some, String, Bool-cases, count, arith,
}
use brenox_engine.Base.Monad.{pure, ◌>>=◌}
use brenox_engine.Db.{accounts}
use brenox_engine.Db.Accounts.{Plan, Accounts}
use brenox_engine.Db.Triple.{
  Triple, Answers, Triple-bind, Triple-pure, Triple-write, Triple-raise_if, Triple-weaken,
}
use brenox_engine.Db.Reads.{Triple-optional_read, Triple-or_raise}
use brenox_engine.Queries.Billing.{find_plan}
use brenox_engine.Queries.Plans.{insert_plan}
use brenox_engine.Strings.{Strings}
use brenox_engine.Billing.Plans.{
  CreatePlanRequest, AdminPlan, normalize_plan_slug, new_plan, clear_if, admin_create_plan,
}
use brenox_engine.Billing.Highlights.{lit, clear_other_highlights-Cleared}
use brenox_engine.Billing.PlanRules.{
  UniqueSlugs, OneHighlight, SameSlugs-Unique, Cleared-OneHighlight, same, insert-Unique,
}

-- If at most one plan is highlighted, and slugs are unique, both still hold after AdminCreatePlan
-- has passed; if it fails, the slugs are still unique.
pub admin_create_plan-OneHighlight :
    (lib : Strings) (r : CreatePlanRequest) (T : Accounts)
    → OneHighlight T
    → Triple accounts T (admin_create_plan lib r) (λ a T'. OneHighlight T') (λ e T'. UniqueSlugs T')
unfolding admin_create_plan clear_if new_plan
admin_create_plan-OneHighlight lib r T v = Triple-bind (
    Triple-or_raise (normalize_plan_slug lib r.slug) _
      (λ slug normal. Triple-bind (
        Triple-raise_if _ _
          (λ named. Triple-bind (
            Triple-raise_if _ _
              (λ sane. Triple-bind (
                Triple-optional_read (find_plan slug)
                  (λ o found. Triple-bind (
                    Triple-raise_if _ _
                      (λ absent. Triple-bind (
                        Triple-write (insert_plan (new_plan lib slug r))
                          (λ now. answer slug (find_plan (new_plan lib slug r).slug T) refl now)
                          v.slugs))
                      (λ taken. v.slugs)))
                  v.slugs))
              (λ bad. v.slugs)))
          (λ blank. v.slugs)))
      v.slugs)
  where
    answer_of : Plan → AdminPlan
    answer_of plan = record { plan = plan; subscription_count = 0 }

    -- The other highlights are cleared, or there is no new one.
    settle :
        (slug : String) (plan : Plan) (T1 : Accounts)
        → UniqueSlugs T1
        → (r.is_highlighted ≡ false → count lit T1.plans ≤ 1)
        → Triple accounts T1
            (clear_if r.is_highlighted slug >>= λ _. pure (answer_of plan))
            (λ a T'. OneHighlight T')
            (λ e T'. UniqueSlugs T')
    settle slug plan T1 u dark = elim (Bool-cases r.is_highlighted) [
      | inl on ↦ rw on (
          Triple-bind (
            Triple-weaken _ _ _ _ (clear_other_highlights-Cleared slug T1 T1 (same T1))
              (λ x T2 c. Triple-pure _ (Cleared-OneHighlight slug T1 T2 u c))
              (λ e T2 s. SameSlugs-Unique T1 T2 s u)))
      | inr out ↦ rw out (
          Triple-bind
            (Triple-pure tt (Triple-pure _ (record { slugs = u; highlights = dark out }))))
    ]

    answer :
        (slug : String) (o : Option Plan)
        → find_plan (new_plan lib slug r).slug T ≡ o
        → (now : ℕ)
        → Answers
            (λ plan T1.
              Triple accounts T1
                (clear_if r.is_highlighted slug >>= λ _. pure (answer_of plan))
                (λ a T'. OneHighlight T')
                (λ e T'. UniqueSlugs T'))
            (λ e T'. UniqueSlugs T')
            (insert_plan (new_plan lib slug r) now T)
    answer slug (some q) e now = rw (e, insert_plan) v.slugs
    answer slug none e now =
        rw (e, insert_plan)
          (settle slug _ _ (insert-Unique (new_plan lib slug r) T e v.slugs)
            (λ out. rw out (omega (arith, v.highlights))))
