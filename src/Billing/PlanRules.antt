-- ===== src/Billing/PlanRules.antt =====
-- The rules that the requests on plans keep: slugs are unique, and one plan at most is highlighted.
use text.Mathlib.Text.{◌==◌ as str_eq}
use text.Mathlib.TextEquality.{eq_iff}
use brenox_engine.Base.{
  ◌+◌, ◌≤◌, ◌≡◌, refl, subst, ◌⊎◌, inl, inr, true, false, List, [], ◌∷◌, none, String, Bool-cases,
  count, select-count, arith,
}
use brenox_engine.Db.Accounts.{Plan, Accounts}
use brenox_engine.Queries.Billing.{find_plan}
use brenox_engine.Queries.Plans.{is_slug}
use brenox_engine.Billing.Highlights.{lit, lit_beside, SameSlugs, Cleared}

-- Every slug has one plan at most.
pub record UniqueSlugs (T : Accounts) : Type 0 where
  pub run : (s : String) → count (is_slug s) T.plans ≤ 1

-- ... and at most one plan is highlighted.
pub record OneHighlight (T : Accounts) : Type 0 where
  pub slugs : UniqueSlugs T
  pub highlights : count lit T.plans ≤ 1

pub SameSlugs-Unique : (T T' : Accounts) → SameSlugs T T' → UniqueSlugs T → UniqueSlugs T'
SameSlugs-Unique T T' v u = record { run = λ s. omega (arith, v.slugs s, u.run s) }

-- The highlighted plans are this one and those beside it.
lit-split :
    (keep : String) (xs : List Plan)
    → count lit xs ≤ count (lit_beside keep) xs + count (is_slug keep) xs
lit-split keep [] = omega arith
lit-split keep (x ∷ xs) = ground (arith, lit-split keep xs)

pub Cleared-OneHighlight :
    (keep : String) (T T' : Accounts) → UniqueSlugs T → Cleared keep T T' → OneHighlight T'
Cleared-OneHighlight keep T T' u c = record {
  slugs = SameSlugs-Unique T T' c.same u;
  highlights = omega (arith, lit-split keep T'.plans, c.no_other, c.same.slugs keep, u.run keep);
}

pub same : (T : Accounts) → SameSlugs T T
same T = record { slugs = λ s. refl; subscriptions = refl }

pub insert-Unique :
    (p : Plan) (T : Accounts)
    → find_plan p.slug T ≡ none
    → UniqueSlugs T
    → UniqueSlugs (record T { plans = p ∷ T.plans })
insert-Unique p T fresh u = record { run = λ s. at s (Bool-cases (str_eq p.slug s)) }
  where
    at :
        (s : String)
        → (str_eq p.slug s ≡ true) ⊎ (str_eq p.slug s ≡ false)
        → count (is_slug s) (p ∷ T.plans) ≤ 1
    at s (inl e) =
        let k : p.slug ≡ s = (eq_iff p.slug s).0 e in
        let nothing : count (is_slug p.slug) T.plans ≡ 0 =
          select-count (is_slug p.slug) T.plans fresh in
        rw e (omega (arith, subst (λ t. count (is_slug t) T.plans ≡ 0) k nothing))
    at s (inr e) = rw e (omega (arith, u.run s))
