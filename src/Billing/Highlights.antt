-- ===== src/Billing/Highlights.antt =====
-- The highlighted plan: clearing the others, and what the requests keep.
use text.Mathlib.Text.{◌==◌ as str_eq}
use text.Mathlib.TextEquality.{eq_iff}
use brenox_engine.Base.{
  ◌+◌, ◌≤◌, ◌≡◌, refl, ◌∙◌, ◌⊎◌, inl, inr, Bool, true, false, not, ◌&&◌, ◌||◌, List, [], ◌∷◌,
  Option, none, some, String, if◌then◌else◌, Bool-cases, count, update, insert_by, sort_by, arith,
  count-update-eq,
}
use brenox_engine.Db.{accounts}
use brenox_engine.Db.Accounts.{Plan, Accounts}
use brenox_engine.Db.Triple.{
  Triple, Answers, Triple-bind, Triple-pure, Triple-read_all, Triple-write,
}
use brenox_engine.Queries.Billing.{find_plan, is_before}
use brenox_engine.Queries.Plans.{PlanChange, is_slug, changed, change_plans, answer_plan}
use brenox_engine.Billing.Plans.{highlight_off, clear_each, clear_other_highlights}

abbrev pub lit : Plan → Bool
lit p = p.is_highlighted

abbrev pub lit_as : String → Plan → Bool
lit_as s p = p.is_highlighted && is_slug s p

-- A highlighted plan other than this one.
abbrev pub lit_beside : String → Plan → Bool
lit_beside keep p = p.is_highlighted && not (is_slug keep p)

-- The plans have the same slugs, and the subscriptions are the same.
pub record SameSlugs (T T' : Accounts) : Type 0 where
  pub slugs : (s : String) → count (is_slug s) T'.plans ≡ count (is_slug s) T.plans
  pub subscriptions : T'.subscriptions ≡ T.subscriptions

pub record Cleared (keep : String) (T T' : Accounts) : Type 0 where
  pub same : SameSlugs T T'
  pub no_other : count (lit_beside keep) T'.plans ≡ 0

-- The slugs that are still highlighted stand among the plans that are left to do.
pub record Pending (keep : String) (ps : List Plan) (T : Accounts) : Type 0 where
  pub run :
      (s : String) → str_eq s keep ≡ false → 1 ≤ count (lit_as s) T.plans → 1 ≤ count (lit_as s) ps

module _ (q : Plan → Bool) (le : Plan → Plan → Bool) where
  count-insert_by :
      (x : Plan) (xs : List Plan)
      → count q (insert_by le x xs) ≡ (if q x then 1 else 0) + count q xs
  count-insert_by x [] = refl
  count-insert_by x (y ∷ ys) = ground (arith, count-insert_by x ys)

  count-sort_by : (xs : List Plan) → count q (sort_by le xs) ≡ count q xs
  count-sort_by [] = refl
  count-sort_by (x ∷ xs) = omega (arith, count-insert_by x (sort_by le xs), count-sort_by xs)

off_self :
    (s : String) (xs : List Plan)
    → count (lit_as s) (update (is_slug s) (changed highlight_off) xs) ≡ 0
off_self s [] = refl
off_self s (x ∷ xs) = ground (arith, off_self s xs)

off_other :
    (s r : String) (xs : List Plan)
    → str_eq r s ≡ false
    → count (lit_as r) (update (is_slug s) (changed highlight_off) xs) ≡ count (lit_as r) xs
off_other s r [] h = refl
off_other s r (x ∷ xs) h =
    ground (arith, eq_iff x.slug s, eq_iff x.slug r, eq_iff r s, off_other s r xs h)

none_beside :
    (keep : String) (xs : List Plan)
    → ((s : String) → str_eq s keep ≡ false → count (lit_as s) xs ≡ 0)
    → count (lit_beside keep) xs ≡ 0
none_beside keep [] h = refl
none_beside keep (x ∷ xs) h =
    ground
      (arith, h x.slug, eq_iff x.slug x.slug, none_beside keep xs (λ s e. ground (arith, h s e)))

pub SameSlugs-change :
    (T0 T : Accounts) (slug : String) (c : PlanChange)
    → SameSlugs T0 T
    → SameSlugs T0 (change_plans slug c T)
SameSlugs-change T0 T slug c v = record {
  slugs =
      λ s. count-update-eq (is_slug s) (is_slug slug) (changed c) T.plans (λ x. refl) ∙ v.slugs s;
  subscriptions = v.subscriptions;
}

module _ (keep : String) (T0 : Accounts) where
  Pending-skip :
      (p : Plan) (ps : List Plan) (T : Accounts)
      → str_eq p.slug keep || not p.is_highlighted ≡ true
      → Pending keep (p ∷ ps) T
      → Pending keep ps T
  Pending-skip p ps T e v = record {
    run = λ s other some_lit.
        ground (arith, v.run s other some_lit, eq_iff p.slug keep, eq_iff p.slug s, eq_iff s keep);
  }

  Pending-off :
      (p : Plan) (ps : List Plan) (T : Accounts)
      → Pending keep (p ∷ ps) T
      → Pending keep ps (change_plans p.slug highlight_off T)
  Pending-off p ps T v = record {
    run = λ s other some_lit. at s other some_lit (Bool-cases (str_eq s p.slug));
  }
    where
      at :
          (s : String)
          → str_eq s keep ≡ false
          → 1 ≤ count (lit_as s) (change_plans p.slug highlight_off T).plans
          → (str_eq s p.slug ≡ true) ⊎ (str_eq s p.slug ≡ false)
          → 1 ≤ count (lit_as s) ps
      at s other some_lit (inl same) =
          let k : s ≡ p.slug = (eq_iff s p.slug).0 same in
          absurd (omega (arith, off_self p.slug T.plans, rw k at some_lit))
      at s other some_lit (inr apart) =
          let before : 1 ≤ count (lit_as s) (p ∷ ps) =
            v.run s other (omega (arith, some_lit, off_other p.slug s T.plans apart)) in
          ground (arith, before, eq_iff p.slug s, eq_iff s p.slug)

  clear_each-Cleared :
      (ps : List Plan) (T : Accounts)
      → Pending keep ps T
      → SameSlugs T0 T
      → Triple accounts T
          (clear_each keep ps)
          (λ x T'. Cleared keep T0 T')
          (λ e T'. SameSlugs T0 T')
  unfolding clear_each
  clear_each-Cleared [] T v same = Triple-pure tt (record {
    same = same;
    no_other = none_beside keep T.plans (λ s e. ground (arith, v.run s e));
  })
  clear_each-Cleared (p ∷ ps) T v same =
      elim (Bool-cases (str_eq p.slug keep || not p.is_highlighted)) [
        | inl skipped ↦ rw skipped (clear_each-Cleared ps T (Pending-skip p ps T skipped v) same)
        | inr lit_other ↦ rw lit_other (
            Triple-bind (
              Triple-write (λ now t. answer_plan p.slug (change_plans p.slug highlight_off t))
                (λ now.
                  answer (find_plan p.slug T1) refl
                    (clear_each-Cleared ps T1 (Pending-off p ps T v) same1))
                same))
      ]
    where
      T1 : Accounts
      T1 = change_plans p.slug highlight_off T

      same1 : SameSlugs T0 T1
      same1 = SameSlugs-change T0 T p.slug highlight_off same

      answer :
          (o : Option Plan)
          → find_plan p.slug T1 ≡ o
          → Triple accounts T1
              (clear_each keep ps)
              (λ x T'. Cleared keep T0 T')
              (λ e T'. SameSlugs T0 T')
          → Answers
              (λ a T2.
                Triple accounts T2
                  (clear_each keep ps)
                  (λ x T'. Cleared keep T0 T')
                  (λ e T'. SameSlugs T0 T'))
              (λ e T'. SameSlugs T0 T')
              (answer_plan p.slug T1)
      answer none e rest = rw (e, answer_plan) same1
      answer (some a) e rest = rw (e, answer_plan) rest

-- Afterwards no other plan is highlighted, if all updates pass.
pub clear_other_highlights-Cleared :
    (keep : String) (T0 T : Accounts)
    → SameSlugs T0 T
    → Triple accounts T
        (clear_other_highlights keep)
        (λ x T'. Cleared keep T0 T')
        (λ e T'. SameSlugs T0 T')
unfolding clear_other_highlights
clear_other_highlights-Cleared keep T0 T same = Triple-bind (
    Triple-read_all (λ t. sort_by by_order t.plans)
      (clear_each-Cleared keep T0 (sort_by by_order T.plans) T
        (record { run = λ s e h. omega (arith, h, count-sort_by (lit_as s) by_order T.plans) })
        same)
      same)
  where
    by_order : Plan → Plan → Bool
    by_order p q = not (is_before q p)
