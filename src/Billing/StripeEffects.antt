-- ===== src/Billing/StripeEffects.antt =====
-- What an event from Stripe does to the subscriptions, whichever queries fail.
use text.Mathlib.Text.{◌==◌ as str_eq}
use brenox_engine.Base.{
  ℕ, ◌≡◌, refl, ap, subst, ◌∙◌, ◌⊎◌, inl, inr, true, false, ◌||◌, List, [], ◌∷◌, Option, none, some,
  String, ◌==◌, if◌then◌else◌, Bool-cases, update, select, arith,
}
use brenox_engine.Base.Monad.{pure, ◌>>=◌}
use brenox_engine.Db.{Error, M, accounts, optional}
use brenox_engine.Db.Accounts.{Plan, Accounts, Subscription}
use brenox_engine.Db.Triple.{Triple, Answers, Triple-bind, Triple-pure, Triple-write, Triple-weaken}
use brenox_engine.Db.Reads.{Triple-optional_read, Triple-or_raise}
use brenox_engine.Queries.Billing.{find_plan, find_stored, insert_subscription}
use brenox_engine.Queries.Plans.{
  SubscriptionChange, coalesce, changed_subscription, store_subscription, update_user_subscription,
  find_by_stripe_id, get_user_subscription_by_stripe_subscription_id,
}
use brenox_engine.Billing.Quotas.{status_allows_usage}
use brenox_engine.Billing.Allowances.{Provisioned, ensure-Provisioned}
use brenox_engine.Billing.Plans.{blank_is_none}
use brenox_engine.Billing.Stripe.{
  CheckoutSession, StripeSubscription, Event, StripeLibrary, map_stripe_status,
  parse_metadata_int64, checkout_change, handle_checkout_completed, deleted_type, followed_change,
  follow, handle_subscription_changed,
}

-- The user's row takes the change, its plan exists, and the rows of the others stay.
pub record Updated (user : ℕ) (c : SubscriptionChange) (T T' : Accounts) : Type 0 where
  pub row : Subscription
  pub plan : Plan
  pub found : find_stored user T ≡ some row
  pub known : find_plan (coalesce c.plan_slug row.plan_slug) T ≡ some plan
  pub stored : find_stored user T' ≡ some (changed_subscription c row)
  pub others : (j : ℕ) → user == j ≡ false → find_stored j T' ≡ find_stored j T

module _ (user : ℕ) (c : SubscriptionChange) where
  stored_there :
      (xs : List Subscription) (s : Subscription)
      → select (λ s. s.user_id == user) xs ≡ some s
      → select
          (λ s. s.user_id == user)
          (update (λ s. s.user_id == user) (changed_subscription c) xs)
        ≡ some (changed_subscription c s)
  stored_there [] s h = absurd cc
  stored_there (x ∷ xs) s h = elim (Bool-cases (x.user_id == user)) [
    | inl e ↦ rw (e, e) (ap (λ (o : Option Subscription). map_row o) (rw e at h))
    | inr e ↦ rw (e, e) (stored_there xs s (rw e at h))
  ]
    where
      map_row : Option Subscription → Option Subscription
      map_row none = none
      map_row (some s) = some (changed_subscription c s)

  stored_elsewhere :
      (j : ℕ) (xs : List Subscription)
      → user == j ≡ false
      → select (λ s. s.user_id == j) (update (λ s. s.user_id == user) (changed_subscription c) xs)
        ≡ select (λ s. s.user_id == j) xs
  stored_elsewhere j [] h = refl
  stored_elsewhere j (x ∷ xs) h = ground (arith, stored_elsewhere j xs h)

  pub update-Updated :
      (T : Accounts)
      → Triple accounts T
          (update_user_subscription user c)
          (λ s T'. Updated user c T T')
          (λ e T'. T' ≡ T)
  update-Updated T =
      Triple-write (store_subscription user c) (λ now. answer now (find_stored user T) refl) refl
    where
      known :
          (now : ℕ) (s : Subscription)
          → find_stored user T ≡ some s
          → (o : Option Plan) → find_plan (coalesce c.plan_slug s.plan_slug) T ≡ o
          → Answers (λ s T'. Updated user c T T') (λ e T'. T' ≡ T) (store_subscription user c now T)
      known now s found none e = rw (found, store_subscription) (rw e refl)
      known now s found (some p) e =
          rw (found, store_subscription)
            (rw e (record {
              row = s;
              plan = p;
              found = found;
              known = e;
              stored = stored_there T.subscriptions s found;
              others = λ j apart. stored_elsewhere j T.subscriptions apart;
            }))

      answer :
          (now : ℕ) (o : Option Subscription)
          → find_stored user T ≡ o
          → Answers (λ s T'. Updated user c T T') (λ e T'. T' ≡ T) (store_subscription user c now T)
      answer now none e = rw (e, store_subscription) refl
      answer now (some s) e = known now s e (find_plan (coalesce c.plan_slug s.plan_slug) T) refl

-- Exactly Stripe's statuses `active` and `trialing` become statuses that allow usage.
pub map_stripe_status-usage :
    (st : StripeLibrary) (status : String)
    → status_allows_usage (map_stripe_status st status)
      ≡ (str_eq status st.active || str_eq status st.trialing)
unfolding map_stripe_status status_allows_usage
map_stripe_status-usage st status = elim (Bool-cases (str_eq status st.active)) [
  | inl e ↦ rw e refl
  | inr e ↦ rw e (elim (Bool-cases (str_eq status st.trialing)) [
    | inl f ↦ rw f refl
    | inr f ↦ rw f (elim (Bool-cases (str_eq status st.past_due)) [
      | inl g ↦ rw g refl
      | inr g ↦ rw g (elim (Bool-cases (str_eq status st.canceled || str_eq status st.unpaid)) [
        | inl h ↦ rw h refl
        | inr h ↦ rw h refl
      ])
    ])
  ])
]

-- The user named by a checkout has a subscription in use, to the plan that the checkout names if it
-- names one, and no other user's subscription has changed.
pub record CheckedOut (st : StripeLibrary) (event : Event) (T T' : Accounts) : Type 0 where
  pub session : CheckoutSession
  pub user : ℕ
  pub row : Subscription
  pub given : event.session ≡ some session
  pub named : parse_metadata_int64 st session.metadata "user_id" ≡ some user
  pub stored : find_stored user T' ≡ some row
  pub in_use : status_allows_usage row.status ≡ true
  pub on_plan :
      str_eq (session.metadata "plan_slug") "" ≡ false
      → row.plan_slug ≡ session.metadata "plan_slug"
  pub others : (j : ℕ) → user == j ≡ false → find_stored j T' ≡ find_stored j T

-- At most the default plan for a user without one, and for no other user.
Provisioned-others :
    (u : ℕ) (T T' : Accounts)
    → Provisioned u T T'
    → (j : ℕ) → u == j ≡ false
    → find_stored j T' ≡ find_stored j T
Provisioned-others u T T' (inl same) j h = rw same refl
Provisioned-others u T T' (inr d) j h = rw d.tables (at (find_stored u T) refl)
  where
    at :
        (o : Option Subscription)
        → find_stored u T ≡ o
        → find_stored j (insert_subscription u d.plan.slug "active" 0 T).1 ≡ find_stored j T
    at none e = rw (e, insert_subscription) (rw h refl)
    at (some s) e = rw (e, insert_subscription) refl

-- When a checkout is completed, the user that it names has a subscription in use, to the plan that it
-- names if it names one, and no other user's subscription changes; if the handler fails, at most the
-- default plan has been given to a user who had none.
pub handle_checkout_completed-CheckedOut :
    (st : StripeLibrary) (event : Event) (T : Accounts)
    → Triple accounts T
        (handle_checkout_completed st event)
        (λ x T'. CheckedOut st event T T')
        (λ e T'. (T' ≡ T) ⊎ ((u : ℕ) × Provisioned u T T'))
unfolding handle_checkout_completed checkout_change blank_is_none status_allows_usage
handle_checkout_completed-CheckedOut st event T = Triple-bind (
    Triple-or_raise event.session _
      (λ session given. Triple-bind (
        Triple-or_raise (parse_metadata_int64 st session.metadata "user_id") _
          (λ user named. Triple-bind (
            Triple-weaken _ _ _ _ (ensure-Provisioned user T)
              (λ x T1 p. Triple-bind (
                Triple-weaken _ _ _ _ (update-Updated user (checkout_change session) T1)
                  (λ s T2 v. Triple-pure tt (record {
                    session = session;
                    user = user;
                    row = changed_subscription (checkout_change session) v.row;
                    given = given;
                    named = named;
                    stored = v.stored;
                    in_use = refl;
                    on_plan = λ h. rw h refl;
                    others = λ j apart. v.others j apart ∙ Provisioned-others user T T1 p j apart;
                  }))
                  (λ e T2 same. inr (user, rw same p))))
              (λ e T1 same. inl same)))
          (inl refl)))
      (inl refl))

-- When Stripe says that a subscription which a row has was deleted, the row's user no longer has a
-- subscription in use, and no other user's subscription changes; or the handler fails, and nothing
-- changes.
pub handle_subscription_changed-canceled :
    (st : StripeLibrary) (event : Event) (sub : StripeSubscription) (row : Subscription)
    (T : Accounts)
    → event.event_type ≡ deleted_type
    → event.subscription ≡ some sub
    → str_eq sub.id "" ≡ false
    → find_by_stripe_id sub.id T ≡ some row
    → Triple accounts T
        (handle_subscription_changed st event)
        (λ x T'.
          ((s : Subscription) × (find_stored row.user_id T' ≡ some s)
            × (status_allows_usage s.status ≡ false))
          × ((j : ℕ) → row.user_id == j ≡ false → find_stored j T' ≡ find_stored j T))
        (λ e T'. T' ≡ T)
unfolding handle_subscription_changed follow followed_change status_allows_usage
handle_subscription_changed-canceled st event sub row T deleted given id found =
    rw (given, deleted)
      (Triple-bind (
        Triple-or_raise (some sub) _
          (λ sub' same.
            subst (λ (x : StripeSubscription). Triple accounts T (body x) Good Bad) (the_same same)
              main)
          refl))
  where
    Good : Unit {0} → Accounts → Type 0
    Good x T' =
        ((s : Subscription) × (find_stored row.user_id T' ≡ some s)
          × (status_allows_usage s.status ≡ false))
        × ((j : ℕ) → row.user_id == j ≡ false → find_stored j T' ≡ find_stored j T)

    Bad : Error → Accounts → Type 0
    Bad e T' = T' ≡ T

    body : StripeSubscription → M (Unit {0})
    body x =
        if str_eq x.id ""
        then pure tt
        else (optional (get_user_subscription_by_stripe_subscription_id x.id) >>= λ existing.
            follow st deleted_type x existing)

    the_same : {x y : StripeSubscription} → some x ≡ some y → x ≡ y
    the_same h = cc

    the_row : {x y : Subscription} {o : Option Subscription} → o ≡ some x → o ≡ some y → x ≡ y
    the_row h k = cc

    followed : Triple accounts T (follow st deleted_type sub (some row)) Good Bad
    followed = Triple-bind (
        Triple-weaken _ _ _ _ (update-Updated row.user_id (followed_change st deleted_type sub) T)
          (λ s T2 v. Triple-pure tt (
            (changed_subscription (followed_change st deleted_type sub) v.row, v.stored, refl),
            v.others,
          ))
          (λ e T2 same. same))

    at :
        (o : Option Subscription)
        → find_by_stripe_id sub.id T ≡ o
        → Triple accounts T (follow st deleted_type sub o) Good Bad
    at none e = absurd cc
    at (some r) e =
        subst
          (λ (x : Subscription). Triple accounts T (follow st deleted_type sub (some x)) Good Bad)
          (the_row found e) followed

    main : Triple accounts T (body sub) Good Bad
    main = rw id (Triple-bind (Triple-optional_read (find_by_stripe_id sub.id) at refl))
