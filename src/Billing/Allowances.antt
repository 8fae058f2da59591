-- ===== src/Billing/Allowances.antt =====
-- What passing a quota check means, and what a charge adds.
use brenox_engine.Base.{
  ℕ, ◌<◌, ◌≤◌, ◌≡◌, refl, ◌⊎◌, inl, inr, Bool, true, false, not, Option, none, some, ◌==◌, ltb,
  ltb→le, leb→lt, Bool-cases,
}
use brenox_engine.Db.{accounts}
use brenox_engine.Db.Accounts.{ℤ, pos, negsuc, Plan, Subscription, App, Accounts}
use brenox_engine.Db.Triple.{
  Triple, Answers, Triple-bind, Triple-pure, Triple-read, Triple-read_all, Triple-write,
  Triple-raise_if, Triple-weaken,
}
use brenox_engine.Db.Reads.{Triple-optional_read, Triple-required_read, Triple-on_error}
use brenox_engine.Queries.Billing.{
  SubscriptionRow, find_subscription, find_stored, find_default, insert_subscription, find_app_of,
  owned_apps, owner_minutes,
}
use brenox_engine.Billing.Quotas.{
  status_allows_usage, ensure_user_subscription, subscribe_if_missing, assert_can_create_app,
  check_app_count, check_can_start_video_call, check_video_in, check_owner_video,
  check_video_minutes,
}

-- A check changes nothing, or it gives a user who has no subscription the default plan.
pub record WithDefault (user : ℕ) (T T' : Accounts) : Type 0 where
  pub plan : Plan
  pub is_default : find_default T ≡ some plan
  pub missing : find_subscription user T ≡ none
  pub tables : T' ≡ (insert_subscription user plan.slug "active" 0 T).1

abbrev pub Provisioned : ℕ → Accounts → Accounts → Type 0
Provisioned user T T' = (T' ≡ T) ⊎ WithDefault user T T'

-- The user's subscription, which is in use.
pub record IsSubscribed (user : ℕ) (T : Accounts) : Type 0 where
  pub row : SubscriptionRow
  pub found : find_subscription user T ≡ some row
  pub in_use : status_allows_usage row.subscription.status ≡ true

abbrev pub AppRoom : ℤ → ℕ → Type 0
AppRoom (negsuc n) owned = Unit {0}
AppRoom (pos max) owned = owned < max

kept_on : (b : Bool) → not b ≡ false → b ≡ true
kept_on true h = refl
kept_on false h = absurd cc

pub ensure-Provisioned :
    (u : ℕ) (T : Accounts)
    → Triple accounts T (ensure_user_subscription u) (λ x T'. Provisioned u T T') (λ e T'. T' ≡ T)
unfolding ensure_user_subscription subscribe_if_missing
ensure-Provisioned u T =
    Triple-bind (Triple-optional_read (find_subscription u) (λ o found. subscribe o found) refl)
  where
    stored :
        (p : Plan)
        → find_default T ≡ some p
        → find_subscription u T ≡ none
        → (now : ℕ) (o : Option Subscription) → find_stored u T ≡ o
        → Answers
            (λ x T'. Provisioned u T T')
            (λ e T'. T' ≡ T)
            (insert_subscription u p.slug "active" now T)
    stored p def missing now none e =
        rw (e, insert_subscription)
          (inr (record {
            plan = p;
            is_default = def;
            missing = missing;
            tables = rw (e, insert_subscription) refl;
          }))
    stored p def missing now (some s) e = rw (e, insert_subscription) refl

    subscribe :
        (o : Option SubscriptionRow)
        → find_subscription u T ≡ o
        → Triple accounts T (subscribe_if_missing u o) (λ x T'. Provisioned u T T') (λ e T'. T' ≡ T)
    subscribe (some s) found = Triple-pure tt (inl refl)
    subscribe none missing = Triple-bind (
        Triple-required_read find_default _
          (λ p def.
            Triple-write (insert_subscription u p.slug "active")
              (λ now. stored p def missing now (find_stored u T) refl) refl)
          (λ e. refl))

app_count-AppRoom :
    (max : ℤ) (u : ℕ) (T T' : Accounts)
    → Provisioned u T T'
    → Triple accounts T'
        (check_app_count max u)
        (λ x T2. (T2 ≡ T') × AppRoom max (owned_apps u T2))
        (λ e T2. Provisioned u T T2)
unfolding check_app_count
app_count-AppRoom (negsuc n) u T T' v = Triple-pure tt (refl, tt)
app_count-AppRoom (pos max) u T T' v = Triple-bind (
    Triple-read_all (owned_apps u)
      (Triple-raise_if _ _ (λ room. (refl, leb→lt max _ room)) (λ full. v)) v)

-- A user who passes the check to create an app has a subscription in use whose plan has no limit on
-- apps or one that the user's apps are below. Whether it passes or fails, and whichever queries fail,
-- the check changes nothing but to give a user who had no subscription the default plan.
pub assert_can_create_app-AppRoom :
    (u : ℕ) (T : Accounts)
    → Triple accounts T
        (assert_can_create_app u)
        (λ x T'.
          Provisioned u T T'
          × ((s : IsSubscribed u T') × AppRoom s.row.plan.max_apps (owned_apps u T')))
        (λ e T'. Provisioned u T T')
unfolding assert_can_create_app
assert_can_create_app-AppRoom u T = Triple-bind (
    Triple-weaken (λ x T'. Provisioned u T T') _ _ _ (ensure-Provisioned u T)
      (λ x T' v. Triple-bind (
        Triple-read (find_subscription u)
          (λ s found. Triple-bind (
            Triple-raise_if _ _
              (λ live.
                Triple-weaken (λ y T2. (T2 ≡ T') × AppRoom s.plan.max_apps (owned_apps u T2)) _ _ _
                  (app_count-AppRoom s.plan.max_apps u T T' v)
                  (λ y T2 k. rw k.0 (
                    v,
                    (record { row = s; found = found; in_use = kept_on _ live }, rw k.0 at k.1),
                  ))
                  (λ e T2 k. k))
              (λ lapsed. v)))
          (λ missing. v) v))
      (λ e T' same. inl same))

-- Why a video call may start in a workspace: it has no app, it is an app's sandbox, or its owner's
-- plan has video and minutes left.
pub record HasVideo (owner : ℕ) (T : Accounts) : Type 0 where
  pub subscribed : IsSubscribed owner T
  pub enabled : subscribed.row.plan.video_calls_enabled ≡ true
  pub minutes :
      (subscribed.row.plan.video_minutes_limit ≤ 0)
      ⊎ (owner_minutes owner T < subscribed.row.plan.video_minutes_limit)

pub record IsBilled (workspace : ℕ) (app : App) (T : Accounts) : Type 0 where
  pub found : find_app_of workspace T ≡ some app
  pub live : (workspace == app.sandbox_workspace_id) ≡ false

abbrev pub IsFree : ℕ → Accounts → Type 0
IsFree workspace T =
    (find_app_of workspace T ≡ none)
    ⊎ ((app : App) × ((find_app_of workspace T ≡ some app)
          × ((workspace == app.sandbox_workspace_id) ≡ true)))

abbrev pub MayUseVideo : ℕ → Accounts → Accounts → Type 0
MayUseVideo workspace T T' =
    (IsFree workspace T × (T' ≡ T))
    ⊎ ((app : App) × (IsBilled workspace app T
          × (Provisioned app.owner_id T T' × HasVideo app.owner_id T')))

minutes-left :
    (limit u : ℕ) (T T' : Accounts)
    → Provisioned u T T'
    → Triple accounts T'
        (check_video_minutes limit u)
        (λ x T2. (T2 ≡ T') × ((limit ≤ 0) ⊎ (owner_minutes u T2 < limit)))
        (λ e T2. Provisioned u T T2)
unfolding check_video_minutes
minutes-left limit u T T' v = elim (Bool-cases (ltb 0 limit)) [
  | inl given ↦ rw given (
      Triple-bind (
        Triple-read_all (owner_minutes u)
          (Triple-raise_if _ _ (λ room. (refl, inr (leb→lt limit _ room))) (λ full. v)) v))
  | inr unset ↦ rw unset (Triple-pure tt (refl, inl (ltb→le 0 limit unset)))
]

owner_video-HasVideo :
    (u : ℕ) (T : Accounts)
    → Triple accounts T
        (check_owner_video u)
        (λ x T'. Provisioned u T T' × HasVideo u T')
        (λ e T'. Provisioned u T T')
unfolding check_owner_video
owner_video-HasVideo u T = Triple-bind (
    Triple-weaken (λ x T'. Provisioned u T T') _ _ _ (ensure-Provisioned u T)
      (λ x T' v. Triple-bind (
        Triple-on_error _ (
          Triple-read (find_subscription u)
            (λ s found. Triple-bind (
              Triple-raise_if _ _
                (λ live. Triple-bind (
                  Triple-raise_if _ _
                    (λ on.
                      Triple-weaken
                        (λ y T2.
                          (T2 ≡ T')
                          × ((s.plan.video_minutes_limit ≤ 0)
                              ⊎ (owner_minutes u T2 < s.plan.video_minutes_limit)))
                        _ _ _ (minutes-left s.plan.video_minutes_limit u T T' v)
                        (λ y T2 k. rw k.0 (
                          v,
                          record {
                            subscribed = record { row = s; found = found; in_use = kept_on _ live };
                            enabled = kept_on _ on;
                            minutes = rw k.0 at k.1;
                          },
                        ))
                        (λ e T2 k. k))
                    (λ off. v)))
                (λ lapsed. v)))
            (λ missing. v) v)))
      (λ e T' same. inl same))

-- A video call may start only where the workspace has no app, is an app's sandbox, or has an owner
-- whose subscription is in use, whose plan has video, and who has used fewer minutes this month than
-- the plan gives, if it limits them; and the check changes nothing but to give an owner without a
-- subscription the default plan.
pub check_can_start_video_call-MayUseVideo :
    (w : ℕ) (T : Accounts)
    → Triple accounts T
        (check_can_start_video_call w)
        (λ x T'. MayUseVideo w T T')
        (λ e T'. (T' ≡ T) ⊎ ((app : App) × (IsBilled w app T × Provisioned app.owner_id T T')))
unfolding check_can_start_video_call check_video_in
check_can_start_video_call-MayUseVideo w T =
    Triple-bind (Triple-optional_read (find_app_of w) (λ o found. check o found) (inl refl))
  where
    check :
        (o : Option App)
        → find_app_of w T ≡ o
        → Triple accounts T
            (check_video_in w o)
            (λ x T'. MayUseVideo w T T')
            (λ e T'. (T' ≡ T) ⊎ ((app : App) × (IsBilled w app T × Provisioned app.owner_id T T')))
    check none found = Triple-pure tt (inl (inl found, refl))
    check (some app) found = elim (Bool-cases (w == app.sandbox_workspace_id)) [
      | inl sandbox ↦ rw sandbox (Triple-pure tt (inl (inr (app, (found, sandbox)), refl)))
      | inr live ↦ rw live (
          Triple-weaken (λ x T'. Provisioned app.owner_id T T' × HasVideo app.owner_id T') _ _ _
            (owner_video-HasVideo app.owner_id T)
            (λ x T' k. inr (app, (record { found = found; live = live }, k)))
            (λ e T' k. inr (app, (record { found = found; live = live }, k))))
    ]
