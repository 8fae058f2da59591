-- ===== src/Billing/Steady.antt =====
-- While no query fails, the neighbours of the service of the calls leave no failure due.
use brenox_engine.Base.{
  ℕ, refl, Bool, true, false, Option, none, some, ltb, leb, ◌==◌, if◌then◌else◌,
}
use brenox_engine.Db.{accounts, org}
use brenox_engine.Db.Accounts.{App}
use brenox_engine.Db.Calm.{Steady}
use brenox_engine.Db.Steady.{
  Steady-pure, Steady-bind, Steady-optional, Steady-no_rows_is, Steady-on_error, Steady-if,
  Steady-read, Steady-read_all, Steady-write, Steady-raise_if,
}
use brenox_engine.Queries.Billing.{SubscriptionRow}
use brenox_engine.Billing.Quotas.{
  ensure_user_subscription, subscribe_if_missing, check_can_start_video_call, check_video_in,
  check_owner_video, check_video_minutes, max_call_participants_for_workspace, participants_for,
  record_video_minutes_by_workspace_id, record_minutes_in,
}
use brenox_engine.Billing.Frames.{engine}
use brenox_engine.Channels.Access.{assert_channel_member}
use brenox_engine.Calls.Steady.{IsSteady, SteadyInvites}
use brenox_engine.Notifications.Service.{notify_call_invite}
use brenox_engine.Notifications.CallInvites.{notify_call_invite-Steady}

subscribe-Steady : (u : ℕ) (o : Option SubscriptionRow) → Steady (subscribe_if_missing u o)
unfolding subscribe_if_missing
subscribe-Steady u (some s) = Steady-pure tt
subscribe-Steady u none =
    Steady-bind _ _ (Steady-no_rows_is _ _ (Steady-read accounts _))
      λ p. Steady-write accounts _ (λ w d. refl)

ensure-Steady : (u : ℕ) → Steady (ensure_user_subscription u)
unfolding ensure_user_subscription
ensure-Steady u =
    Steady-bind _ _ (Steady-optional _ (Steady-read accounts _)) λ o. subscribe-Steady u o

minutes-Steady : (limit owner : ℕ) → Steady (check_video_minutes limit owner)
unfolding check_video_minutes
minutes-Steady limit owner =
    Steady-if (ltb 0 limit) _ _
      (Steady-bind _ _ (Steady-read_all accounts _) λ n. Steady-raise_if _ _) (Steady-pure tt)

owner_video-Steady : (u : ℕ) → Steady (check_owner_video u)
unfolding check_owner_video
owner_video-Steady u = Steady-bind _ _ (ensure-Steady u) λ x.
    Steady-bind _ _ (Steady-on_error _ _ (Steady-read accounts _)) λ s.
      Steady-bind _ _ (Steady-raise_if _ _)
        λ y. Steady-bind _ _ (Steady-raise_if _ _) λ z. minutes-Steady _ u

check-Steady : (w : ℕ) → Steady (check_can_start_video_call w)
unfolding check_can_start_video_call check_video_in
check-Steady w = Steady-bind _ _ (Steady-optional _ (Steady-read accounts _)) inside
  where
    inside : (o : Option App) → Steady (check_video_in w o)
    inside none = Steady-pure tt
    inside (some app) =
        Steady-if (w == app.sandbox_workspace_id) _ _ (Steady-pure tt) (owner_video-Steady _)

max-Steady : (w : ℕ) → Steady (max_call_participants_for_workspace w)
unfolding max_call_participants_for_workspace participants_for
max-Steady w = Steady-bind _ _ (Steady-optional _ (Steady-read accounts _)) inside
  where
    inside : (o : Option App) → Steady (participants_for o)
    inside none = Steady-pure 0
    inside (some app) =
        Steady-bind _ _ (ensure-Steady _)
          λ x. Steady-bind _ _ (Steady-read accounts _) λ s. Steady-pure _

record-Steady : (w n : ℕ) → Steady (record_video_minutes_by_workspace_id w n)
unfolding record_video_minutes_by_workspace_id record_minutes_in
record-Steady w n =
    Steady-if (leb n 0) _ _ (Steady-pure tt)
      (Steady-bind _ _ (Steady-optional _ (Steady-read accounts _)) inside)
  where
    inside : (o : Option App) → Steady (record_minutes_in w n o)
    inside none = Steady-pure tt
    inside (some app) =
        Steady-if (w == app.sandbox_workspace_id) _ _ (Steady-pure tt)
          (Steady-write accounts _ (λ v d. refl))

access-Steady : (w c u : ℕ) → Steady (assert_channel_member w c u)
unfolding assert_channel_member
access-Steady w c u = Steady-bind _ _ (Steady-read_all org _) λ a.
    Steady-bind _ _ (Steady-raise_if _ _) λ b.
      Steady-bind _ _ (Steady-no_rows_is _ _ (Steady-read org _))
        λ ch. Steady-bind _ _ (Steady-read_all org _) λ i. Steady-raise_if _ _

invites-Steady : (i : Bool) → SteadyInvites (if i then some (notify_call_invite true) else none)
invites-Steady true = notify_call_invite-Steady true
invites-Steady false = tt

pub engine-IsSteady :
    (has_billing has_broadcast has_invites : Bool) (max : ℕ)
    → IsSteady (engine has_billing has_broadcast has_invites max)
engine-IsSteady true b i max = record {
  billing_steady = (check-Steady, max-Steady, record-Steady);
  access_steady = access-Steady;
  invites_steady = invites-Steady i;
}
engine-IsSteady false b i max = record {
  billing_steady = tt;
  access_steady = access-Steady;
  invites_steady = invites-Steady i;
}
