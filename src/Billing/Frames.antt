-- ===== src/Billing/Frames.antt =====
-- The billing service fills the interface that the service of the calls asks for.
use brenox_engine.Base.{
  ℕ, ◌≡◌, refl, Bool, true, false, Option, none, some, ltb, leb, ◌==◌, if◌then◌else◌,
}
use brenox_engine.Db.{Db, Table, rooms, accounts}
use brenox_engine.Db.Accounts.{App, Accounts}
use brenox_engine.Db.Triple.{Frame}
use brenox_engine.Db.Frame.{
  Frame-bind, Frame-pure, Frame-on_error, Frame-read, Frame-read_all, Frame-write, Frame-optional,
  Frame-no_rows_is, Frame-raise_if, Frame-if,
}
use brenox_engine.Queries.Billing.{SubscriptionRow}
use brenox_engine.Billing.Quotas.{
  ensure_user_subscription, subscribe_if_missing, check_can_start_video_call, check_video_in,
  check_owner_video, check_video_minutes, max_call_participants_for_workspace, participants_for,
  record_video_minutes_by_workspace_id, record_minutes_in, check_message_quota_by_workspace,
  check_quota_in, check_owner_message_quota, record_message_by_workspace_id, record_message_in,
}
use brenox_engine.Channels.Access.{assert_channel_member, assert_channel_member-Frame}
use brenox_engine.Calls.Interfaces.{CallBilling, InviteFrame, Service, IsLawful}
use brenox_engine.Notifications.Service.{notify_call_invite}
use brenox_engine.Notifications.CallInvites.{notify_call_invite-Frame}

-- The subscription that is made on demand leaves alone all tables but those of the accounts.
module _ {V : Type 0} {t : Table V}
    (apart : (v : Accounts) (d : Db) → t.get (accounts.put v d) ≡ t.get d) where
  subscribe-Frame : (u : ℕ) (o : Option SubscriptionRow) → Frame t (subscribe_if_missing u o)
  unfolding subscribe_if_missing
  subscribe-Frame u (some s) = Frame-pure tt
  subscribe-Frame u none =
      Frame-bind _ _ (Frame-no_rows_is _ _ (Frame-read accounts _))
        λ p. Frame-write accounts _ apart

  ensure-Frame : (u : ℕ) → Frame t (ensure_user_subscription u)
  unfolding ensure_user_subscription
  ensure-Frame u =
      Frame-bind _ _ (Frame-optional _ (Frame-read accounts _)) λ o. subscribe-Frame u o

  -- The two calls that the service of the messages makes.
  pub quota-Frame : (w : ℕ) → Frame t (check_message_quota_by_workspace w)
  unfolding check_message_quota_by_workspace check_quota_in check_owner_message_quota
  quota-Frame w = Frame-bind _ _ (Frame-optional _ (Frame-read accounts _)) inside
    where
      inside : (o : Option App) → Frame t (check_quota_in w o)
      inside none = Frame-pure tt
      inside (some app) = Frame-if (w == app.sandbox_workspace_id) _ _ (Frame-pure tt) (
          Frame-bind _ _ (ensure-Frame _) λ x. Frame-bind _ _ (Frame-read accounts _) λ s.
            Frame-bind _ _ (Frame-raise_if _ _)
              λ y. Frame-bind _ _ (Frame-read_all accounts _) λ n. Frame-raise_if _ _)

  pub message-Frame : (w : ℕ) → Frame t (record_message_by_workspace_id w)
  unfolding record_message_by_workspace_id record_message_in
  message-Frame w = Frame-bind _ _ (Frame-optional _ (Frame-read accounts _)) inside
    where
      inside : (o : Option App) → Frame t (record_message_in w o)
      inside none = Frame-pure tt
      inside (some app) =
          Frame-if (w == app.sandbox_workspace_id) _ _ (Frame-pure tt)
            (Frame-write accounts _ apart)

minutes-Frame : (limit owner : ℕ) → Frame rooms (check_video_minutes limit owner)
unfolding check_video_minutes
minutes-Frame limit owner =
    Frame-if (ltb 0 limit) _ _ (Frame-bind _ _ (Frame-read_all accounts _) λ n. Frame-raise_if _ _)
      (Frame-pure tt)

owner_video-Frame : (u : ℕ) → Frame rooms (check_owner_video u)
unfolding check_owner_video
owner_video-Frame u = Frame-bind _ _ (ensure-Frame (λ v d. refl) u) λ x.
    Frame-bind _ _ (Frame-on_error _ _ (Frame-read accounts _)) λ s.
      Frame-bind _ _ (Frame-raise_if _ _)
        λ y. Frame-bind _ _ (Frame-raise_if _ _) λ z. minutes-Frame _ u

check-Frame : (w : ℕ) → Frame rooms (check_can_start_video_call w)
unfolding check_can_start_video_call check_video_in
check-Frame w = Frame-bind _ _ (Frame-optional _ (Frame-read accounts _)) inside
  where
    inside : (o : Option App) → Frame rooms (check_video_in w o)
    inside none = Frame-pure tt
    inside (some app) =
        Frame-if (w == app.sandbox_workspace_id) _ _ (Frame-pure tt) (owner_video-Frame _)

max-Frame : (w : ℕ) → Frame rooms (max_call_participants_for_workspace w)
unfolding max_call_participants_for_workspace participants_for
max-Frame w = Frame-bind _ _ (Frame-optional _ (Frame-read accounts _)) inside
  where
    inside : (o : Option App) → Frame rooms (participants_for o)
    inside none = Frame-pure 0
    inside (some app) =
        Frame-bind _ _ (ensure-Frame (λ v d. refl) _)
          λ x. Frame-bind _ _ (Frame-read accounts _) λ s. Frame-pure _

record-Frame : (w n : ℕ) → Frame rooms (record_video_minutes_by_workspace_id w n)
unfolding record_video_minutes_by_workspace_id record_minutes_in
record-Frame w n =
    Frame-if (leb n 0) _ _ (Frame-pure tt)
      (Frame-bind _ _ (Frame-optional _ (Frame-read accounts _)) inside)
  where
    inside : (o : Option App) → Frame rooms (record_minutes_in w n o)
    inside none = Frame-pure tt
    inside (some app) =
        Frame-if (w == app.sandbox_workspace_id) _ _ (Frame-pure tt)
          (Frame-write accounts _ (λ v d. refl))

abbrev pub billing_service : CallBilling
billing_service = record {
  check_can_start_video_call = check_can_start_video_call;
  max_call_participants_for_workspace = max_call_participants_for_workspace;
  record_video_minutes_by_workspace_id = record_video_minutes_by_workspace_id;
}

-- The service of the calls as the server builds it, with or without billing, with or without a notifier
-- of invitations, which then has a deliverer, and with its limit.
abbrev pub engine : Bool → Bool → Bool → ℕ → Service
engine has_billing has_broadcast has_invites max = record {
  billing = if has_billing then some billing_service else none;
  access = assert_channel_member;
  has_broadcast = has_broadcast;
  invites = if has_invites then some (notify_call_invite true) else none;
  max_participants = max;
}

invites-Frame : (i : Bool) → InviteFrame (if i then some (notify_call_invite true) else none)
invites-Frame true = notify_call_invite-Frame true
invites-Frame false = tt

-- As the server builds it, the service of the calls has neighbours that leave its tables alone: the
-- billing checks and the metering write subscriptions and usage only, the invitations notifications
-- only, and the channel check nothing.
pub engine-IsLawful :
    (has_billing has_broadcast has_invites : Bool) (max : ℕ)
    → IsLawful (engine has_billing has_broadcast has_invites max)
engine-IsLawful true b i max = record {
  billing_frame = (check-Frame, max-Frame, record-Frame);
  access_frame = assert_channel_member-Frame;
  invite_frame = invites-Frame i;
}
engine-IsLawful false b i max = record {
  billing_frame = tt;
  access_frame = assert_channel_member-Frame;
  invite_frame = invites-Frame i;
}
