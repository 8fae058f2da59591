-- ===== src/Calls/Frames.antt =====
-- The parts of the methods that do not write the tables of the calls: events, invitations, metering
-- and the checks of the neighbours.
use brenox_engine.Base.{
  arith, ◌<◌, ◌≤◌, ◌≡◌, ℕ, false, List, [], ◌∷◌, Option, none, some, refl, String,
}
use brenox_engine.Db.{Error, rooms, EventType, on_error}
use brenox_engine.Db.Org.{User}
use brenox_engine.Db.Rooms.{Rooms, Call, Mode, voice, video}
use brenox_engine.Db.Triple.{Frame, Triple, Triple-bind, Triple-pure, Triple-frame, Triple-raise_if}
use brenox_engine.Db.Frame.{
  Frame-bind, Frame-pure, Frame-attempt, Frame-on_error, Frame-read, Frame-read_all, Frame-raise_if,
  Frame-clock, Frame-if, Frame-send,
}
use brenox_engine.Calls.Interfaces.{
  CallBilling, InviteNotifier, InviteFrame, Service, BillingFrame, IsLawful, limit_with,
  participant_limit, assert_participant_capacity, check_video, map_access_err, plan_limit_or,
  is_full,
}
use brenox_engine.Calls.Metering.{
  charge, charge_if_joined, meter_with, meter_with_billing, meter_video_call,
}
use brenox_engine.Calls.Service.{
  publish, notify_with, invite, invite_each, invite_listed, invite_as, notify_channel_members,
}

pub Frame-publish : (s : Service) (e : EventType) (c : Call) (u : ℕ) → Frame rooms (publish s e c u)
unfolding publish
Frame-publish s e c u = Frame-if _ _ _ (Frame-send _ (λ ss d. refl)) (Frame-pure tt)

module _ (f : InviteNotifier) (law : InviteFrame (some f)) (c : Call) (i : ℕ) where
  Frame-invite_each : (n : String) (ts : List ℕ) → Frame rooms (invite_each f c i n ts)
  unfolding invite_each invite
  Frame-invite_each n [] = Frame-pure tt
  Frame-invite_each n (t ∷ ts) =
      Frame-bind _ _ (Frame-if _ _ _ (Frame-pure none) (Frame-attempt _ (law _ _ _ _ _ _)))
        (λ _. Frame-invite_each n ts)

  Frame-invite_listed : (n : String) (ts : Option (List ℕ)) → Frame rooms (invite_listed f c i n ts)
  unfolding invite_listed
  Frame-invite_listed n none = Frame-pure tt
  Frame-invite_listed n (some ts) = Frame-invite_each n ts

  Frame-invite_as : (u : Option User) → Frame rooms (invite_as f c i u)
  unfolding invite_as
  Frame-invite_as none = Frame-pure tt
  Frame-invite_as (some u) =
      Frame-bind _ _ (Frame-attempt _ (Frame-read_all _ _))
        (λ ts. Frame-invite_listed u.username ts)

pub Frame-notify :
    (s : Service) → IsLawful s → (c : Call) (i : ℕ) → Frame rooms (notify_channel_members s c i)
unfolding notify_channel_members notify_with
Frame-notify s law c i = told s.invites law.invite_frame
  where
    told : (o : Option InviteNotifier) → InviteFrame o → Frame rooms (notify_with o c i)
    told none h = Frame-pure tt
    told (some f) h =
        Frame-bind _ _ (Frame-attempt _ (Frame-read _ _)) (λ u. Frame-invite_as f h c i u)

module _ (b : CallBilling) (law : BillingFrame (some b)) where
  Frame-charge : (c : Call) (end : ℕ) → Frame rooms (charge b c end)
  unfolding charge
  Frame-charge c end =
      Frame-if _ _ _ (Frame-pure tt)
        (Frame-bind _ _ (Frame-attempt _ (law.2 _ _)) (λ _. Frame-pure tt))

  Frame-charge_if_joined : (c : Call) (o : Option ℕ) → Frame rooms (charge_if_joined b c o)
  unfolding charge_if_joined
  Frame-charge_if_joined c none = Frame-pure tt
  Frame-charge_if_joined c (some n) =
      Frame-if _ _ _ (Frame-pure tt) (Frame-bind _ _ Frame-clock (λ now. Frame-charge c _))

  Frame-meter_with : (c : Call) (m : Mode) → Frame rooms (meter_with b c m)
  unfolding meter_with
  Frame-meter_with c voice = Frame-pure tt
  Frame-meter_with c video =
      Frame-bind _ _ (Frame-attempt _ (Frame-read_all _ _)) (λ o. Frame-charge_if_joined c o)

Frame-meter_with_billing :
    (b : Option CallBilling) → BillingFrame b → (c : Call) → Frame rooms (meter_with_billing b c)
unfolding meter_with_billing
Frame-meter_with_billing none law c = Frame-pure tt
Frame-meter_with_billing (some b) law c = Frame-meter_with b law c c.mode

Frame-limit_with :
    (b : Option CallBilling) → BillingFrame b → (n w : ℕ) → Frame rooms (limit_with b n w)
unfolding limit_with
Frame-limit_with none law n w = Frame-pure n
Frame-limit_with (some b) law n w =
    Frame-bind _ _ (Frame-attempt _ (law.1 w)) (λ p. Frame-pure (plan_limit_or n p))

Frame-check_video_with :
    (b : Option CallBilling) → BillingFrame b → (m : Mode) (w : ℕ) → Frame rooms (check_video b m w)
unfolding check_video
Frame-check_video_with none law m w = Frame-pure tt
Frame-check_video_with (some b) law voice w = Frame-pure tt
Frame-check_video_with (some b) law video w = law.0 w

module _ (s : Service) (law : IsLawful s) where
  pub Frame-meter : (c : Call) → Frame rooms (meter_video_call s c)
  unfolding meter_video_call
  Frame-meter c = Frame-meter_with_billing s.billing law.billing_frame c

  pub Frame-capacity : (w n : ℕ) → Frame rooms (assert_participant_capacity s w n)
  unfolding assert_participant_capacity participant_limit
  Frame-capacity w n =
      Frame-bind _ _ (Frame-limit_with s.billing law.billing_frame s.max_participants w)
        (λ limit. Frame-raise_if _ _)

  pub Frame-check_video : (m : Mode) (w : ℕ) → Frame rooms (check_video s.billing m w)
  Frame-check_video = Frame-check_video_with s.billing law.billing_frame

  pub Frame-access : (w c u : ℕ) → Frame rooms (on_error map_access_err (s.access w c u))
  Frame-access w c u = Frame-on_error _ _ (law.access_frame w c u)

room_below : (m l n : ℕ) → is_full l n ≡ false → (0 < l) × (l ≤ m) → n < m
unfolding is_full
room_below m l n room b = ground arith

-- Where the process has a limit, the one in force is positive and no larger.
plan_limit_bounds :
    (max : ℕ) (o : Option ℕ) → 0 < max → (0 < plan_limit_or max o) × (plan_limit_or max o ≤ max)
unfolding plan_limit_or
plan_limit_bounds max none h = (h, omega arith)
plan_limit_bounds max (some n) h = ground arith

module _ {T : Rooms} {R : Error → Rooms → Type 0} where
  limit_with-Triple :
      (Q : ℕ → Rooms → Type 0) (b : Option CallBilling) (max w : ℕ)
      → BillingFrame b
      → ((l : ℕ) → (0 < max → (0 < l) × (l ≤ max)) → Q l T)
      → ((e : Error) → R e T)
      → Triple rooms T (limit_with b max w) Q R
  unfolding limit_with
  limit_with-Triple Q none max w law q r = Triple-pure max (q max (λ h. (h, omega arith)))
  limit_with-Triple Q (some b) max w law q r = Triple-bind (
      Triple-frame (Frame-attempt _ (law.1 w)) (λ o. Triple-pure _ (q _ (plan_limit_bounds max o)))
        r)

  -- Past the capacity check there is room for one more.
  pub capacity-Triple :
      (Q : Unit {0} → Rooms → Type 0) (s : Service) (w n : ℕ)
      → IsLawful s
      → ((0 < s.max_participants → n < s.max_participants) → Q tt T)
      → ((e : Error) → R e T)
      → Triple rooms T (assert_participant_capacity s w n) Q R
  unfolding assert_participant_capacity participant_limit
  capacity-Triple Q s w n law q r = Triple-bind (
      limit_with-Triple _ s.billing s.max_participants w law.billing_frame
        (λ l bounds.
          Triple-raise_if (is_full l n) _
            (λ room. q (λ h. room_below s.max_participants l n room (bounds h))) (λ full. r _))
        r)
