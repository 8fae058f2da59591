-- ===== src/Calls/Invitations.antt =====
-- Inviting the members of a channel to a call, while no query fails.
use brenox_engine.Base.{ℕ, List, [], ◌∷◌, Option, none, some, String, ◌==◌}
use brenox_engine.Db.{Error, org}
use brenox_engine.Db.Org.{User}
use brenox_engine.Db.Rooms.{Call, Rooms}
use brenox_engine.Db.Frame.{Frame-read, Frame-read_all}
use brenox_engine.Db.Calm.{Calm, Calm-pure, Calm-bind, Calm-if, Calm-attempt}
use brenox_engine.Db.Steady.{Steady-read, Steady-read_all}
use brenox_engine.Calls.Interfaces.{InviteNotifier, InviteFrame, Service, IsLawful}
use brenox_engine.Calls.Steady.{SteadyInvites, IsSteady}
use brenox_engine.Calls.Service.{
  notify_channel_members, notify_with, invite, invite_each, invite_listed, invite_as,
}

-- Invitations are sent or not; neither is an error.
module _ (T : Rooms) {Q : Unit {0} → Rooms → Type 0} {R : Error → Rooms → Type 0} (q : Q tt T)
    (c : Call) (i : ℕ) where
  module _ (f : InviteNotifier) (law : InviteFrame (some f)) (quiet : SteadyInvites (some f)) where
    invite_each-Calm : (n : String) (ts : List ℕ) → Calm T (invite_each f c i n ts) Q R
    unfolding invite_each invite
    invite_each-Calm n [] = Calm-pure tt q
    invite_each-Calm n (t ∷ ts) = Calm-bind (
        Calm-if (t == i) _ _ (λ own. Calm-pure none (invite_each-Calm n ts))
          (λ other.
            Calm-attempt (law _ _ _ _ _ _) (quiet _ _ _ _ _ _) (λ o. invite_each-Calm n ts)))

    invite_listed-Calm : (n : String) (o : Option (List ℕ)) → Calm T (invite_listed f c i n o) Q R
    unfolding invite_listed
    invite_listed-Calm n none = Calm-pure tt q
    invite_listed-Calm n (some ts) = invite_each-Calm n ts

    invite_as-Calm : (o : Option User) → Calm T (invite_as f c i o) Q R
    unfolding invite_as
    invite_as-Calm none = Calm-pure tt q
    invite_as-Calm (some x) = Calm-bind (
        Calm-attempt (Frame-read_all org _) (Steady-read_all org _)
          (λ ts. invite_listed-Calm x.username ts))

  pub notify-Calm :
      (s : Service) → IsLawful s → IsSteady s → Calm T (notify_channel_members s c i) Q R
  unfolding notify_channel_members notify_with
  notify-Calm s law quiet = told s.invites law.invite_frame quiet.invites_steady
    where
      told :
          (o : Option InviteNotifier)
          → InviteFrame o
          → SteadyInvites o
          → Calm T (notify_with o c i) Q R
      told none l h = Calm-pure tt q
      told (some f) l h =
          Calm-bind
            (Calm-attempt (Frame-read org _) (Steady-read org _) (λ o. invite_as-Calm f l h o))
