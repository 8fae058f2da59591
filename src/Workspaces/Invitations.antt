-- ===== src/Workspaces/Invitations.antt =====
-- The invitation that a new member of a workspace is sent.
use brenox_engine.Base.{ℕ, ◌≡◌, refl, ◌⊎◌, inl, inr, Option, none, some, Bool, String}
use brenox_engine.Db.{Error, org}
use brenox_engine.Db.Org.{User, Workspace, Org}
use brenox_engine.Db.Triple.{Triple, Triple-bind, Triple-pure, Triple-weaken}
use brenox_engine.Db.Frame.{Frame-read}
use brenox_engine.Db.Reads.{Triple-attempt, Triple-attempted}
use brenox_engine.Notifications.Invites.{Invited, handle_workspace_invite-Invited}
use brenox_engine.Notifications.Service.{handle_workspace_invite}
use brenox_engine.Workspaces.Members.{InviteNotifier, notify_invite, invite_as}

-- What the service relies on: its notifier sends an invitation or does nothing.
abbrev pub IsLawful : Option InviteNotifier → Type 0
IsLawful none = Unit
IsLawful (some f) =
    (w a u : ℕ) (workspace_name actor_name : String) (T : Org)
    → Triple org T (f w a u workspace_name actor_name) (λ x T'. (T' ≡ T) ⊎ Invited w a u T T')
        (λ e T'. (T' ≡ T) ⊎ Invited w a u T T')

module _ (notifier : Option InviteNotifier) (law : IsLawful notifier) (w a u : ℕ) (T : Org)
    {R : Error → Org → Type 0} where
  -- Telling the user of the invitation cannot fail.
  pub notify_invite-Triple :
      {Q : Option (Unit {0}) → Org → Type 0}
      → ((o : Option (Unit {0})) (T' : Org) → (T' ≡ T) ⊎ Invited w a u T T' → Q o T')
      → Triple org T (notify_invite notifier w a u) Q R
  unfolding notify_invite invite_as
  notify_invite-Triple {Q} q = told notifier law
    where
      told : (f : Option InviteNotifier) → IsLawful f → Triple org T (notify_invite f w a u) Q R
      told none l = Triple-pure none (q none T (inl refl))
      told (some f) l = Triple-bind (
          Triple-attempt (Frame-read org _)
            (λ x. Triple-bind (Triple-attempt (Frame-read org _) (λ y. sent x y))))
        where
          sent : (x : Option Workspace) (y : Option User) → Triple org T (invite_as f w a u x y) Q R
          sent (some x) (some y) = Triple-attempted (
              Triple-weaken _ _ _ _ (l w a u x.name y.username T) (λ z T' k. q _ T' k)
                (λ e T' k. q none T' k))
          sent none y = Triple-pure none (q none T (inl refl))
          sent (some x) none = Triple-pure none (q none T (inl refl))

-- The service of the notifications fills the interface. The argument says if the server sets it, and
-- if it has a deliverer.
abbrev pub inviter : Option Bool → Option InviteNotifier
inviter none = none
inviter (some rt) = some (handle_workspace_invite rt)

pub inviter-IsLawful : (o : Option Bool) → IsLawful (inviter o)
inviter-IsLawful none = tt
inviter-IsLawful (some rt) = λ w a u x y T.
    Triple-weaken _ _ _ _ (handle_workspace_invite-Invited rt w a u x y T)
      (λ z T' k. elim k [ inl same ↦ inl same.1 | inr told ↦ inr told ]) (λ e T' same. inl same)
