-- ===== src/Notifications/Invites.antt =====
-- What an invitation to a workspace does to the notifications, whichever queries fail.
use brenox_engine.Base.{
  ℕ, ◌+◌, ◌≡◌, refl, ◌⊎◌, inl, inr, Bool, true, false, [], ◌∷◌, none, String, ◌==◌, Bool-cases,
}
use brenox_engine.Db.{org}
use brenox_engine.Db.Org.{Notification, Org}
use brenox_engine.Db.Triple.{Triple, Triple-pure}
use brenox_engine.Notifications.Service.{handle_workspace_invite, valid_type}
use brenox_engine.Notifications.Rows.{after, create-Triple}

-- One row was added: an unread invitation for the user, who is not the one that invites.
pub record Invited (workspace actor target : ℕ) (T T' : Org) : Type 0 where
  pub row : Notification
  pub other : target == actor ≡ false
  pub place : (row.user_id ≡ target) × (row.type ≡ "workspace_invite") × (row.read_at ≡ none)
  pub payload_is : row.payload ≡ ("workspace_id", workspace) ∷ ("actor_id", actor) ∷ []
  pub tables : T' ≡ after T (row ∷ []) (T.next_notification + 1)

-- HandleWorkspaceInvite adds one unread invitation, or changes nothing: where it fails, and where the
-- user is the one that invites.
pub handle_workspace_invite-Invited :
    (rt : Bool) (w a u : ℕ) (workspace_name actor_name : String) (T : Org)
    → Triple org T
        (handle_workspace_invite rt w a u workspace_name actor_name)
        (λ x T'. ((u == a ≡ true) × (T' ≡ T)) ⊎ Invited w a u T T')
        (λ e T'. T' ≡ T)
unfolding handle_workspace_invite valid_type
handle_workspace_invite-Invited rt w a u workspace_name actor_name T = elim (Bool-cases (u == a)) [
  | inl own ↦ rw own (Triple-pure tt (inl (refl, refl)))
  | inr other ↦ rw other (
      create-Triple rt _ T refl
        (λ now. inr record {
          row = _;
          other = other;
          place = (refl, refl, refl);
          payload_is = refl;
          tables = refl;
        })
        (λ e. refl))
]
