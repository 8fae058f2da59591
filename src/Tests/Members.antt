-- ===== src/Tests/Members.antt =====
-- Runs of the requests on the members of a workspace, and roles.
use brenox_engine.Base.{ℕ, length, some, [], ◌∷◌, ◌≤◌, ◌≡◌, refl, ◌⊎◌, true, arith, count}
use brenox_engine.Db.{Db, org}
use brenox_engine.Db.Triple.{Triple}
use brenox_engine.Queries.Org.{is_membership}
use brenox_engine.Authz.Permissions.{admin, moderator, can_assign_role, parse_role, role_text}
use brenox_engine.Authz.Matrix.{can_assign_role-below, rank}
use brenox_engine.Workspaces.Members.{add_member, remove_member, update_member_role}
use brenox_engine.Workspaces.Effects.{
  Answered, Added, Removed, Changed, add_member-Added, remove_member-Removed,
  update_member_role-Changed,
}
use brenox_engine.Workspaces.Invitations.{inviter, inviter-IsLawful}
use brenox_engine.Db.Org.{Org}
use brenox_engine.Workspaces.Rows.{OwnersKept}
use brenox_engine.Workspaces.Owners.{
  MemberReach, MemberReach-OwnersKept, handle, handles, changes, removes,
}
use brenox_engine.Workspaces.Service.{create_workspace}
use brenox_engine.Workspaces.Creation.{Created, Failed, create_workspace-Created}
use brenox_engine.Tests.Data.{people, start, plain}

remove_member-Removed_example :
    Triple org people (remove_member 1 1 2) (λ x T'. Removed 1 1 2 people T') (λ e T'. T' ≡ people)
remove_member-Removed_example = remove_member-Removed 1 1 2 people

update_member_role-Changed_example :
    Triple org people
      (update_member_role plain 1 1 2 "admin")
      (λ r T'. Changed plain 1 1 2 "admin" people T' × Answered 2 "admin" r)
      (λ e T'. (T' ≡ people) ⊎ Changed plain 1 1 2 "admin" people T')
update_member_role-Changed_example = update_member_role-Changed plain 1 1 2 "admin" people

-- The first of the two people only is a member.
abbrev alone : Org
alone = record people {
  members = (record { workspace_id = 1; user_id = 1; role = "owner"; created_at = 0 }) ∷ [];
}

abbrev rows_and_notices : Db → ℕ × ℕ
rows_and_notices d = (length d.org.members, length d.org.notifications)

add_member-Added_example :
    Triple org alone
      (add_member plain (inviter (some true)) 1 1 "b@x" "member")
      (λ r T'. (v : Added plain 1 1 "b@x" "member" alone T') × Answered v.user.id "member" r)
      (λ e T'. (T' ≡ alone) ⊎ Added plain 1 1 "b@x" "member" alone T')
add_member-Added_example =
    add_member-Added plain (inviter (some true)) 1 1 "b@x" "member" alone
      (inviter-IsLawful (some true))

-- The row is there afterwards, and the invitation.
added_and_told :
    rows_and_notices
      (add_member plain (inviter (some true)) 1 1 "b@x" "member" (record start { org = alone })).1
    ≡ (2, 1)
unfolding add_member brenox_engine.Base.Monad.◌>>=◌ brenox_engine.Db.on_error
    brenox_engine.Authz.Service.can brenox_engine.Authz.Service.workspace_role
    brenox_engine.Db.no_rows_is brenox_engine.Db.read brenox_engine.Db.or_raise parse_role
    brenox_engine.Authz.Service.with_channel_role brenox_engine.Base.Monad.pure
    brenox_engine.Authz.Permissions.allowed brenox_engine.Workspaces.Members.grantable_role
    brenox_engine.Workspaces.Members.not_owner can_assign_role brenox_engine.Db.raise_if
    brenox_engine.Workspaces.Members.add_found brenox_engine.Db.attempt brenox_engine.Db.optional
    brenox_engine.Db.write brenox_engine.Workspaces.Members.invite_as
    brenox_engine.Workspaces.Members.notify_invite brenox_engine.Workspaces.Members.refuse_if_member
    brenox_engine.Workspaces.Members.response
    brenox_engine.Notifications.Service.handle_workspace_invite
    brenox_engine.Notifications.Service.create brenox_engine.Notifications.Service.dispatch
    brenox_engine.Notifications.Service.deliver brenox_engine.Notifications.Service.valid_type
    brenox_engine.Db.send
added_and_told = refl

one_row_each : (w u : ℕ) → count (is_membership w u) people.members ≤ 1
one_row_each w u = ground arith

-- The owner promotes the other, who then tries to remove the owner.
abbrev after_requests : Db
after_requests =
    handle plain (some true) (removes 1 2 1)
      (handle plain (some true) (changes 1 1 2 "admin") start)

MemberReach-OwnersKept_example : OwnersKept people after_requests.org
MemberReach-OwnersKept_example =
    MemberReach-OwnersKept plain (some true)
      (MemberReach.next (MemberReach.next MemberReach.here (handles (changes 1 1 2 "admin")))
        (handles (removes 1 2 1)))
      one_row_each

can_assign_role-below_example : can_assign_role admin moderator ≡ true
unfolding rank
can_assign_role-below_example = can_assign_role-below admin moderator

create_workspace-Created_example :
    Triple org people
      (create_workspace plain 2 "Second" "second")
      (λ x T'. Created plain 2 "Second" "second" people T')
      (Failed plain 2 "Second" "second" people)
create_workspace-Created_example = create_workspace-Created plain 2 "Second" "second" people
