-- ===== src/Workspaces/Members.antt =====
-- internal/workspaces/members.go.
use text.Mathlib.Text.{◌==◌ as str_eq}
use brenox_engine.Base.{ℕ, Option, none, some, String, if◌then◌else◌}
use brenox_engine.Base.Monad.{pure, raise, ◌>>=◌, ◌>>◌}
use brenox_engine.Db.{
  Error, workspaces, WorkspacesError, authz, AuthzError, M, optional, no_rows_is, or_raise,
  on_error, raise_if, attempt,
}
use brenox_engine.Db.Org.{User, Workspace, WorkspaceMember}
use brenox_engine.Queries.Org.{
  get_workspace_member, get_user_by_email, get_user_by_id, get_workspace_by_id,
  add_workspace_member, remove_workspace_member, update_workspace_member_role,
}
use brenox_engine.Strings.{Strings}
use brenox_engine.Authz.Permissions.{
  Role, owner, role_text, parse_role, can_assign_role, invite_member, remove_member as removing,
  change_member_role, no_options, same_role,
}
use brenox_engine.Authz.Service.{can, workspace_role}

pub record MemberResponse : Type 0 where
  pub user_id : ℕ
  pub username : String
  pub email : String
  pub role : String
  pub created_at : ℕ

unfoldable pub map_authz_error : Error → Error
map_authz_error (authz AuthzError.forbidden) = workspaces WorkspacesError.forbidden
map_authz_error e = e

-- `!ok || targetRole == authz.RoleOwner`
unfoldable pub not_owner : Option Role → Option Role
not_owner none = none
not_owner (some r) = if same_role r owner then none else some r

unfoldable pub response : User → WorkspaceMember → MemberResponse
response u m = record {
  user_id = u.id;
  username = u.username;
  email = u.email;
  role = m.role;
  created_at = m.created_at;
}

unfoldable pub refuse_if_member : Option WorkspaceMember → M (Unit {0})
refuse_if_member none = pure tt
refuse_if_member (some m) = raise (workspaces WorkspacesError.already_member)

-- HandleWorkspaceInvite: workspace, actor, invited user, workspace's name, actor's name
abbrev pub InviteNotifier : Type 0
InviteNotifier = ℕ → ℕ → ℕ → String → String → M (Unit {0})

unfoldable pub invite_as :
    InviteNotifier → ℕ → ℕ → ℕ → Option Workspace → Option User → M (Option (Unit {0}))
invite_as f workspace actor user (some w) (some a) =
    attempt (f workspace actor user w.name a.username)
invite_as f workspace actor user _ _ = pure none

-- `none` for a nil notifier.
unfoldable pub notify_invite : Option InviteNotifier → ℕ → ℕ → ℕ → M (Option (Unit {0}))
notify_invite none workspace actor user = pure none
notify_invite (some f) workspace actor user = do
  w ← attempt (get_workspace_by_id workspace)
  a ← attempt (get_user_by_id actor)
  invite_as f workspace actor user w a

-- The part of AddMember and UpdateMemberRole that decides the new role.
unfoldable pub grantable_role : Strings → ℕ → ℕ → String → M Role
grantable_role lib workspace actor raw = do
  target ←
      or_raise (not_owner (parse_role (lib.trim_space raw)))
        (workspaces WorkspacesError.invalid_role)
  actor_role ← on_error map_authz_error (workspace_role workspace actor)
  if can_assign_role actor_role target
      then pure target
      else raise (workspaces WorkspacesError.forbidden)

unfoldable pub add_found : Option InviteNotifier → ℕ → ℕ → Role → User → M MemberResponse
add_found notifier workspace actor role user = do
  existing ← optional (get_workspace_member workspace user.id)
  refuse_if_member existing
  add_workspace_member workspace user.id (role_text role)
  m ← get_workspace_member workspace user.id
  notify_invite notifier workspace actor user.id
  pure (response user m)

unfoldable pub add_member :
    Strings → Option InviteNotifier → ℕ → ℕ → String → String → M MemberResponse
add_member lib notifier workspace actor raw_email raw_role = do
  on_error map_authz_error (can workspace actor invite_member no_options)
  role ← grantable_role lib workspace actor raw_role
  raise_if (str_eq (lib.trim_space (lib.to_lower raw_email)) "")
      (workspaces WorkspacesError.email_required)
  user ←
      no_rows_is (workspaces WorkspacesError.user_not_found)
        (get_user_by_email (lib.trim_space (lib.to_lower raw_email)))
  add_found notifier workspace actor role user

-- The membership row of the target, unless it is the owner's.
unfoldable pub modifiable_member : ℕ → ℕ → M WorkspaceMember
modifiable_member workspace user = do
  target ← no_rows_is (workspaces WorkspacesError.not_member) (get_workspace_member workspace user)
  raise_if (str_eq target.role (role_text owner)) (workspaces WorkspacesError.cannot_modify_owner)
  pure target

unfoldable pub remove_member : ℕ → ℕ → ℕ → M (Unit {0})
remove_member workspace actor user = do
  on_error map_authz_error (can workspace actor removing no_options)
  modifiable_member workspace user
  remove_workspace_member workspace user

unfoldable pub update_member_role : Strings → ℕ → ℕ → ℕ → String → M MemberResponse
update_member_role lib workspace actor user raw_role = do
  on_error map_authz_error (can workspace actor change_member_role no_options)
  role ← grantable_role lib workspace actor raw_role
  modifiable_member workspace user
  update_workspace_member_role workspace user (role_text role)
  u ← get_user_by_id user
  m ← get_workspace_member workspace user
  pure (response u m)
