-- ===== src/Channels/Service.antt =====
-- internal/channels/service.go, workspace.go and membership.go.
use brenox_engine.Base.{ℕ, Bool, true, false, not, ◌||◌, List, String, ◌==◌}
use brenox_engine.Base.Monad.{pure, ◌>>=◌, ◌>>◌}
use brenox_engine.Db.{
  Error, unique_violation, channels, ChannelsError, authz, AuthzError, M, no_rows_is, on_error,
  raise_if,
}
use brenox_engine.Db.Org.{Channel}
use brenox_engine.Queries.Org.{
  is_workspace_member, get_channel_in_workspace, is_channel_member, get_channel_member,
  add_channel_member, remove_channel_member, get_channels_by_workspace_and_user,
  create_channel as create_channel_row,
}
use brenox_engine.Authz.Permissions.{
  owner, admin, create_channel as creating, no_options, same_role,
}
use brenox_engine.Authz.Service.{can, workspace_role}

unfoldable pub map_authz_error : Error → Error
map_authz_error (authz AuthzError.forbidden) = channels ChannelsError.forbidden
map_authz_error e = e

unfoldable pub assert_workspace_member : ℕ → ℕ → M (Unit {0})
assert_workspace_member workspace user = do
  is_member ← is_workspace_member workspace user
  raise_if (not is_member) (channels ChannelsError.not_workspace_member)

unfoldable pub get_channel : ℕ → ℕ → M Channel
get_channel workspace channel =
    no_rows_is (channels ChannelsError.channel_not_found)
      (get_channel_in_workspace channel workspace)

-- isDuplicateChannelName, and what is returned in its place
unfoldable pub name_duplicate : Error → Error
name_duplicate unique_violation = channels ChannelsError.duplicate_channel_name
name_duplicate e = e

-- Read-only channels are made by owners and admins.
unfoldable pub check_read_only : Bool → ℕ → ℕ → M (Unit {0})
check_read_only false workspace user = pure tt
check_read_only true workspace user = do
  role ← on_error map_authz_error (workspace_role workspace user)
  raise_if (not (same_role role owner || same_role role admin)) (channels ChannelsError.forbidden)

unfoldable pub create_channel : ℕ → ℕ → String → Bool → M Channel
create_channel workspace user name read_only = do
  assert_workspace_member workspace user
  on_error map_authz_error (can workspace user creating no_options)
  check_read_only read_only workspace user
  channel ← on_error name_duplicate (create_channel_row name user workspace read_only)
  add_channel_member channel.id user
  pure channel

unfoldable pub get_channels : ℕ → ℕ → M (List Channel)
get_channels workspace user = do
  assert_workspace_member workspace user
  get_channels_by_workspace_and_user user workspace

unfoldable pub join_channel : ℕ → ℕ → ℕ → M (Unit {0})
join_channel workspace channel user = do
  assert_workspace_member workspace user
  get_channel workspace channel
  is_member ← is_channel_member channel user
  raise_if is_member (channels ChannelsError.already_member)
  add_channel_member channel user

unfoldable pub leave_channel : ℕ → ℕ → ℕ → M (Unit {0})
leave_channel workspace channel user = do
  assert_workspace_member workspace user
  place ← get_channel workspace channel
  raise_if (place.owner_id == user) (channels ChannelsError.owner_cannot_leave)
  no_rows_is (channels ChannelsError.not_member) (get_channel_member channel user)
  remove_channel_member channel user
