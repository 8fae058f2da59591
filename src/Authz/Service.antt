-- ===== src/Authz/Service.antt =====
-- internal/authz/service.go: the checks against the membership and channel role tables.
use brenox_engine.Base.{ℕ, Bool, true, false, ◌&&◌, Option, none, some, String, ◌==◌, if◌then◌else◌}
use brenox_engine.Base.Monad.{pure, raise, ◌>>=◌}
use brenox_engine.Db.{no_rows, authz, AuthzError, M, optional, no_rows_is, or_raise}
use brenox_engine.Db.Org.{ChannelRole}
use brenox_engine.Queries.Org.{get_workspace_member, get_channel_role}
use brenox_engine.Authz.Permissions.{
  Role, unset, AuthzAction, send_message, create_channel, invite_member, remove_member,
  change_member_role, other, Options, allowed, parse_role, same_role,
}

unfoldable pub workspace_role : ℕ → ℕ → M Role
workspace_role workspace user = do
  m ← no_rows_is (authz AuthzError.forbidden) (get_workspace_member workspace user)
  or_raise (parse_role m.role) (authz AuthzError.forbidden)

unfoldable pub channel_role : ℕ → ℕ → M String
channel_role channel user =
    if channel == 0
    then raise no_rows
    else (get_channel_role channel user >>= λ (r : ChannelRole). pure r.role)

unfoldable pub message_options : ℕ → Bool → Options
message_options channel read_only = record {
  read_only_channel = read_only;
  channel_role = unset;
  channel_id_value = channel;
}

abbrev pub is_send : AuthzAction → Bool
is_send send_message = true
is_send create_channel = false
is_send invite_member = false
is_send remove_member = false
is_send change_member_role = false
is_send other = false

unfoldable pub override : Options → Option String → Options
override opts none = opts
override opts (some raw) = elim (parse_role raw) [
  | none ↦ opts
  | some r ↦ record opts { channel_role = r }
]

-- A read-only channel's own roles are looked up when a message is sent.
unfoldable pub with_channel_role : Options → AuthzAction → ℕ → M Options
with_channel_role opts action user =
    if opts.read_only_channel && (is_send action && same_role opts.channel_role unset)
    then (optional (channel_role opts.channel_id_value user) >>= λ raw. pure (override opts raw))
    else pure opts

unfoldable pub can : ℕ → ℕ → AuthzAction → Options → M (Unit {0})
can workspace user action opts = do
  role ← workspace_role workspace user
  opts' ← with_channel_role opts action user
  if allowed role action opts' then pure tt else raise (authz AuthzError.forbidden)
