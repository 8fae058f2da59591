-- ===== src/Queries/Org.antt =====
-- internal/db/users.sql.go, workspaces.sql.go, channels.sql.go, channel_roles.sql.go and
-- messages.sql.go: the queries on people, workspaces, channels and messages.
use text.Mathlib.Text.{◌==◌ as str_eq}
use brenox_engine.Base.{
  ℕ, ◌+◌, Bool, ◌&&◌, List, ◌∷◌, Option, none, some, String, ◌==◌, is_some, select, select_all,
  update, delete, map, leb, take, drop, sort_by, if◌then◌else◌, [],
}
use brenox_engine.Base.Monad.{Result, ok, err}
use brenox_engine.Db.{Error, unique_violation, M, org, read, read_all, write}
use brenox_engine.Db.Org.{
  User, Workspace, WorkspaceMember, Channel, ChannelMember, ChannelRole, Message, Org,
}

abbrev pub find_user : ℕ → Org → Option User
find_user id o = select (λ u. u.id == id) o.users

abbrev pub get_user_by_id : ℕ → M User
get_user_by_id id = read org (find_user id)

abbrev pub find_user_by_email : String → Org → Option User
find_user_by_email email o = select (λ u. str_eq u.email email) o.users

abbrev pub get_user_by_email : String → M User
get_user_by_email email = read org (find_user_by_email email)

abbrev pub find_workspace : ℕ → Org → Option Workspace
find_workspace id o = select (λ w. w.id == id) o.workspaces

abbrev pub get_workspace_by_id : ℕ → M Workspace
get_workspace_by_id id = read org (find_workspace id)

-- WHERE workspace_id = $1 AND user_id = $2
abbrev pub is_membership : ℕ → ℕ → WorkspaceMember → Bool
is_membership workspace user m = m.workspace_id == workspace && m.user_id == user

abbrev pub find_member : ℕ → ℕ → Org → Option WorkspaceMember
find_member workspace user o = select (is_membership workspace user) o.members

abbrev pub get_workspace_member : ℕ → ℕ → M WorkspaceMember
get_workspace_member workspace user = read org (find_member workspace user)

abbrev pub is_workspace_member : ℕ → ℕ → M Bool
is_workspace_member workspace user = read_all org (λ o. is_some (find_member workspace user o))

-- UNIQUE (workspace_id, user_id)
abbrev pub insert_member : ℕ → ℕ → String → ℕ → Org → Result Error (Unit {0}) × Org
insert_member workspace user role now o = elim (find_member workspace user o) [
  | none ↦
      let m : WorkspaceMember = record {
        workspace_id = workspace;
        user_id = user;
        role = role;
        created_at = now;
      } in
      (ok tt, record o { members = m ∷ o.members })
  | some m ↦ (err unique_violation, o)
]

abbrev pub add_workspace_member : ℕ → ℕ → String → M (Unit {0})
add_workspace_member workspace user role = write org (insert_member workspace user role)

abbrev pub set_role : ℕ → ℕ → String → ℕ → Org → Result Error (Unit {0}) × Org
set_role workspace user role now o = (
  ok tt,
  record o {
    members = update (is_membership workspace user) (λ m. record m { role = role }) o.members;
  },
)

abbrev pub update_workspace_member_role : ℕ → ℕ → String → M (Unit {0})
update_workspace_member_role workspace user role = write org (set_role workspace user role)

abbrev pub delete_member : ℕ → ℕ → ℕ → Org → Result Error (Unit {0}) × Org
delete_member workspace user now o =
    (ok tt, record o { members = delete (is_membership workspace user) o.members })

abbrev pub remove_workspace_member : ℕ → ℕ → M (Unit {0})
remove_workspace_member workspace user = write org (delete_member workspace user)

abbrev pub find_channel : ℕ → ℕ → Org → Option Channel
find_channel id workspace o = select (λ c. c.id == id && c.workspace_id == workspace) o.channels

abbrev pub get_channel_in_workspace : ℕ → ℕ → M Channel
get_channel_in_workspace id workspace = read org (find_channel id workspace)

abbrev pub is_channel_membership : ℕ → ℕ → ChannelMember → Bool
is_channel_membership channel user m = m.channel_id == channel && m.user_id == user

abbrev pub find_channel_member : ℕ → ℕ → Org → Option ChannelMember
find_channel_member channel user o = select (is_channel_membership channel user) o.channel_members

abbrev pub is_channel_member : ℕ → ℕ → M Bool
is_channel_member channel user = read_all org (λ o. is_some (find_channel_member channel user o))

abbrev pub get_channel_member : ℕ → ℕ → M ChannelMember
get_channel_member channel user = read org (find_channel_member channel user)

-- UNIQUE (channel_id, user_id)
abbrev pub insert_channel_member : ℕ → ℕ → ℕ → Org → Result Error (Unit {0}) × Org
insert_channel_member channel user now o = elim (find_channel_member channel user o) [
  | none ↦
      let m : ChannelMember = record { channel_id = channel; user_id = user } in
      (ok tt, record o { channel_members = m ∷ o.channel_members })
  | some m ↦ (err unique_violation, o)
]

abbrev pub add_channel_member : ℕ → ℕ → M (Unit {0})
add_channel_member channel user = write org (insert_channel_member channel user)

abbrev pub delete_channel_member : ℕ → ℕ → ℕ → Org → Result Error (Unit {0}) × Org
delete_channel_member channel user now o = (
  ok tt,
  record o { channel_members = delete (is_channel_membership channel user) o.channel_members },
)

abbrev pub remove_channel_member : ℕ → ℕ → M (Unit {0})
remove_channel_member channel user = write org (delete_channel_member channel user)

abbrev pub list_channel_member_user_ids : ℕ → M (List ℕ)
list_channel_member_user_ids channel =
    read_all org
      (λ o. map (λ m. m.user_id) (select_all (λ m. m.channel_id == channel) o.channel_members))

abbrev pub find_channel_role : ℕ → ℕ → Org → Option ChannelRole
find_channel_role channel user o =
    select (λ r. r.channel_id == channel && r.user_id == user) o.channel_roles

abbrev pub get_channel_role : ℕ → ℕ → M ChannelRole
get_channel_role channel user = read org (find_channel_role channel user)

-- UNIQUE (workspace_id, name)
abbrev pub is_named : ℕ → String → Channel → Bool
is_named workspace name c = c.workspace_id == workspace && str_eq c.name name

abbrev pub insert_channel : String → ℕ → ℕ → Bool → ℕ → Org → Result Error Channel × Org
insert_channel name owner workspace read_only now o =
    elim (select (is_named workspace name) o.channels) [
      | none ↦
          let c : Channel = record {
            id = o.next_channel;
            name = name;
            owner_id = owner;
            workspace_id = workspace;
            is_read_only = read_only;
            created_at = now;
          } in
          (ok c, record o { channels = c ∷ o.channels; next_channel = o.next_channel + 1 })
      | some c ↦ (err unique_violation, o)
    ]

abbrev pub create_channel : String → ℕ → ℕ → Bool → M Channel
create_channel name owner workspace read_only =
    write org (insert_channel name owner workspace read_only)

abbrev pub insert_message : ℕ → ℕ → String → ℕ → Org → Result Error Message × Org
insert_message channel sender content now o =
    let m : Message = record {
      id = o.next_message;
      channel_id = channel;
      sender_id = sender;
      content = content;
      created_at = now;
    } in
    (ok m, record o { messages = m ∷ o.messages; next_message = o.next_message + 1 })

abbrev pub create_message : ℕ → ℕ → String → M Message
create_message channel sender content = write org (insert_message channel sender content)

-- A row of GetChannelMessages, which joins the message with its sender.
pub record ChannelMessage : Type 0 where
  pub message : Message
  pub username : String

abbrev pub joined : Org → Message → Option User → List ChannelMessage → List ChannelMessage
joined o m none rows = rows
joined o m (some u) rows = (record { message = m; username = u.username }) ∷ rows

abbrev pub join_senders : Org → List Message → List ChannelMessage
join_senders o [] = []
join_senders o (m ∷ ms) = joined o m (find_user m.sender_id o) (join_senders o ms)

abbrev pub insert_by_time : ChannelMessage → List ChannelMessage → List ChannelMessage
insert_by_time r [] = r ∷ []
insert_by_time r (x ∷ xs) =
    if leb x.message.created_at r.message.created_at then x ∷ insert_by_time r xs else r ∷ x ∷ xs

-- ORDER BY m.created_at ASC
abbrev pub sort_by_time : List ChannelMessage → List ChannelMessage
sort_by_time [] = []
sort_by_time (x ∷ xs) = insert_by_time x (sort_by_time xs)

abbrev pub channel_messages : ℕ → ℕ → ℕ → Org → List ChannelMessage
channel_messages channel limit offset o = take limit (
    drop offset
      (sort_by_time (join_senders o (select_all (λ m. m.channel_id == channel) o.messages))))

abbrev pub get_channel_messages : ℕ → ℕ → ℕ → M (List ChannelMessage)
get_channel_messages channel limit offset = read_all org (channel_messages channel limit offset)

-- One row for each row of channel_members that joins the user to a channel of the workspace.
abbrev pub joined_channels : ℕ → ℕ → Org → List Channel
joined_channels user workspace o =
    select_all (λ c. c.workspace_id == workspace && is_some (find_channel_member c.id user o))
      o.channels

-- ORDER BY c.created_at DESC; a user has one row per channel at most.
abbrev pub get_channels_by_workspace_and_user : ℕ → ℕ → M (List Channel)
get_channels_by_workspace_and_user user workspace =
    read_all org
      (λ o. sort_by (λ x y. leb y.created_at x.created_at) (joined_channels user workspace o))

abbrev pub find_workspace_by_slug : String → Org → Option Workspace
find_workspace_by_slug slug o = select (λ w. str_eq w.slug slug) o.workspaces

abbrev pub get_workspace_by_slug : String → M Workspace
get_workspace_by_slug slug = read org (find_workspace_by_slug slug)

-- UNIQUE (slug)
abbrev pub insert_workspace : String → String → ℕ → ℕ → Org → Result Error Workspace × Org
insert_workspace name slug owner now o = elim (find_workspace_by_slug slug o) [
  | none ↦
      let w : Workspace = record {
        id = o.next_workspace;
        name = name;
        slug = slug;
        owner_id = owner;
        created_at = now;
      } in
      (ok w, record o { workspaces = w ∷ o.workspaces; next_workspace = o.next_workspace + 1 })
  | some w ↦ (err unique_violation, o)
]

abbrev pub create_workspace : String → String → ℕ → M Workspace
create_workspace name slug owner = write org (insert_workspace name slug owner)

-- A row of GetWorkspacesByUser, which joins a membership with its workspace.
pub record UserWorkspace : Type 0 where
  pub workspace : Workspace
  pub role : String

abbrev pub with_role :
    ℕ → Workspace → List WorkspaceMember → List UserWorkspace → List UserWorkspace
with_role user w [] rows = rows
with_role user w (m ∷ ms) rows =
    if is_membership w.id user m
    then (record { workspace = w; role = m.role }) ∷ with_role user w ms rows
    else with_role user w ms rows

abbrev pub workspaces_of : ℕ → List WorkspaceMember → List Workspace → List UserWorkspace
workspaces_of user ms [] = []
workspaces_of user ms (w ∷ ws) = with_role user w ms (workspaces_of user ms ws)

-- ORDER BY w.created_at DESC
abbrev pub get_workspaces_by_user : ℕ → M (List UserWorkspace)
get_workspaces_by_user user = read_all org (λ o.
    sort_by (λ x y. leb y.workspace.created_at x.workspace.created_at)
      (workspaces_of user o.members o.workspaces))
