-- ===== src/Presence/Store.antt =====
-- internal/presence/memory_store.go and types.go. Each method holds the store's lock for its whole
-- run, so it is one step on the state. `now` is the clock; a user who was never seen has time 0.
use text.Mathlib.Text.{◌==◌ as str_eq}
use brenox_engine.Base.{
  ℕ, ◌+◌, ◌-◌, Bool, true, false, not, ◌&&◌, ◌||◌, List, [], ◌∷◌, ◌++◌, Option, none, some, String,
  ◌==◌, leb, ltb, if◌then◌else◌,
}
use brenox_engine.Base.Map.{Map, value_or, get, put, remove, keys}

abbrev pub online : String
online = "online"

abbrev pub away : String
away = "away"

abbrev pub offline : String
offline = "offline"

pub record MemoryUser : Type 0 where
  pub status : String
  pub connection_count : ℕ
  pub last_seen : ℕ
  -- workspace, channel
  pub channels : Map (Map ℕ)

pub record MemoryStore : Type 0 where
  pub users : Map MemoryUser
  pub global_online : Map (Unit {0})
  -- workspace, user
  pub ws_online : Map (Map (Unit {0}))

pub record UserPresence : Type 0 where
  pub user_id : ℕ
  pub status : String
  pub connection_count : ℕ
  pub last_seen : ℕ

pub record ConnectResult : Type 0 where
  pub became_online : Bool
  pub global_count : ℕ

pub record DisconnectResult : Type 0 where
  pub became_offline : Bool
  pub global_count : ℕ

pub record ChannelRef : Type 0 where
  pub workspace_id : ℕ
  pub channel_id : ℕ

unfoldable pub valid_status : String → Bool
valid_status status = str_eq status online || (str_eq status away || str_eq status offline)

abbrev pub new_memory_store : MemoryStore
new_memory_store = record { users = []; global_online = []; ws_online = [] }

abbrev pub new_user : MemoryUser
new_user = record { status = offline; connection_count = 0; last_seen = 0; channels = [] }

-- The user's entry; the methods that call ensureUser write it back.
unfoldable pub ensure_user : ℕ → MemoryStore → MemoryUser
ensure_user user s = value_or new_user (get user s.users)

-- A lookup of a missing key gives Go's zero value.
unfoldable pub count_in : ℕ → Map ℕ → ℕ
count_in channel chs = value_or 0 (get channel chs)

unfoldable pub channels_in : ℕ → MemoryUser → Map ℕ
channels_in workspace user = value_or [] (get workspace user.channels)

unfoldable pub to_presence : ℕ → MemoryUser → UserPresence
to_presence id user = record {
  user_id = id;
  status = if user.connection_count == 0 then offline else user.status;
  connection_count = user.connection_count;
  last_seen = user.last_seen;
}

unfoldable pub online_in : ℕ → MemoryStore → Map (Unit {0})
online_in workspace s = value_or [] (get workspace s.ws_online)

unfoldable pub mark_workspace_online : ℕ → ℕ → Map (Map (Unit {0})) → Map (Map (Unit {0}))
mark_workspace_online workspace user ws =
    put workspace (put user tt (value_or [] (get workspace ws))) ws

unfoldable pub is_empty : Map ℕ → Bool
is_empty [] = true
is_empty (x ∷ xs) = false

-- The set of a workspace without the user, where there is such a set.
unfoldable pub unmark :
    ℕ → ℕ → Option (Map (Unit {0})) → Map (Map (Unit {0})) → Map (Map (Unit {0}))
unmark workspace id none ws = ws
unmark workspace id (some users) ws = put workspace (remove id users) ws

unfoldable pub unmark_workspace_online :
    ℕ → ℕ → MemoryUser → Map (Map (Unit {0})) → Map (Map (Unit {0}))
unmark_workspace_online workspace id user ws =
    if not (is_empty (channels_in workspace user))
    then ws
    else unmark workspace id (get workspace ws) ws

-- The user's entry with one more connection.
unfoldable pub attached : ℕ → ℕ → ℕ → MemoryUser → MemoryUser
attached now workspace channel user =
    let chs = channels_in workspace user in
    record {
      status = if str_eq user.status "" || str_eq user.status offline then online else user.status;
      connection_count = user.connection_count + 1;
      last_seen = now;
      channels = put workspace (put channel (count_in channel chs + 1) chs) user.channels;
    }

unfoldable pub connect : ℕ → ℕ → ℕ → ℕ → MemoryStore → ConnectResult × MemoryStore
connect now id workspace channel s =
    let user = attached now workspace channel (ensure_user id s) in
    (
      record { became_online = user.connection_count == 1; global_count = user.connection_count },
      record {
        users = put id user s.users;
        global_online =
            if user.connection_count == 1 then put id tt s.global_online else s.global_online;
        ws_online = mark_workspace_online workspace id s.ws_online;
      },
    )

-- `chs[channelID]--`, and the entry goes when nothing is left.
unfoldable pub lowered : ℕ → Map ℕ → Map ℕ
lowered channel chs =
    if leb (count_in channel chs) 1
    then remove channel chs
    else put channel (count_in channel chs - 1) chs

unfoldable pub store_channels : ℕ → Map ℕ → Map (Map ℕ) → Map (Map ℕ)
store_channels workspace chs all =
    if is_empty chs then remove workspace all else put workspace chs all

unfoldable pub lower_channels : ℕ → ℕ → Option (Map ℕ) → Map (Map ℕ) → Map (Map ℕ)
lower_channels workspace channel none all = all
lower_channels workspace channel (some chs) all = store_channels workspace (lowered channel chs) all

-- The user's entry with one connection less, and offline after the last. A count below zero is set
-- to zero.
unfoldable pub detached : ℕ → ℕ → ℕ → MemoryUser → MemoryUser
detached now workspace channel user = record {
  status = if user.connection_count - 1 == 0 then offline else user.status;
  connection_count = user.connection_count - 1;
  last_seen = now;
  channels = lower_channels workspace channel (get workspace user.channels) user.channels;
}

unfoldable pub disconnect_user :
    ℕ → ℕ → ℕ → ℕ → Option MemoryUser → MemoryStore → DisconnectResult × MemoryStore
disconnect_user now id workspace channel none s =
    (record { became_offline = false; global_count = 0 }, s)
disconnect_user now id workspace channel (some before) s =
    let user = detached now workspace channel before in
    (
      record { became_offline = user.connection_count == 0; global_count = user.connection_count },
      record {
        users = put id user s.users;
        global_online =
            if user.connection_count == 0 then remove id s.global_online else s.global_online;
        ws_online = unmark_workspace_online workspace id user s.ws_online;
      },
    )

unfoldable pub disconnect : ℕ → ℕ → ℕ → ℕ → MemoryStore → DisconnectResult × MemoryStore
disconnect now id workspace channel s = disconnect_user now id workspace channel (get id s.users) s

unfoldable pub touch_user : ℕ → ℕ → Option MemoryUser → MemoryStore → MemoryStore
touch_user now id none s = s
touch_user now id (some user) s = record s {
  users = put id (record user { last_seen = now }) s.users;
}

unfoldable pub touch : ℕ → ℕ → MemoryStore → MemoryStore
touch now id s = touch_user now id (get id s.users) s

-- While a connection is open, `offline` becomes `away`.
unfoldable pub effective_status : MemoryUser → String → String
effective_status user status =
    if ltb 0 user.connection_count && str_eq status offline then away else status

unfoldable pub set_status : ℕ → ℕ → String → MemoryStore → UserPresence × MemoryStore
set_status now id status s =
    let before = ensure_user id s in
    let user : MemoryUser = record before {
      status = effective_status before status;
      last_seen = now;
    } in
    (to_presence id user, record s { users = put id user s.users })

unfoldable pub presence_of : ℕ → Option MemoryUser → UserPresence
presence_of id none = record { user_id = id; status = offline; connection_count = 0; last_seen = 0 }
presence_of id (some user) = to_presence id user

unfoldable pub get_presence : ℕ → MemoryStore → UserPresence
get_presence id s = presence_of id (get id s.users)

-- The users of a set of ids that have an entry.
unfoldable pub present_of : ℕ → Option MemoryUser → List UserPresence
present_of id none = []
present_of id (some user) = to_presence id user ∷ []

unfoldable pub presences : List ℕ → Map MemoryUser → List UserPresence
presences [] users = []
presences (id ∷ ids) users = present_of id (get id users) ++ presences ids users

unfoldable pub list_online : MemoryStore → List UserPresence
list_online s = presences (keys s.global_online) s.users

unfoldable pub list_workspace_online_user_ids : ℕ → MemoryStore → List ℕ
list_workspace_online_user_ids workspace s = keys (online_in workspace s)

unfoldable pub refs_in : ℕ → Map ℕ → List ChannelRef
refs_in workspace [] = []
refs_in workspace ((channel, n) ∷ chs) =
    if ltb 0 n
    then (record { workspace_id = workspace; channel_id = channel }) ∷ refs_in workspace chs
    else refs_in workspace chs

unfoldable pub refs_of : Map (Map ℕ) → List ChannelRef
refs_of [] = []
refs_of ((workspace, chs) ∷ all) = refs_in workspace chs ++ refs_of all

unfoldable pub active_channels : ℕ → MemoryStore → List ChannelRef
active_channels id s = elim (get id s.users) [ none ↦ [] | some user ↦ refs_of user.channels ]
