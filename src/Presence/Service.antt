-- ===== src/Presence/Service.antt =====
-- internal/presence/service.go, over the store in memory. What is published to the channels is a
-- list of events, oldest first; `has_broadcaster` says if SetBroadcaster's argument is not nil.
use brenox_engine.Base.{ℕ, Bool, not, ◌&&◌, List, [], ◌∷◌, String, ltb, if◌then◌else◌}
use brenox_engine.Base.Monad.{Result, ok, err}
use brenox_engine.Db.{Error}
use brenox_engine.Presence.Store.{
  MemoryStore, UserPresence, ChannelRef, valid_status, connect as store_connect,
  disconnect as store_disconnect, set_status, get_presence, active_channels,
  list_workspace_online_user_ids,
}

pub data PresenceEvent : Type 0 where
  -- workspace, channel, user
  went_online : ℕ → ℕ → ℕ → PresenceEvent
  went_offline : ℕ → ℕ → ℕ → PresenceEvent
  -- workspace, channel, user, status, last seen
  changed_status : ℕ → ℕ → ℕ → String → ℕ → PresenceEvent

pub data PresenceError : Type 0 where
  invalid_status not_workspace_member : PresenceError
  query_failed : Error → PresenceError

unfoldable pub connect : Bool → ℕ → ℕ → ℕ → ℕ → MemoryStore → List PresenceEvent × MemoryStore
connect has_broadcaster now user workspace channel s =
    let (result, s') = store_connect now user workspace channel s in
    (
      if result.became_online && has_broadcaster
          then went_online workspace channel user ∷ []
          else [],
      s',
    )

unfoldable pub disconnect : Bool → ℕ → ℕ → ℕ → ℕ → MemoryStore → List PresenceEvent × MemoryStore
disconnect has_broadcaster now user workspace channel s =
    let (result, s') = store_disconnect now user workspace channel s in
    (
      if result.became_offline && has_broadcaster
          then went_offline workspace channel user ∷ []
          else [],
      s',
    )

unfoldable pub tell_channels : ℕ → UserPresence → List ChannelRef → List PresenceEvent
tell_channels user p [] = []
tell_channels user p (ch ∷ chs) =
    changed_status ch.workspace_id ch.channel_id user p.status p.last_seen
    ∷ tell_channels user p chs

unfoldable pub update_status :
    Bool
    → ℕ
    → ℕ
    → String
    → MemoryStore
    → Result PresenceError UserPresence × (List PresenceEvent × MemoryStore)
update_status has_broadcaster now user status s =
    if not (valid_status status)
    then (err invalid_status, ([], s))
    else (let (p, s') = set_status now user status s in
        (
          ok p,
          (if has_broadcaster then tell_channels user p (active_channels user s') else [], s'),
        ))

-- The users of a list that have a connection.
unfoldable pub connected_of : MemoryStore → List ℕ → List UserPresence
connected_of s [] = []
connected_of s (user ∷ users) =
    let rest = connected_of s users in
    let p = get_presence user s in if ltb 0 p.connection_count then p ∷ rest else rest

-- On the answer of the query IsWorkspaceMember.
unfoldable pub list_workspace_presence :
    Result Error Bool → ℕ → MemoryStore → Result PresenceError (List UserPresence)
list_workspace_presence (err e) workspace s = err (query_failed e)
list_workspace_presence (ok is_member) workspace s =
    if is_member
    then ok (connected_of s (list_workspace_online_user_ids workspace s))
    else err not_workspace_member
