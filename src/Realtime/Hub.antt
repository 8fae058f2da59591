-- ===== src/Realtime/Hub.antt =====
-- internal/realtime/hub.go: the hub's maps, under its lock. A socket is the address of its Client,
-- and `heap` reads the fields, which never change after the client is made. `sockets` holds the keys
-- of the map of maps `channels`: `channels[c]` has those whose channel is `c`. A missing key of a
-- counter reads 0.
use text.Mathlib.Text.{◌==◌ as str_eq}
use brenox_engine.Base.{
  ℕ, ◌+◌, ◌-◌, Bool, true, false, not, ◌&&◌, List, [], ◌∷◌, ◌++◌, String, ◌==◌, ltb, leb, is_some,
  if◌then◌else◌, select, select_all, delete,
}

pub record Client : Type 0 where
  pub user_id : ℕ
  pub channel_id : ℕ
  pub workspace_id : ℕ
  pub remote_ip : String

abbrev pub Heap : Type 0
Heap = ℕ → Client

pub record Hub : Type 0 where
  pub max_connections_per_user : ℕ
  pub max_connections_per_ip : ℕ
  pub has_broker : Bool
  pub has_presence : Bool
  pub sockets : List ℕ
  pub user_connections : ℕ → ℕ
  pub ip_connections : String → ℕ

-- The calls that a method makes of its neighbours, in order.
pub data Effect : Type 0 where
  -- EnsureSubscribed, MaybeUnsubscribe: workspace, channel
  ensure_subscribed : ℕ → ℕ → Effect
  maybe_unsubscribe : ℕ → ℕ → Effect
  ensure_user_subscribed : ℕ → Effect
  maybe_unsubscribe_user : ℕ → Effect
  -- presence.Connect, presence.Disconnect: user, workspace, channel
  connect : ℕ → ℕ → ℕ → Effect
  disconnect : ℕ → ℕ → ℕ → Effect
  close_send : ℕ → Effect

abbrev pub when : Bool → Effect → List Effect
when c e = if c then e ∷ [] else []

unfoldable pub new_hub : ℕ → ℕ → Bool → Bool → Hub
new_hub per_user per_ip has_broker has_presence = record {
  max_connections_per_user = per_user;
  max_connections_per_ip = per_ip;
  has_broker = has_broker;
  has_presence = has_presence;
  sockets = [];
  user_connections = λ u. 0;
  ip_connections = λ ip. 0;
}

unfoldable pub can_connect : Hub → ℕ → String → Bool
can_connect h user ip =
    if ltb 0 h.max_connections_per_user && leb h.max_connections_per_user (h.user_connections user)
    then false
    else not (ltb 0 h.max_connections_per_ip && leb h.max_connections_per_ip (h.ip_connections ip))

abbrev pub on_channel : Heap → ℕ → ℕ → Bool
on_channel heap channel p = (heap p).channel_id == channel

-- `channels[channel]`
unfoldable pub sockets_on : Heap → ℕ → Hub → List ℕ
sockets_on heap channel h = select_all (on_channel heap channel) h.sockets

abbrev pub is_empty : {A : Type 0} → List A → Bool
is_empty [] = true
is_empty (x ∷ xs) = false

abbrev pub is_registered : ℕ → List ℕ → Bool
is_registered p ps = is_some (select (λ q. q == p) ps)

abbrev pub bump : ℕ → (ℕ → ℕ) → ℕ → ℕ
bump k f k' = if k == k' then f k' + 1 else f k'

abbrev pub bump_ip : String → (String → ℕ) → String → ℕ
bump_ip k f k' = if str_eq k k' then f k' + 1 else f k'

-- `n--`, and the key is deleted when that leaves nothing.
abbrev pub lower : ℕ → (ℕ → ℕ) → ℕ → ℕ
lower k f k' = if k == k' then f k' - 1 else f k'

abbrev pub lower_ip : String → (String → ℕ) → String → ℕ
lower_ip k f k' = if str_eq k k' then f k' - 1 else f k'

unfoldable pub handle_register : Heap → ℕ → Hub → Hub × List Effect
unfolding sockets_on
handle_register heap p h =
    let c = heap p in
    let first_on_channel = is_empty (sockets_on heap c.channel_id h) in
    let users = bump c.user_id h.user_connections in
    let h' = record h {
      sockets = if is_registered p h.sockets then h.sockets else p ∷ h.sockets;
      user_connections = users;
      ip_connections = bump_ip c.remote_ip h.ip_connections;
    } in
    (
      h',
      when (first_on_channel && h.has_broker) (ensure_subscribed c.workspace_id c.channel_id)
          ++ when (users c.user_id == 1 && h.has_broker) (ensure_user_subscribed c.user_id)
          ++ when h.has_presence (connect c.user_id c.workspace_id c.channel_id),
    )

unfoldable pub handle_unregister : Heap → ℕ → Hub → Hub × List Effect
unfolding sockets_on
handle_unregister heap p h =
    if is_registered p h.sockets
    then (let c = heap p in
        let users = lower c.user_id h.user_connections in
        let h' = record h {
          sockets = delete (λ q. q == p) h.sockets;
          user_connections = users;
          ip_connections = lower_ip c.remote_ip h.ip_connections;
        } in
        (
          h',
          when (is_empty (sockets_on heap c.channel_id h') && h.has_broker)
                (maybe_unsubscribe c.workspace_id c.channel_id)
              ++ when (leb (users c.user_id) 0 && h.has_broker) (maybe_unsubscribe_user c.user_id)
              ++ close_send p
                ∷ when h.has_presence (disconnect c.user_id c.workspace_id c.channel_id),
        ))
    else (h, [])

abbrev pub hang_up : Heap → Bool → List ℕ → List Effect
hang_up heap has_presence [] = []
hang_up heap has_presence (p ∷ ps) =
    when has_presence (disconnect (heap p).user_id (heap p).workspace_id (heap p).channel_id)
    ++ close_send p ∷ hang_up heap has_presence ps

-- Shutdown, the first time: the maps of counters are left as they are.
unfoldable pub shutdown : Heap → Hub → Hub × List Effect
shutdown heap h = (record h { sockets = [] }, hang_up heap h.has_presence h.sockets)
