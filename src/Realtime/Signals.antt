-- ===== src/Realtime/Signals.antt =====
-- internal/realtime/hub.go (deliver, deliverCallSignal, sendToClient, notifyUserLocal) and
-- call_signal.go. A float64 of a payload is given by the int64 that it converts to. `room` says
-- whether a socket's send buffer has room.
use text.Mathlib.Text.{◌==◌ as str_eq}
use brenox_engine.Base.{
  ℕ, Bool, false, not, ◌&&◌, ◌||◌, List, [], ◌∷◌, map, Option, some, String, ◌==◌, if◌then◌else◌,
  select, select_all,
}
use brenox_engine.Realtime.Hub.{Heap, Hub, sockets_on}

pub data Value : Type 0 where
  float64 int64 int : ℕ → Value
  other : Value

pub data Payload : Type 0 where
  object : List (String × Value) → Payload
  not_object : Payload

pub record Event : Type 0 where
  pub event_type : String
  pub workspace_id : ℕ
  pub channel_id : ℕ
  pub payload : Payload

unfoldable pub is_call_signal : String → Bool
is_call_signal t = str_eq t "call.offer" || (str_eq t "call.answer" || str_eq t "call.ice")

abbrev pub as_int64 : Option (String × Value) → ℕ
as_int64 (some (k, float64 n)) = n
as_int64 (some (k, int64 n)) = n
as_int64 (some (k, int n)) = n
as_int64 _ = 0

abbrev pub has_key : String → String × Value → Bool
has_key key entry = str_eq entry.0 key

-- The entries of a JSON object, the one that is written last first.
unfoldable pub payload_int64 : Payload → String → ℕ
payload_int64 not_object key = 0
payload_int64 (object entries) key = as_int64 (select (has_key key) entries)

unfoldable pub with_from_user : Payload → ℕ → Payload
with_from_user not_object user = object (("from_user_id", int64 user) ∷ [])
with_from_user (object entries) user = object (("from_user_id", int64 user) ∷ entries)

-- What becomes of an event at one socket: queued, or the socket is given up.
pub data Delivery : Type 0 where
  queued : ℕ → Event → Delivery
  given_up : ℕ → Delivery

unfoldable pub send_to_client : (ℕ → Bool) → Event → ℕ → Delivery
send_to_client room e p = if room p then queued p e else given_up p

-- The two guards that `continue` past a socket, negated.
unfoldable pub hears : Heap → ℕ → ℕ → ℕ → Bool
hears heap to from p =
    if not (to == 0) && not ((heap p).user_id == to)
    then false
    else not (to == 0 && (not (from == 0) && (heap p).user_id == from))

unfoldable pub deliver_call_signal : Heap → (ℕ → Bool) → Event → List ℕ → List Delivery
deliver_call_signal heap room e targets = map (send_to_client room e) (
    select_all
      (hears heap (payload_int64 e.payload "to_user_id") (payload_int64 e.payload "from_user_id"))
      targets)

unfoldable pub deliver : Heap → (ℕ → Bool) → Event → Hub → List Delivery
unfolding sockets_on
deliver heap room e h =
    let targets = sockets_on heap e.channel_id h in
    if is_call_signal e.event_type
    then deliver_call_signal heap room e targets
    else map (send_to_client room e) targets

unfoldable pub notify_user_local : Heap → (ℕ → Bool) → ℕ → Event → Hub → List Delivery
notify_user_local heap room user e h =
    map (send_to_client room e) (select_all (λ p. (heap p).user_id == user) h.sockets)
