-- ===== src/Realtime/Routing.antt =====
-- Who hears a call signal.
use brenox_engine.Base.{
  ℕ, ◌≡◌, ◌<◌, refl, Bool, true, not, ◌&&◌, List, [], ◌∷◌, String, ◌==◌, if◌then◌else◌, select_all,
  map, arith, ap,
}
use brenox_engine.Realtime.Hub.{Heap, Hub, sockets_on, on_channel}
use brenox_engine.Realtime.Signals.{
  Payload, object, not_object, deliver, deliver_call_signal, is_call_signal, payload_int64,
  with_from_user, hears, send_to_client,
}

-- Who should hear a signal that `user` sends to `to`, or to everybody if `to` is 0.
abbrev pub is_addressed : Heap → ℕ → ℕ → ℕ → Bool
is_addressed heap to user p =
    if to == 0 then not ((heap p).user_id == user) else (heap p).user_id == to

signed : (pl : Payload) (user : ℕ) → payload_int64 (with_from_user pl user) "from_user_id" ≡ user
unfolding payload_int64 with_from_user
signed (object entries) user = refl
signed not_object user = refl

still_to :
    (pl : Payload) (user : ℕ)
    → payload_int64 (with_from_user pl user) "to_user_id" ≡ payload_int64 pl "to_user_id"
unfolding payload_int64 with_from_user
still_to (object entries) user = refl
still_to not_object user = refl

hears-addressed :
    (heap : Heap) (to user p : ℕ) → 0 < user → hears heap to user p ≡ is_addressed heap to user p
unfolding hears
hears-addressed heap to user p real = ground arith

select_all-both :
    (p q r : ℕ → Bool) (xs : List ℕ)
    → ((x : ℕ) → r x ≡ q x)
    → select_all r (select_all p xs) ≡ select_all (λ x. p x && q x) xs
select_all-both p q r [] h = refl
select_all-both p q r (x ∷ xs) h = ground (arith, h x, select_all-both p q r xs h)

-- A call signal that a user relays, whatever sender its payload claimed, is put to exactly these
-- sockets, in their order: those on the event's channel that belong to the user it is addressed to, or,
-- addressed to nobody, those on the channel that do not belong to the sender.
pub deliver-is_addressed :
    (heap : Heap) (room : ℕ → Bool) (type : String) (workspace channel user : ℕ) (pl : Payload)
    (h : Hub)
    → is_call_signal type ≡ true
    → 0 < user
    → deliver heap room
        (record {
          event_type = type;
          workspace_id = workspace;
          channel_id = channel;
          payload = with_from_user pl user;
        })
        h
      ≡ map
          (send_to_client room (record {
            event_type = type;
            workspace_id = workspace;
            channel_id = channel;
            payload = with_from_user pl user;
          }))
          (select_all
            (λ p.
              on_channel heap channel p && is_addressed heap (payload_int64 pl "to_user_id") user p)
            h.sockets)
unfolding deliver sockets_on deliver_call_signal
deliver-is_addressed heap room type workspace channel user pl h signal real =
    rw (signal, signed pl user, still_to pl user)
      (ap (map (send_to_client room _)) (
        select_all-both (on_channel heap channel) _ _ h.sockets
          (λ p. hears-addressed heap (payload_int64 pl "to_user_id") user p real)))
