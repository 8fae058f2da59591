-- ===== src/Tests/Realtime.antt =====
-- Runs of the hub and of the limiter.
use brenox_engine.Realtime.Broker.{on_effects}
use brenox_engine.Realtime.Subscriptions.{NodeReach, begins, IsFollowed, NodeReach-IsFollowed}
use Prim.Native.Nat.{◌%◌}
use brenox_engine.Base.{
  ◌+◌, if◌then◌else◌, ◌≤◌, ◌<◌, ◌≡◌, refl, true, [], ◌∷◌, arith, count, ◌==◌, map,
}
use brenox_engine.Realtime.Hub.{Heap, Hub, new_hub, handle_register, handle_unregister}
use brenox_engine.Realtime.Counts.{HubReach, HubReach-IsCounted, IsCounted, registers, unregisters}
use brenox_engine.Realtime.Signals.{
  Event, Payload, object, int64, deliver, send_to_client, with_from_user, is_call_signal,
  payload_int64,
}
use brenox_engine.Realtime.Routing.{deliver-is_addressed}
use brenox_engine.Realtime.Sequence.{
  next, new_memory_sequencer, int64_modulus, SequenceReach, SequenceReach-next,
}
use brenox_engine.Base.Map.{get, put, remove}
use brenox_engine.RateLimit.Limiter.{new_limiter}
use brenox_engine.RateLimit.Window.{Run, RunReach, starts, asks, ask, is_within, RunReach-bound}

-- Sockets 1 and 2 of user 1, and 3 of user 2, on one channel.
abbrev sockets : Heap
sockets p = record {
  user_id = if p == 3 then 2 else 1;
  channel_id = 5;
  workspace_id = 1;
  remote_ip = "10.0.0.1";
}

abbrev hub0 : Hub
hub0 = new_hub 4 8 true true

abbrev hub1 : Hub
hub1 = (handle_register sockets 1 hub0).0

abbrev hub2 : Hub
hub2 = (handle_register sockets 3 hub1).0

-- Socket 1 comes, 3 comes, and 1 is given up twice.
abbrev hub4 : Hub
hub4 = (handle_unregister sockets 1 (handle_unregister sockets 1 hub2).0).0

two_sockets : HubReach sockets hub0 hub4
unfolding handle_register new_hub
two_sockets =
    HubReach.next
      (HubReach.next
        (HubReach.next (HubReach.next HubReach.here (registers 1 refl)) (registers 3 refl))
        (unregisters 1))
      (unregisters 1)

HubReach-IsCounted_example : IsCounted sockets hub4
HubReach-IsCounted_example = HubReach-IsCounted sockets 4 8 true true two_sockets

abbrev offer : Payload
offer = object (("call_id", int64 1) ∷ ("to_user_id", int64 2) ∷ ("from_user_id", int64 7) ∷ [])

abbrev offer_event : Event
offer_event = record {
  event_type = "call.offer";
  workspace_id = 1;
  channel_id = 5;
  payload = with_from_user offer 1;
}

deliver-is_addressed_example :
    deliver sockets (λ p. true) offer_event hub2
    ≡ map (send_to_client (λ p. true) offer_event) (3 ∷ [])
unfolding handle_register new_hub is_call_signal payload_int64
deliver-is_addressed_example =
    deliver-is_addressed sockets (λ p. true) "call.offer" 1 5 1 offer hub2 refl one
  where
    one : 0 < 1
    one = omega arith

-- Two requests of one key under a limit of 1.
abbrev run0 : Run
run0 = record { limiter = new_limiter 1; clock = 0; passed = λ key. [] }

two_asks : RunReach 1 (ask "k" 20 (ask "k" 10 run0))
two_asks = asks "k" 20 (asks "k" 10 (starts 0) (omega arith)) (omega arith)

RunReach-bound_example :
    count (is_within (new_limiter 1).window 20) ((ask "k" 20 (ask "k" 10 run0)).passed "k")
    ≤ (new_limiter 1).limit
RunReach-bound_example = RunReach-bound 1 two_asks "k" 20

-- The same sockets, with the broker.
two_followed : NodeReach sockets 4 8 true hub2 (
    on_effects
      (handle_register sockets 3 hub1).1
      (on_effects (handle_register sockets 1 hub0).1 (λ t. 0)))
two_followed = NodeReach.registers 3 (NodeReach.registers 1 begins)

NodeReach-IsFollowed_example : IsFollowed hub2 (
    on_effects
      (handle_register sockets 3 hub1).1
      (on_effects (handle_register sockets 1 hub0).1 (λ t. 0)))
NodeReach-IsFollowed_example = NodeReach-IsFollowed sockets 4 8 true two_followed

-- Channels 1, 2 and 1 ask in this order.
three_asks : SequenceReach (1 ∷ 2 ∷ 1 ∷ []) (next 1 (next 2 (next 1 new_memory_sequencer).1).1).1
three_asks = SequenceReach.asks 1 (SequenceReach.asks 2 (SequenceReach.asks 1 SequenceReach.starts))

SequenceReach-next_example :
    (next 1 (next 1 (next 2 (next 1 new_memory_sequencer).1).1).1).0
    ≡ (count (λ c. c == 1) (1 ∷ 2 ∷ 1 ∷ []) + 1) % int64_modulus
SequenceReach-next_example = SequenceReach-next three_asks 1

asked_thrice : (next 1 (next 1 (next 2 (next 1 new_memory_sequencer).1).1).1).0 ≡ 3
unfolding next get put remove
asked_thrice = refl
