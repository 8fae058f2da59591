-- ===== src/Tests/Presence.antt =====
-- Runs of the presence store.
use brenox_engine.Base.{◌≡◌, true, [], ◌∷◌, arith}
use brenox_engine.Presence.Store.{MemoryStore, new_memory_store, connect, disconnect, set_status}
use brenox_engine.Presence.Log.{Connection, close}
use brenox_engine.Presence.Spec.{Tracked, PresenceReach, connects, disconnects, sets}
use brenox_engine.Presence.Tracking.{PresenceReach-Tracked}
use brenox_engine.Base.Monad.{ok}
use brenox_engine.Presence.Service.{list_workspace_presence}
use brenox_engine.Presence.Listing.{answer_lists, PresenceReach-answer_lists}
use brenox_engine.Presence.Reads.{Reads, PresenceReach-Reads, PresenceReach-became_offline}

-- User 7 opens two connections to one channel, wants to be offline, and closes one.
abbrev seven : Connection
seven = record { user = 7; workspace = 1; channel = 5 }

abbrev store : MemoryStore
store =
    (disconnect 4 7 1 5
      (set_status 3 7 "offline" (connect 2 7 1 5 (connect 1 7 1 5 new_memory_store).1).1).1).1

store-reached : PresenceReach (close 7 1 5 (seven ∷ seven ∷ [])) store
store-reached =
    PresenceReach.next
      (PresenceReach.next
        (PresenceReach.next (PresenceReach.next PresenceReach.here (connects 1 7 1 5))
          (connects 2 7 1 5))
        (sets 3 7 "offline"))
      (disconnects 4 7 1 5 (omega arith))

PresenceReach-Tracked_example : Tracked (seven ∷ []) store
PresenceReach-Tracked_example = PresenceReach-Tracked store-reached

PresenceReach-Reads_example : Reads (seven ∷ []) store
PresenceReach-Reads_example = PresenceReach-Reads store-reached

PresenceReach-became_offline_example : (disconnect 5 7 1 5 store).0.became_offline ≡ true
PresenceReach-became_offline_example =
    PresenceReach-became_offline 5 7 1 5 store-reached (omega arith)

PresenceReach-answer_lists_example :
    answer_lists 7 (list_workspace_presence (ok true) 1 store) ≡ true
PresenceReach-answer_lists_example = PresenceReach-answer_lists (ok true) 1 7 store-reached
