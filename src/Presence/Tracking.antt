-- ===== src/Presence/Tracking.antt =====
-- The store keeps to its specification, over a history of its methods.
use text.Mathlib.Text.{◌==◌ as str_eq}
use brenox_engine.Base.{
  ℕ, ◌≤◌, ◌≡◌, refl, ◌∙◌, inl, inr, Bool, true, false, ◌&&◌, List, Option, none, some, String, ltb,
  if◌then◌else◌, Bool-cases, arith, ==-refl,
}
use brenox_engine.Base.Map.{get, put, value-put}
use brenox_engine.Presence.Store.{
  MemoryUser, MemoryStore, offline, away, ensure_user, channels_in, online_in, touch, touch_user,
  set_status, effective_status,
}
use brenox_engine.Presence.Log.{Connection}
use brenox_engine.Presence.Spec.{
  Entry, Tracked, Others, step-Tracked, PresenceReach, here, next, connects, disconnects, touches,
  sets, new_memory_store-Tracked,
}
use brenox_engine.Presence.Opening.{connect-Tracked}
use brenox_engine.Presence.Closing.{disconnect-Tracked}

module _ (u : ℕ) (log : List Connection) (s : MemoryStore) (y : MemoryUser) where
  abbrev rewritten : MemoryStore
  rewritten = record s { users = put u y s.users }

  rewritten-Others : Others u log log s rewritten
  unfolding ensure_user online_in
  rewritten-Others = record {
    users = λ j e. rw (value-put, e) refl;
    counts = λ j e. refl;
    channel_counts = λ j v k e. refl;
    global = λ j e. refl;
    places = λ j v e. refl;
  }

  rewritten-entry : ensure_user u rewritten ≡ y
  unfolding ensure_user
  rewritten-entry = rw (value-put, ==-refl u) refl

  -- A new status or time, under which a user who is connected is not offline.
  rewritten-Tracked :
      y.connection_count ≡ (ensure_user u s).connection_count
      → y.channels ≡ (ensure_user u s).channels
      → (1 ≤ y.connection_count → str_eq y.status offline ≡ false)
      → Tracked log s
      → Tracked log rewritten
  unfolding online_in channels_in
  rewritten-Tracked same_count same_channels awake t =
      step-Tracked u rewritten-Others
        (rw rewritten-entry (record {
          total = same_count ∙ v.total;
          channel_counts = λ w c. rw (channels_eq w) (v.channel_counts w c);
          counting = λ w. rw (channels_eq w) (v.counting w);
          awake = awake;
          global = rw same_count v.global;
          places = λ w. rw (channels_eq w) (v.places w);
        }))
        t
    where
      v : Entry log s u (ensure_user u s)
      v = t.entry u

      channels_eq : (w : ℕ) → channels_in w y ≡ channels_in w (ensure_user u s)
      channels_eq w = rw same_channels refl

module _ (now u : ℕ) (log : List Connection) (s : MemoryStore) where
  touch-Tracked : Tracked log s → Tracked log (touch now u s)
  unfolding touch touch_user ensure_user
  touch-Tracked t = at (get u s.users) refl
    where
      at : (o : Option MemoryUser) → get u s.users ≡ o → Tracked log (touch_user now u o s)
      at none e = t
      at (some x) e =
          rewritten-Tracked u log s (record x { last_seen = now }) (rw e refl) (rw e refl)
            (rw e at (t.entry u).awake) t

  set_status-Tracked : (status : String) → Tracked log s → Tracked log (set_status now u status s).1
  unfolding set_status effective_status
  set_status-Tracked status t =
      rewritten-Tracked u log s _ refl refl (kept (str_eq status offline) refl) t
    where
      connected :
          1 ≤ (ensure_user u s).connection_count → ltb 0 (ensure_user u s).connection_count ≡ true
      connected h = ground arith

      kept :
          (b : Bool)
          → str_eq status offline ≡ b
          → 1 ≤ (ensure_user u s).connection_count
          → str_eq (if ltb 0 (ensure_user u s).connection_count && b then away else status) offline
            ≡ false
      kept true e h = rw (connected h) refl
      kept false e h = elim (Bool-cases (ltb 0 (ensure_user u s).connection_count)) [
        | inl c ↦ rw c e
        | inr c ↦ rw c e
      ]

-- After any history of the store's methods in which only open connections are closed, the store
-- agrees with the list of open connections: for each user, the number of connections, the count of
-- each channel, which exists exactly while it is positive, the membership in the global set and in
-- the set of each workspace; and a user with a connection is not marked offline.
pub PresenceReach-Tracked :
    {log : List Connection} {s : MemoryStore} → PresenceReach log s → Tracked log s
PresenceReach-Tracked here = new_memory_store-Tracked
PresenceReach-Tracked (next {log} {s = s} r (connects now u w c)) =
    connect-Tracked now u w c log s (PresenceReach-Tracked r)
PresenceReach-Tracked (next {log} {s = s} r (disconnects now u w c h)) =
    disconnect-Tracked now u w c log s h (PresenceReach-Tracked r)
PresenceReach-Tracked (next {log} {s = s} r (touches now u)) =
    touch-Tracked now u log s (PresenceReach-Tracked r)
PresenceReach-Tracked (next {log} {s = s} r (sets now u status)) =
    set_status-Tracked now u log s status (PresenceReach-Tracked r)
