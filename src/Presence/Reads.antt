-- ===== src/Presence/Reads.antt =====
-- What the store answers, in terms of the connections that are open.
use text.Mathlib.Text.{◌==◌ as str_eq}
use brenox_engine.Base.{
  ℕ, ◌+◌, ◌-◌, ◌≤◌, ◌≡◌, refl, sym, ◌∙◌, inl, inr, Bool, true, false, not, List, Option, none, some,
  ◌==◌, ltb, if◌then◌else◌, Bool-cases, is_some, arith, count,
}
use brenox_engine.Base.Map.{value_or, get}
use brenox_engine.Presence.Store.{
  MemoryUser, MemoryStore, offline, new_user, ensure_user, channels_in, online_in, attached,
  detached, is_empty, connect, disconnect, disconnect_user,
}
use brenox_engine.Presence.Entries.{empty-count, filled-count}
use brenox_engine.Presence.Log.{Connection, of_user, of_channel}
use brenox_engine.Presence.Spec.{Entry, Tracked, PresenceReach}
use brenox_engine.Presence.Closing.{found}
use brenox_engine.Presence.Log.{of_place, count-place, some_channel, count-user}
use brenox_engine.Presence.Store.{
  get_presence, presence_of, to_presence, list_workspace_online_user_ids,
}
use brenox_engine.Base.{select}
use brenox_engine.Base.Map.{keys-get}
use brenox_engine.Presence.Tracking.{PresenceReach-Tracked}

pub record Reads (log : List Connection) (s : MemoryStore) : Type 0 where
  pub totals : (u : ℕ) → (get_presence u s).connection_count ≡ count (of_user u) log
  pub statuses : (u : ℕ) → str_eq (get_presence u s).status offline ≡ (count (of_user u) log == 0)
  pub onset : (now u w c : ℕ) → (connect now u w c s).0.became_online ≡ (count (of_user u) log == 0)
  pub listed :
      (w u : ℕ)
      → is_some (select (λ j. j == u) (list_workspace_online_user_ids w s))
        ≡ ltb 0 (count (of_place u w) log)

get_presence-entry : (u : ℕ) (s : MemoryStore) → get_presence u s ≡ to_presence u (ensure_user u s)
unfolding get_presence ensure_user presence_of to_presence
get_presence-entry u s = at (get u s.users)
  where
    at : (o : Option MemoryUser) → presence_of u o ≡ to_presence u (value_or new_user o)
    at none = refl
    at (some x) = refl

module _ {log : List Connection} {s : MemoryStore} (t : Tracked log s) where
  -- A workspace has a connection of the user exactly while one of its channels has.
  place-filled :
      (w u : ℕ)
      → not (is_empty (channels_in w (ensure_user u s))) ≡ ltb 0 (count (of_place u w) log)
  place-filled w u = at (is_empty (channels_in w (ensure_user u s))) refl
    where
      v : Entry log s u (ensure_user u s)
      v = t.entry u

      at :
          (b : Bool)
          → is_empty (channels_in w (ensure_user u s)) ≡ b
          → not b ≡ ltb 0 (count (of_place u w) log)
      at false e =
          let (c, h) = filled-count (channels_in w (ensure_user u s)) (v.counting w) e in
          let k : 1 ≤ count (of_place u w) log =
            omega (arith, h, v.channel_counts w c, count-place u w c log) in
          ground arith
      at true e = elim (Bool-cases (ltb 0 (count (of_place u w) log))) [
        | inr none_left ↦ rw none_left refl
        | inl left ↦
            let (c, h) = some_channel u w log (ground arith) in
            absurd (
              omega
                (arith, h, v.channel_counts w c, empty-count c (channels_in w (ensure_user u s)) e))
      ]

  status-offline : (u : ℕ) → str_eq (get_presence u s).status offline ≡ (count (of_user u) log == 0)
  unfolding to_presence
  status-offline u = rw (get_presence-entry, sym v.total) (at (x.connection_count == 0) refl)
    where
      x : MemoryUser
      x = ensure_user u s

      v : Entry log s u x
      v = t.entry u

      at :
          (b : Bool)
          → x.connection_count == 0 ≡ b
          → str_eq (if b then offline else x.status) offline ≡ b
      at true e = refl
      at false e = v.awake (ground arith)

-- After any history of the store's methods in which only open connections are closed, what it
-- answers is read off the open connections: Get counts those of the user and says `offline` exactly
-- if there is none, Connect says that the user came online exactly if there was none, and a user is
-- in the list of a workspace exactly if one of the user's connections there is open.
pub PresenceReach-Reads :
    {log : List Connection} {s : MemoryStore} → PresenceReach log s → Reads log s
unfolding list_workspace_online_user_ids to_presence connect attached
PresenceReach-Reads {log} {s} r = record {
  totals = λ u. rw get_presence-entry (to_count u);
  statuses = status-offline t;
  onset = λ now u w c. rw (sym (t.entry u).total) (first (ensure_user u s).connection_count);
  listed = λ w u. keys-get u (online_in w s) ∙ ((t.entry u).places w ∙ place-filled t w u);
}
  where
    t : Tracked log s
    t = PresenceReach-Tracked r

    to_count : (u : ℕ) → (to_presence u (ensure_user u s)).connection_count ≡ count (of_user u) log
    to_count u = (t.entry u).total

    first : (n : ℕ) → n + 1 == 1 ≡ n == 0
    first n = ground arith

-- Disconnect of an open connection says that the user went offline exactly if it was the user's last
-- one, after any history of the store's methods in which only open connections are closed.
pub PresenceReach-became_offline :
    (now u w c : ℕ) {log : List Connection} {s : MemoryStore}
    → PresenceReach log s
    → 1 ≤ count (of_channel u w c) log
    → (disconnect now u w c s).0.became_offline ≡ (count (of_user u) log == 1)
unfolding disconnect_user detached
PresenceReach-became_offline now u w c {log} {s} r h =
    let total : (ensure_user u s).connection_count ≡ count (of_user u) log =
      ((PresenceReach-Tracked r).entry u).total in
    let some_open : 1 ≤ (ensure_user u s).connection_count =
      omega (arith, h, total, count-user u w c log) in
    rw (found now u w c log s some_open, sym total)
      (last (ensure_user u s).connection_count some_open)
  where
    last : (n : ℕ) → 1 ≤ n → n - 1 == 0 ≡ n == 1
    last n h = ground arith
