-- ===== src/Presence/Spec.antt =====
-- What it means that the store keeps to its specification, and the steps of its methods.
use text.Mathlib.Text.{◌==◌ as str_eq}
use brenox_engine.Base.{
  ℕ, ◌≤◌, ◌≡◌, refl, sym, ◌∙◌, ◌⊎◌, inl, inr, true, false, not, List, [], ◌∷◌, String, ◌==◌, ltb,
  Bool-cases, is_some, arith, ==→eq, count,
}
use brenox_engine.Base.Map.{get}
use brenox_engine.Presence.Store.{
  MemoryUser, MemoryStore, offline, new_memory_store, ensure_user, count_in, channels_in, online_in,
  is_empty, connect, disconnect, touch, set_status,
}
use brenox_engine.Presence.Entries.{IsCounting}
use brenox_engine.Presence.Log.{Connection, of_user, of_channel, close}

-- What the store says of one user agrees with the open connections.
pub record Entry (log : List Connection) (s : MemoryStore) (u : ℕ) (x : MemoryUser) : Type 0 where
  pub total : x.connection_count ≡ count (of_user u) log
  pub channel_counts : (w c : ℕ) → count_in c (channels_in w x) ≡ count (of_channel u w c) log
  pub counting : (w : ℕ) → IsCounting (channels_in w x)
  pub awake : 1 ≤ x.connection_count → str_eq x.status offline ≡ false
  pub global : is_some (get u s.global_online) ≡ ltb 0 x.connection_count
  pub places : (w : ℕ) → is_some (get u (online_in w s)) ≡ not (is_empty (channels_in w x))

pub record Tracked (log : List Connection) (s : MemoryStore) : Type 0 where
  pub entry : (u : ℕ) → Entry log s u (ensure_user u s)

-- A method of the store. A connection is closed only while it is open.
pub data PresenceStep : List Connection → MemoryStore → List Connection → MemoryStore → Type 0 where
  connects :
      {log : List Connection} {s : MemoryStore} (now u w c : ℕ)
      → PresenceStep log s
          ((record { user = u; workspace = w; channel = c }) ∷ log)
          (connect now u w c s).1
  disconnects :
      {log : List Connection} {s : MemoryStore} (now u w c : ℕ)
      → 1 ≤ count (of_channel u w c) log
      → PresenceStep log s (close u w c log) (disconnect now u w c s).1
  touches :
      {log : List Connection} {s : MemoryStore} (now u : ℕ) → PresenceStep log s log (touch now u s)
  sets :
      {log : List Connection} {s : MemoryStore} (now u : ℕ) (status : String)
      → PresenceStep log s log (set_status now u status s).1

pub data PresenceReach : List Connection → MemoryStore → Type 0 where
  here : PresenceReach [] new_memory_store
  next :
      {log log' : List Connection} {s s' : MemoryStore}
      → PresenceReach log s
      → PresenceStep log s log' s'
      → PresenceReach log' s'

pub new_memory_store-Tracked : Tracked [] new_memory_store
unfolding ensure_user count_in channels_in online_in is_empty get
new_memory_store-Tracked = record {
  entry = λ u. record {
    total = refl;
    channel_counts = λ w c. refl;
    counting = λ w. record { run = λ c. refl };
    awake = λ h. absurd (omega (arith, h));
    global = refl;
    places = λ w. refl;
  };
}

-- A new entry for one user, with what the methods leave to the others.
pub record Others (u : ℕ) (log log' : List Connection) (s s' : MemoryStore) : Type 0 where
  pub users : (j : ℕ) → u == j ≡ false → ensure_user j s' ≡ ensure_user j s
  pub counts : (j : ℕ) → u == j ≡ false → count (of_user j) log' ≡ count (of_user j) log
  pub channel_counts :
      (j w c : ℕ) → u == j ≡ false → count (of_channel j w c) log' ≡ count (of_channel j w c) log
  pub global :
      (j : ℕ) → u == j ≡ false → is_some (get j s'.global_online) ≡ is_some (get j s.global_online)
  pub places :
      (j w : ℕ)
      → u == j ≡ false
      → is_some (get j (online_in w s')) ≡ is_some (get j (online_in w s))

module _ {log log' : List Connection} {s s' : MemoryStore} where
  other-Entry :
      (u j : ℕ)
      → Others u log log' s s'
      → u == j ≡ false
      → Tracked log s
      → Entry log' s' j (ensure_user j s')
  other-Entry u j o e t = rw (o.users j e) record {
    total = v.total ∙ sym (o.counts j e);
    channel_counts = λ w c. v.channel_counts w c ∙ sym (o.channel_counts j w c e);
    counting = v.counting;
    awake = v.awake;
    global = o.global j e ∙ v.global;
    places = λ w. o.places j w e ∙ v.places w;
  }
    where
      v : Entry log s j (ensure_user j s)
      v = t.entry j

  pub step-Tracked :
      (u : ℕ)
      → Others u log log' s s'
      → Entry log' s' u (ensure_user u s')
      → Tracked log s
      → Tracked log' s'
  step-Tracked u o v t = record { entry = λ j. at j (Bool-cases (u == j)) }
    where
      at : (j : ℕ) → (u == j ≡ true) ⊎ (u == j ≡ false) → Entry log' s' j (ensure_user j s')
      at j (inl e) = rw (sym (==→eq u j e)) v
      at j (inr e) = other-Entry u j o e t
