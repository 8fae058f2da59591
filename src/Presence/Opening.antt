-- ===== src/Presence/Opening.antt =====
-- A connection that opens.
use text.Mathlib.Text.{◌==◌ as str_eq}
use brenox_engine.Base.{
  ℕ, ◌+◌, ◌≡◌, refl, inl, inr, Bool, true, false, ◌||◌, List, [], ◌∷◌, String, ◌==◌, ltb,
  if◌then◌else◌, Bool-cases, is_some, arith, ==→eq, ==-refl, count,
}
use brenox_engine.Base.Map.{get, put, get-put, value-put}
use brenox_engine.Presence.Store.{
  MemoryUser, MemoryStore, offline, online, ensure_user, count_in, channels_in, online_in, attached,
  is_empty, connect, mark_workspace_online,
}
use brenox_engine.Presence.Entries.{count_in-put, put-IsCounting, channels_in-attached}
use brenox_engine.Presence.Log.{Connection, of_channel}
use brenox_engine.Presence.Spec.{Entry, Tracked, Others, step-Tracked}

module _ (now u w c : ℕ) (log : List Connection) (s : MemoryStore) where
  connect-entry : ensure_user u (connect now u w c s).1 ≡ attached now w c (ensure_user u s)
  unfolding ensure_user connect
  connect-entry = rw (value-put, ==-refl u) refl

  connect-online_in :
      (v : ℕ)
      → online_in v (connect now u w c s).1
        ≡ (if w == v then put u tt (online_in w s) else online_in v s)
  unfolding online_in connect mark_workspace_online
  connect-online_in v = value-put [] v w _ s.ws_online

  abbrev opened : List Connection
  opened = (record { user = u; workspace = w; channel = c }) ∷ log

  connect-Others : Others u log opened s (connect now u w c s).1
  unfolding connect ensure_user
  connect-Others = record {
    users = λ j e. rw (value-put, e) refl;
    counts = λ j e. rw e (omega arith);
    channel_counts = λ j v k e. rw e (omega arith);
    global = λ j e. global_kept j e (attached now w c (ensure_user u s)).connection_count;
    places = λ j v e. rw (connect-online_in v) (elim (Bool-cases (w == v)) [
      | inl same ↦ rw (same, get-put, e, ==→eq w v same) refl
      | inr other ↦ rw other refl
    ]);
  }
    where
      global_kept :
          (j : ℕ)
          → u == j ≡ false
          → (n : ℕ)
          → is_some (get j (if n == 1 then put u tt s.global_online else s.global_online))
            ≡ is_some (get j s.global_online)
      global_kept j e n = elim (Bool-cases (n == 1)) [
        | inl first ↦ rw (first, get-put, e) refl
        | inr later ↦ rw later refl
      ]

  connect-Entry :
      Entry log s u (ensure_user u s)
      → Entry opened (connect now u w c s).1 u (attached now w c (ensure_user u s))
  unfolding attached connect is_empty put
  connect-Entry t = record {
    total = rw (==-refl u) (omega (arith, t.total));
    channel_counts = λ v k.
        rw (channels_in-attached now w c v (ensure_user u s), ==-refl u)
          (elim (Bool-cases (w == v)) [
            | inl same ↦
                rw (same, count_in-put)
                  (elim (Bool-cases (c == k)) [
                    | inl hit ↦ rw hit (
                        let before : count_in k (channels_in v (ensure_user u s))
                            ≡ count (of_channel u v k) log =
                          t.channel_counts v k in
                        rw (==→eq w v same, ==→eq c k hit) (omega (arith, before)))
                    | inr miss ↦ rw miss (rw (==→eq w v same) (omega (arith, t.channel_counts v k)))
                  ])
            | inr other ↦ rw other (omega (arith, t.channel_counts v k))
          ]);
    counting = λ v.
        rw (channels_in-attached now w c v (ensure_user u s)) (elim (Bool-cases (w == v)) [
          | inl same ↦ rw same (put-IsCounting c _ _ (t.counting w))
          | inr other ↦ rw other (t.counting v)
        ]);
    awake = λ h. woken;
    global = joined;
    places = λ v.
        rw (connect-online_in v, channels_in-attached now w c v (ensure_user u s))
          (elim (Bool-cases (w == v)) [
            | inl same ↦ rw (same, get-put, ==-refl u) refl
            | inr other ↦ rw other (t.places v)
          ]);
  }
    where
      woken : str_eq (attached now w c (ensure_user u s)).status offline ≡ false
      woken = at (str_eq x.status "") (str_eq x.status offline) x.status refl
        where
          x : MemoryUser
          x = ensure_user u s

          at :
              (a b : Bool) (t : String)
              → str_eq t offline ≡ b
              → str_eq (if a || b then online else t) offline ≡ false
          at true b t e = refl
          at false true t e = refl
          at false false t e = e

      joined :
          is_some (get u (connect now u w c s).1.global_online)
          ≡ ltb 0 (attached now w c (ensure_user u s)).connection_count
      joined = elim (Bool-cases ((ensure_user u s).connection_count + 1 == 1)) [
        | inl first ↦ rw (first, get-put, ==-refl u) (ground arith)
        | inr later ↦ rw (later, t.global) (ground (arith, later))
      ]

  pub connect-Tracked : Tracked log s → Tracked opened (connect now u w c s).1
  connect-Tracked t = step-Tracked u connect-Others (rw connect-entry (connect-Entry (t.entry u))) t
