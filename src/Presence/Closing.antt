-- ===== src/Presence/Closing.antt =====
-- A connection that closes.
use text.Mathlib.Text.{◌==◌ as str_eq}
use brenox_engine.Base.{
  ℕ, ◌-◌, ◌≤◌, ◌≡◌, refl, sym, inl, inr, Bool, true, false, not, List, [], Option, none, some, ◌==◌,
  if◌then◌else◌, Bool-cases, is_some, arith, ==→eq, ==-refl, count,
}
use brenox_engine.Base.Map.{Map, value_or, get, remove, get-remove, value-put}
use brenox_engine.Presence.Store.{
  MemoryUser, MemoryStore, offline, new_user, ensure_user, channels_in, online_in, detached,
  is_empty, disconnect, disconnect_user, unmark_workspace_online, unmark, lowered,
}
use brenox_engine.Presence.Entries.{
  count_in-lowered, lowered-IsCounting, empty-count, channels_in-detached,
}
use brenox_engine.Presence.Log.{
  Connection, of_channel, close, count-user, count-close-user, count-close-channel,
}
use brenox_engine.Presence.Spec.{Entry, Tracked, Others, step-Tracked}

-- The set of a workspace after the user may have been taken from it.
unmark-online_in :
    (v w u : ℕ) (ws : Map (Map (Unit {0})))
    → value_or [] (get v (unmark w u (get w ws) ws))
      ≡ (if w == v then remove u (value_or [] (get w ws)) else value_or [] (get v ws))
unfolding unmark remove
unmark-online_in v w u ws = at (get w ws) refl
  where
    at :
        (o : Option (Map (Unit {0})))
        → get w ws ≡ o
        → value_or [] (get v (unmark w u o ws))
          ≡ (if w == v then remove u (value_or [] o) else value_or [] (get v ws))
    at none e = elim (Bool-cases (w == v)) [
      | inl same ↦ rw same (sym (missing same))
      | inr other ↦ rw other refl
    ]
      where
        missing : w == v ≡ true → [] ≡ value_or [] (get v ws)
        missing same = rw (sym (==→eq w v same), e) refl
    at (some users) e = value-put [] v w (remove u users) ws

module _ (now u w c : ℕ) (log : List Connection) (s : MemoryStore) where
  abbrev before : MemoryUser
  before = ensure_user u s

  abbrev user : MemoryUser
  user = detached now w c before

  abbrev after : MemoryStore
  after = (disconnect_user now u w c (some before) s).1

  close-entry : ensure_user u after ≡ user
  unfolding ensure_user disconnect_user
  close-entry = rw (value-put, ==-refl u) refl

  close-online_in :
      (v : ℕ)
      → online_in v after ≡ (
          if not (is_empty (channels_in w user))
          then online_in v s
          else if w == v
          then remove u (online_in w s)
          else online_in v s)
  unfolding online_in disconnect_user unmark_workspace_online
  close-online_in v = elim (Bool-cases (is_empty (channels_in w user))) [
    | inl e ↦ rw e (unmark-online_in v w u s.ws_online)
    | inr e ↦ rw e refl
  ]

  pub found :
      1 ≤ before.connection_count
      → disconnect now u w c s ≡ disconnect_user now u w c (some before) s
  unfolding disconnect ensure_user
  found h = at (get u s.users) refl
    where
      at :
          (o : Option MemoryUser)
          → get u s.users ≡ o
          → disconnect_user now u w c (get u s.users) s
            ≡ disconnect_user now u w c (some (value_or new_user (get u s.users))) s
      at none e = absurd (let k : 1 ≤ 0 = rw e at h in omega (arith, k))
      at (some x) e = rw e refl

  close-Others : 1 ≤ count (of_channel u w c) log → Others u log (close u w c log) s after
  unfolding disconnect_user ensure_user
  close-Others h = record {
    users = λ j e. rw (value-put, e) refl;
    counts = λ j e. rw (count-close-user u w c j log h, e) refl;
    channel_counts = λ j v k e. rw (count-close-channel u w c j v k log h, e) refl;
    global = λ j e. kept j e (user.connection_count == 0);
    places = λ j v e. rw (close-online_in v) (elim (Bool-cases (is_empty (channels_in w user))) [
      | inr some_left ↦ rw some_left refl
      | inl none_left ↦ rw none_left (elim (Bool-cases (w == v)) [
        | inl same ↦ rw (same, get-remove, e, ==→eq w v same) refl
        | inr other ↦ rw other refl
      ])
    ]);
  }
    where
      kept :
          (j : ℕ)
          → u == j ≡ false
          → (b : Bool)
          → is_some (get j (if b then remove u s.global_online else s.global_online))
            ≡ is_some (get j s.global_online)
      kept j e true = rw (get-remove, e) refl
      kept j e false = refl

  close-Entry :
      1 ≤ count (of_channel u w c) log → Entry log s u before → Entry (close u w c log) after u user
  unfolding detached disconnect_user
  close-Entry h t = record {
    total = rw (count-close-user u w c u log h, ==-refl u) (omega (arith, t.total));
    channel_counts = λ v k.
        rw (channels_in-detached, count-close-channel u w c u v k log h, ==-refl u)
          (elim (Bool-cases (w == v)) [
            | inl same ↦
                rw (same, count_in-lowered, ==→eq w v same)
                  (elim (Bool-cases (c == k)) [
                    | inl hit ↦ rw hit (omega (arith, t.channel_counts v k))
                    | inr miss ↦ rw miss (t.channel_counts v k)
                  ])
            | inr other ↦ rw other (t.channel_counts v k)
          ]);
    counting = λ v. rw channels_in-detached (elim (Bool-cases (w == v)) [
      | inl same ↦ rw same (lowered-IsCounting c _ (t.counting w))
      | inr other ↦ rw other (t.counting v)
    ]);
    awake = λ k. still k (before.connection_count - 1 == 0) refl;
    global = elim (Bool-cases (before.connection_count - 1 == 0)) [
      | inl last ↦ rw (last, get-remove, ==-refl u) (ground (arith, last))
      | inr more ↦ rw (more, t.global) (ground (arith, more))
    ];
    places = λ v. rw (close-online_in v) (
        rw (channels_in-detached now w c v before) (elim (Bool-cases (w == v)) [
          | inl same ↦ rw same (here (is_empty (channels_in w user)) (emptied) (==→eq w v same))
          | inr other ↦ rw other (elsewhere v (is_empty (channels_in w user)))
        ]));
  }
    where
      still :
          1 ≤ before.connection_count - 1
          → (b : Bool) → before.connection_count - 1 == 0 ≡ b
          → str_eq (if b then offline else before.status) offline ≡ false
      still k true e = absurd (ground arith)
      still k false e = t.awake (omega (arith, k))

      emptied : is_empty (lowered c (channels_in w before)) ≡ is_empty (channels_in w user)
      emptied = rw (channels_in-detached now w c w before, ==-refl w) refl

      elsewhere :
          (v : ℕ) (b : Bool)
          → is_some (get u (if not b then online_in v s else online_in v s))
            ≡ not (is_empty (channels_in v before))
      elsewhere v true = t.places v
      elsewhere v false = t.places v

      filled : is_empty (channels_in w before) ≡ false
      filled = elim (Bool-cases (is_empty (channels_in w before))) [
        | inr e ↦ e
        | inl e ↦ absurd (omega (arith, h, t.channel_counts w c, empty-count c _ e))
      ]

      here :
          {v : ℕ} (b : Bool)
          → is_empty (lowered c (channels_in w before)) ≡ b
          → w ≡ v
          → is_some (get u (if not b then online_in v s else remove u (online_in w s)))
            ≡ not (is_empty (lowered c (channels_in w before)))
      here true e same = rw (e, get-remove, ==-refl u) refl
      here false e same = rw (e, sym same, t.places w, filled) refl

  pub disconnect-Tracked :
      1 ≤ count (of_channel u w c) log
      → Tracked log s
      → Tracked (close u w c log) (disconnect now u w c s).1
  disconnect-Tracked h t =
      rw (found present)
        (step-Tracked u (close-Others h) (rw close-entry (close-Entry h (t.entry u))) t)
    where
      present : 1 ≤ before.connection_count
      present = omega (arith, h, (t.entry u).total, count-user u w c log)
