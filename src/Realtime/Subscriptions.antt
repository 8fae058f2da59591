-- ===== src/Realtime/Subscriptions.antt =====
-- The hub together with its broker, while Redis answers: a user's topic is subscribed once exactly as
-- long as the user has a socket on this server.
use brenox_engine.Base.{
  ℕ, ◌+◌, ◌-◌, ◌≡◌, refl, ap, ==→eq, ==-refl, ◌∙◌, Bool, true, false, ◌&&◌, List, [], ◌∷◌, ◌++◌,
  ◌==◌, ltb, leb, arith, Bool-cases, inl, inr, if◌then◌else◌,
}
use brenox_engine.Realtime.Hub.{
  Heap, Hub, Effect, ensure_subscribed, maybe_unsubscribe, ensure_user_subscribed,
  maybe_unsubscribe_user, connect, disconnect, close_send, new_hub, handle_register,
  handle_unregister, is_registered, when, bump, lower,
}
use brenox_engine.Realtime.Broker.{
  user_topic, Subs, on_effect, on_effects, ensure_topic, maybe_unsubscribe_topic,
}

-- The hub's loop with the broker's counts.
pub data NodeReach (heap : Heap) (per_user per_ip : ℕ) (presence : Bool) : Hub → Subs → Type 0 where
  begins : NodeReach heap per_user per_ip presence (new_hub per_user per_ip true presence) (λ t. 0)
  registers :
      {h : Hub} {subs : Subs} (p : ℕ)
      → NodeReach heap per_user per_ip presence h subs
      → NodeReach heap per_user per_ip presence
          (handle_register heap p h).0
          (on_effects (handle_register heap p h).1 subs)
  unregisters :
      {h : Hub} {subs : Subs} (p : ℕ)
      → NodeReach heap per_user per_ip presence h subs
      → NodeReach heap per_user per_ip presence
          (handle_unregister heap p h).0
          (on_effects (handle_unregister heap p h).1 subs)

on_effects-append :
    (xs ys : List Effect) (subs : Subs)
    → on_effects (xs ++ ys) subs ≡ on_effects ys (on_effects xs subs)
on_effects-append [] ys subs = refl
on_effects-append (x ∷ xs) ys subs = on_effects-append xs ys (on_effect x subs)

-- Whether the user's topic is subscribed, by the user's counter.
pub record IsFollowed (h : Hub) (subs : Subs) : Type 0 where
  pub broker : h.has_broker ≡ true
  pub topics : (u : ℕ) → subs (user_topic u) ≡ (if ltb 0 (h.user_connections u) then 1 else 0)

module _ (u : ℕ) (subs : Subs) where
  channel_effect :
      (b : Bool) (w c : ℕ)
      → on_effects (when b (ensure_subscribed w c)) subs (user_topic u) ≡ subs (user_topic u)
  unfolding on_effect ensure_topic
  channel_effect true w c = ground arith
  channel_effect false w c = refl

  channel_gone :
      (b : Bool) (w c : ℕ)
      → on_effects (when b (maybe_unsubscribe w c)) subs (user_topic u) ≡ subs (user_topic u)
  unfolding on_effect maybe_unsubscribe_topic
  channel_gone true w c = refl
  channel_gone false w c = refl

  presence_effect : (b : Bool) (x w c : ℕ) → on_effects (when b (connect x w c)) subs ≡ subs
  unfolding on_effect
  presence_effect true x w c = refl
  presence_effect false x w c = refl

  closing_effect :
      (b : Bool) (p x w c : ℕ) → on_effects (close_send p ∷ when b (disconnect x w c)) subs ≡ subs
  unfolding on_effect
  closing_effect true p x w c = refl
  closing_effect false p x w c = refl

  user_effect :
      (b : Bool) (x : ℕ)
      → on_effects (when b (ensure_user_subscribed x)) subs (user_topic u)
        ≡ (if b && (x == u) then subs (user_topic u) + 1 else subs (user_topic u))
  unfolding on_effect ensure_topic
  user_effect true x = elim (Bool-cases (x == u)) [
    | inl same ↦ rw (==→eq x u same, ==-refl u) (ground arith)
    | inr other ↦ rw other (ground arith)
  ]
  user_effect false x = refl

  user_gone :
      (b : Bool) (x : ℕ)
      → on_effects (when b (maybe_unsubscribe_user x)) subs (user_topic u)
        ≡ (if b && (x == u) then subs (user_topic u) - 1 else subs (user_topic u))
  unfolding on_effect maybe_unsubscribe_topic
  user_gone true x = elim (Bool-cases (x == u)) [
    | inl same ↦ rw (==→eq x u same, ==-refl u) refl
    | inr other ↦ rw other refl
  ]
  user_gone false x = refl

module _ (u w c x : ℕ) (subs : Subs) where
  on_register :
      (a b e : Bool)
      → on_effects
          (when a (ensure_subscribed w c)
            ++ when b (ensure_user_subscribed x)
            ++ when e (connect x w c))
          subs
          (user_topic u)
        ≡ (if b && (x == u) then subs (user_topic u) + 1 else subs (user_topic u))
  on_register a b e =
      let two = when a (ensure_subscribed w c) ++ when b (ensure_user_subscribed x) in
      ap (λ (f : Subs). f (user_topic u))
        (on_effects-append two (when e (connect x w c)) subs
          ∙ presence_effect u (on_effects two subs) e x w c
          ∙ on_effects-append (when a (ensure_subscribed w c)) (when b (ensure_user_subscribed x))
              subs)
      ∙ user_effect u (on_effects (when a (ensure_subscribed w c)) subs) b x
      ∙ rw (channel_effect u subs a w c) refl

  on_unregister :
      (p : ℕ) (a b e : Bool)
      → on_effects
          (when a (maybe_unsubscribe w c)
            ++ when b (maybe_unsubscribe_user x)
            ++ close_send p ∷ when e (disconnect x w c))
          subs
          (user_topic u)
        ≡ (if b && (x == u) then subs (user_topic u) - 1 else subs (user_topic u))
  on_unregister p a b e =
      let two = when a (maybe_unsubscribe w c) ++ when b (maybe_unsubscribe_user x) in
      ap (λ (f : Subs). f (user_topic u))
        (on_effects-append two (close_send p ∷ when e (disconnect x w c)) subs
          ∙ closing_effect u (on_effects two subs) e p x w c
          ∙ on_effects-append (when a (maybe_unsubscribe w c)) (when b (maybe_unsubscribe_user x))
              subs)
      ∙ user_gone u (on_effects (when a (maybe_unsubscribe w c)) subs) b x
      ∙ rw (channel_gone u subs a w c) refl

followed_up :
    (f : ℕ → ℕ) (x u n : ℕ)
    → n ≡ (if ltb 0 (f u) then 1 else 0)
    → (if (bump x f x == 1 && true) && (x == u) then n + 1 else n)
      ≡ (if ltb 0 (bump x f u) then 1 else 0)
followed_up f x u n h = elim (Bool-cases (x == u)) [
  | inl same ↦ rw (==→eq x u same, ==-refl u) (ground arith)
  | inr other ↦ rw other (ground arith)
]

followed_down :
    (f : ℕ → ℕ) (x u n : ℕ)
    → n ≡ (if ltb 0 (f u) then 1 else 0)
    → (if (leb (lower x f x) 0 && true) && (x == u) then n - 1 else n)
      ≡ (if ltb 0 (lower x f u) then 1 else 0)
followed_down f x u n h = elim (Bool-cases (x == u)) [
  | inl same ↦ rw (==→eq x u same, ==-refl u) (ground arith)
  | inr other ↦ rw other (ground arith)
]

module _ (heap : Heap) (p : ℕ) (h : Hub) (subs : Subs) (v : IsFollowed h subs) where
  register-IsFollowed :
      IsFollowed (handle_register heap p h).0 (on_effects (handle_register heap p h).1 subs)
  unfolding handle_register
  register-IsFollowed = record {
    broker = v.broker;
    topics = λ u.
        on_register u (heap p).workspace_id (heap p).channel_id (heap p).user_id subs _ _
          h.has_presence
        ∙ rw v.broker
            (followed_up h.user_connections (heap p).user_id u (subs (user_topic u)) (v.topics u));
  }

  unregister-IsFollowed :
      IsFollowed (handle_unregister heap p h).0 (on_effects (handle_unregister heap p h).1 subs)
  unfolding handle_unregister
  unregister-IsFollowed = elim (Bool-cases (is_registered p h.sockets)) [
    | inr out ↦ rw (out, handle_unregister) v
    | inl there ↦
        rw (there, handle_unregister)
          record {
            broker = v.broker;
            topics = λ u.
                on_unregister u (heap p).workspace_id (heap p).channel_id (heap p).user_id subs p _
                  _ h.has_presence
                ∙ rw v.broker (
                    followed_down h.user_connections (heap p).user_id u (subs (user_topic u))
                      (v.topics u));
          }
  ]

-- After any history of a server's hub with its broker, from a new hub and while Redis answers, the
-- broker counts one subscription to a user's topic if the hub's counter says that the user has a
-- socket, and none if not: no subscription is lost or left over.
pub NodeReach-IsFollowed :
    (heap : Heap) (per_user per_ip : ℕ) (presence : Bool) {h : Hub} {subs : Subs}
    → NodeReach heap per_user per_ip presence h subs
    → IsFollowed h subs
unfolding new_hub
NodeReach-IsFollowed heap a b e begins = record { broker = refl; topics = λ u. refl }
NodeReach-IsFollowed heap a b e (registers {h} {subs} p r) =
    register-IsFollowed heap p h subs (NodeReach-IsFollowed heap a b e r)
NodeReach-IsFollowed heap a b e (unregisters {h} {subs} p r) =
    unregister-IsFollowed heap p h subs (NodeReach-IsFollowed heap a b e r)
