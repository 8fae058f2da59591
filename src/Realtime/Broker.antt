-- ===== src/Realtime/Broker.antt =====
-- internal/realtime/redis_broker.go: the counts of subscriptions. A topic that is absent from the map
-- `subs` counts 0; `subscribed` is the answer of Redis to a SUBSCRIBE. An error of UNSUBSCRIBE is only
-- logged.
use brenox_engine.Base.{ℕ, ◌+◌, ◌-◌, Bool, true, false, ◌&&◌, List, [], ◌∷◌, ◌==◌, if◌then◌else◌}
use brenox_engine.Realtime.Hub.{
  Effect, ensure_subscribed, maybe_unsubscribe, ensure_user_subscribed, maybe_unsubscribe_user,
  connect, disconnect, close_send,
}

pub data Topic : Type 0 where
  -- workspace, channel
  channel_topic : ℕ → ℕ → Topic
  user_topic : ℕ → Topic

abbrev pub same_topic : Topic → Topic → Bool
same_topic (channel_topic w c) (channel_topic w' c') = w == w' && c == c'
same_topic (user_topic u) (user_topic u') = u == u'
same_topic (channel_topic w c) (user_topic u) = false
same_topic (user_topic u) (channel_topic w c) = false

abbrev pub Subs : Type 0
Subs = Topic → ℕ

abbrev pub count_as : Topic → ℕ → Subs → Subs
count_as topic n subs topic' = if same_topic topic topic' then n else subs topic'

-- Whether SUBSCRIBE answers without an error matters only for the first.
unfoldable pub ensure_topic : Bool → Topic → Subs → Subs
ensure_topic subscribed topic subs =
    if subs topic + 1 == 1
    then (if subscribed then count_as topic 1 subs else count_as topic 0 subs)
    else count_as topic (subs topic + 1) subs

-- The key is deleted when nothing is left; an absent topic stays absent.
unfoldable pub maybe_unsubscribe_topic : Topic → Subs → Subs
maybe_unsubscribe_topic topic subs = count_as topic (subs topic - 1) subs

-- What a call of the hub does to the broker.
unfoldable pub on_effect : Effect → Subs → Subs
on_effect (ensure_subscribed w c) subs = ensure_topic true (channel_topic w c) subs
on_effect (maybe_unsubscribe w c) subs = maybe_unsubscribe_topic (channel_topic w c) subs
on_effect (ensure_user_subscribed u) subs = ensure_topic true (user_topic u) subs
on_effect (maybe_unsubscribe_user u) subs = maybe_unsubscribe_topic (user_topic u) subs
on_effect (connect u w c) subs = subs
on_effect (disconnect u w c) subs = subs
on_effect (close_send p) subs = subs

abbrev pub on_effects : List Effect → Subs → Subs
on_effects [] subs = subs
on_effects (e ∷ es) subs = on_effects es (on_effect e subs)
