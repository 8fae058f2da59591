-- ===== src/Tests/Notifications.antt =====
-- Runs of the notifications.
use brenox_engine.Base.{ℕ, ◌==◌, ◌⊎◌, ◌≡◌, refl, none, some, true, [], ◌∷◌, List, String, map}
use brenox_engine.Base.Monad.{◌>>=◌, pure}
use brenox_engine.Db.{Db, org, attempt, optional, read, raise_if, write, send}
use brenox_engine.Db.Org.{Org, Message, Notification}
use brenox_engine.Db.Triple.{Triple}
use brenox_engine.Notifications.Mentions.{parse_mentions, distinct}
use brenox_engine.Notifications.Service.{
  handle_workspace_invite, handle_message_created, reply_first, notify_reply, notify_mentions,
  mention_each, mention, tell_parent, create, dispatch, deliver, valid_type,
}
use brenox_engine.Notifications.Rows.{IsTold, IsPart}
use brenox_engine.Notifications.Effects.{handle_message_created-IsTold}
use brenox_engine.Notifications.Invites.{Invited, handle_workspace_invite-Invited}
use brenox_engine.Tests.Data.{people, start, finds}

abbrev said : ℕ → ℕ → Message
said id sender = record {
  id = id;
  channel_id = 5;
  sender_id = sender;
  content = "@bob @ada @bob @carol";
  created_at = 0;
}

-- Bob has written message 1, and ada answers with message 2.
abbrev talk : Org
talk = record people { messages = said 2 1 ∷ said 1 2 ∷ []; next_message = 3 }

mentions : parse_mentions finds "text" ≡ "bob" ∷ "ada" ∷ "carol" ∷ []
unfolding parse_mentions distinct
mentions = refl

abbrev told : Db → List (ℕ × String)
told d = map (λ n. (n.user_id, n.type)) d.org.notifications

-- Bob hears of the reply and of the mention, and ada, who wrote it, of nothing.
bob_hears_twice :
    told
      (handle_message_created finds true 1 5 1
        (said 2 1)
        (some 1)
        "ada"
        (record start { org = talk })).1
    ≡ (2, "mention") ∷ (2, "reply") ∷ []
unfolding handle_message_created reply_first notify_reply notify_mentions mention_each mention
    tell_parent create dispatch deliver valid_type parse_mentions distinct ◌>>=◌ attempt optional
    read raise_if write send pure
bob_hears_twice = refl

handle_message_created-IsTold_example :
    Triple org talk
      (handle_message_created finds true 1 5 1 (said 2 1) (some 1) "ada")
      (λ x T'. IsTold finds 1 5 1 (some 1) (parse_mentions finds (said 2 1).content) talk T')
      (λ e T'. IsPart finds 1 5 1 (some 1) (parse_mentions finds (said 2 1).content) talk T')
handle_message_created-IsTold_example =
    handle_message_created-IsTold finds true 1 5 1 (said 2 1) (some 1) "ada" talk

handle_workspace_invite-Invited_example :
    Triple org people
      (handle_workspace_invite true 1 1 2 "w" "ada")
      (λ x T'. ((2 == 1 ≡ true) × (T' ≡ people)) ⊎ Invited 1 1 2 people T')
      (λ e T'. T' ≡ people)
handle_workspace_invite-Invited_example =
    handle_workspace_invite-Invited true 1 1 2 "w" "ada" people

abbrev unread : Notification
unread = record {
  id = 4;
  user_id = 2;
  type = "mention";
  title = "";
  body = "";
  payload = [];
  read_at = none;
  created_at = 0;
}

-- Bob has one unread notification.
abbrev noticed : Org
noticed = record people { notifications = unread ∷ []; next_notification = 5 }
