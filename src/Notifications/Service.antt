-- ===== src/Notifications/Service.antt =====
-- internal/notifications/service.go, calls.go and types.go. A failure of the push or mail sender is
-- only logged, so a call of one is a signal.
use Prim.Native.String.{◌++◌ as concat}
use text.Mathlib.Text.{◌==◌ as str_eq}
use brenox_engine.Base.{
  ℕ, Bool, true, false, not, ◌||◌, List, [], ◌∷◌, Option, none, some, String, ◌==◌, leb, ltb, map,
  is_some, if◌then◌else◌,
}
use brenox_engine.Base.Monad.{pure, ◌>>=◌, ◌>>◌}
use brenox_engine.Db.{
  NotificationsError, notifications, M, optional, no_rows_is, raise_if, attempt, send,
  NotificationResponse, notification_new, push, email,
}
use brenox_engine.Db.Accounts.{ℤ, pos, negsuc}
use brenox_engine.Db.Org.{WorkspaceMember, Message, Notification}
use brenox_engine.Queries.Notices.{
  create_notification, list_notifications_by_user, mark_notification_read,
  mark_all_notifications_read, get_message_by_id, get_workspace_member_by_username,
}
use brenox_engine.Notifications.Mentions.{MentionLibrary, parse_mentions}

unfoldable pub valid_type : String → Bool
valid_type value =
    str_eq value "mention"
    || (str_eq value "reply"
        || (str_eq value "channel_invite"
            || (str_eq value "workspace_invite" || str_eq value "call_invite")))

-- `payload` is the data, none for a nil map.
pub record CreateInput : Type 0 where
  pub user_id : ℕ
  pub type : String
  pub title : String
  pub body : String
  pub payload : Option (List (String × ℕ))

abbrev pub stored_data : Option (List (String × ℕ)) → List (String × ℕ)
stored_data none = []
stored_data (some d) = d

unfoldable pub to_response : Notification → NotificationResponse
to_response row = record {
  id = row.id;
  type = row.type;
  title = row.title;
  body = row.body;
  payload = row.payload;
  read = is_some row.read_at;
  created_at = row.created_at;
  read_at = row.read_at;
}

unfoldable pub deliver : Bool → Notification → M (Unit {0})
deliver false row = pure tt
deliver true row = send (notification_new row.user_id (to_response row))

-- `has_realtime` says if the service's deliverer is not nil.
unfoldable pub dispatch : Bool → Notification → M (Unit {0})
dispatch has_realtime row = do
  deliver has_realtime row
  send (push row.user_id row.title row.body (to_response row).payload)
  send (email row.user_id row.title row.body)

unfoldable pub create : Bool → CreateInput → M Notification
create has_realtime input = do
  raise_if (not (valid_type input.type)) (notifications NotificationsError.invalid_type)
  row ←
      create_notification input.user_id input.type input.title input.body
        (stored_data input.payload)
  dispatch has_realtime row
  pure row

unfoldable pub list_limit : ℤ → ℕ
list_limit (negsuc n) = 50
list_limit (pos n) = if leb n 0 then 50 else if ltb 100 n then 100 else n

unfoldable pub list_offset : ℤ → ℕ
list_offset (negsuc n) = 0
list_offset (pos n) = n

unfoldable pub list_notifications : ℕ → ℤ → ℤ → M (List NotificationResponse)
list_notifications user limit offset = do
  rows ← list_notifications_by_user user (list_limit limit) (list_offset offset)
  pure (map to_response rows)

unfoldable pub mark_read : ℕ → ℕ → M NotificationResponse
mark_read user notification = do
  row ←
      no_rows_is (notifications NotificationsError.not_found)
        (mark_notification_read user notification)
  pure (to_response row)

unfoldable pub mark_all_read : ℕ → M ℕ
mark_all_read user = mark_all_notifications_read user

abbrev pub mention_input : ℕ → ℕ → ℕ → Message → String → ℕ → CreateInput
mention_input workspace channel sender m sender_name user = record {
  user_id = user;
  type = "mention";
  title = "You were mentioned";
  body = concat sender_name " mentioned you in a message";
  payload = some (
      ("workspace_id", workspace)
      ∷ ("channel_id", channel)
      ∷ ("message_id", m.id)
      ∷ ("sender_id", sender)
      ∷ []);
}

-- One round of the loop over the names, on the member that was found.
unfoldable pub mention : Bool → ℕ → ℕ → ℕ → Message → String → Option WorkspaceMember → M (Unit {0})
mention rt workspace channel sender m sender_name none = pure tt
mention rt workspace channel sender m sender_name (some x) =
    if x.user_id == sender
    then pure tt
    else create rt (mention_input workspace channel sender m sender_name x.user_id) >>= λ _. pure tt

unfoldable pub mention_each :
    MentionLibrary → Bool → ℕ → ℕ → ℕ → Message → String → List String → M (Unit {0})
mention_each lib rt workspace channel sender m sender_name [] = pure tt
mention_each lib rt workspace channel sender m sender_name (name ∷ names) =
    optional (get_workspace_member_by_username lib.lower workspace name) >>= λ found.
    mention rt workspace channel sender m sender_name found >>= λ _.
    mention_each lib rt workspace channel sender m sender_name names

unfoldable pub notify_mentions : MentionLibrary → Bool → ℕ → ℕ → ℕ → Message → String → M (Unit {0})
notify_mentions lib rt workspace channel sender m sender_name =
    mention_each lib rt workspace channel sender m sender_name (parse_mentions lib m.content)

abbrev pub reply_input : ℕ → ℕ → ℕ → Message → ℕ → String → ℕ → CreateInput
reply_input workspace channel sender m reply sender_name user = record {
  user_id = user;
  type = "reply";
  title = "New reply";
  body = concat sender_name " replied to your message";
  payload = some (
      ("workspace_id", workspace)
      ∷ ("channel_id", channel)
      ∷ ("message_id", m.id)
      ∷ ("reply_to_message_id", reply)
      ∷ ("sender_id", sender)
      ∷ []);
}

-- On the parent message, if there is one.
unfoldable pub tell_parent : Bool → ℕ → ℕ → ℕ → Message → ℕ → String → Option Message → M (Unit {0})
tell_parent rt workspace channel sender m reply sender_name none = pure tt
tell_parent rt workspace channel sender m reply sender_name (some parent) =
    if not (parent.channel_id == channel) || parent.sender_id == sender
    then pure tt
    else create rt (reply_input workspace channel sender m reply sender_name parent.sender_id)
      >>= λ _. pure tt

unfoldable pub notify_reply : Bool → ℕ → ℕ → ℕ → Message → ℕ → String → M (Unit {0})
notify_reply rt workspace channel sender m reply sender_name =
    optional (get_message_by_id reply) >>= λ parent.
    tell_parent rt workspace channel sender m reply sender_name parent

-- An error of the reply is only logged.
unfoldable pub reply_first : Bool → ℕ → ℕ → ℕ → Message → Option ℕ → String → M (Option (Unit {0}))
reply_first rt workspace channel sender m none sender_name = pure none
reply_first rt workspace channel sender m (some reply) sender_name =
    attempt (notify_reply rt workspace channel sender m reply sender_name)

unfoldable pub handle_message_created :
    MentionLibrary → Bool → ℕ → ℕ → ℕ → Message → Option ℕ → String → M (Unit {0})
handle_message_created lib rt workspace channel sender m reply sender_name = do
  reply_first rt workspace channel sender m reply sender_name
  notify_mentions lib rt workspace channel sender m sender_name

unfoldable pub handle_workspace_invite : Bool → ℕ → ℕ → ℕ → String → String → M (Unit {0})
handle_workspace_invite rt workspace actor target workspace_name actor_name =
    if target == actor
    then pure tt
    else create rt (record {
      user_id = target;
      type = "workspace_invite";
      title = "Workspace invitation";
      body = concat actor_name (concat " added you to " workspace_name);
      payload = some (("workspace_id", workspace) ∷ ("actor_id", actor) ∷ []);
    })
      >>= λ _. pure tt

unfoldable pub notify_call_invite : Bool → ℕ → ℕ → ℕ → ℕ → ℕ → String → M (Unit {0})
notify_call_invite rt workspace channel call initiator target initiator_name =
    create rt (record {
      user_id = target;
      type = "call_invite";
      title = "Incoming voice call";
      body = concat initiator_name " started a voice call";
      payload = some (
          ("workspace_id", workspace)
          ∷ ("channel_id", channel)
          ∷ ("call_id", call)
          ∷ ("initiator_id", initiator)
          ∷ []);
    })
    >>= λ _. pure tt
