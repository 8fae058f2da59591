-- ===== src/Db/Signals.antt =====
-- Calls that a service makes of the interfaces it is given (Broadcaster, MessageBroadcaster,
-- RealtimeDeliverer, PushSender, EmailSender), with their arguments. None of these writes a table.
use brenox_engine.Base.{ℕ, String, Option, List, Bool}
use brenox_engine.Db.Rooms.{Status, Mode}
use brenox_engine.Db.Org.{Message}

pub data EventType : Type 0 where
  call_join call_leave call_end : EventType

-- The payload of a call event (calls.Service.publish).
pub record CallEvent : Type 0 where
  pub event_type : EventType
  pub workspace_id : ℕ
  pub channel_id : ℕ
  pub call_id : ℕ
  pub user_id : ℕ
  pub status : Status
  pub mode : Mode

-- notifications.NotificationResponse, which is also the payload of notification.new. The times are not
-- formatted; `payload` is its field data.
pub record NotificationResponse : Type 0 where
  pub id : ℕ
  pub type : String
  pub title : String
  pub body : String
  pub payload : List (String × ℕ)
  pub read : Bool
  pub created_at : ℕ
  pub read_at : Option ℕ

pub data Signal : Type 0 where
  call_event : CallEvent → Signal
  -- workspace, channel, message
  message_new : ℕ → ℕ → Message → Signal
  -- user, payload
  notification_new : ℕ → NotificationResponse → Signal
  -- user, title, body, data
  push : ℕ → String → String → List (String × ℕ) → Signal
  -- user, subject, body
  email : ℕ → String → String → Signal
