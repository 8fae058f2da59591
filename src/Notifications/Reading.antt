-- ===== src/Notifications/Reading.antt =====
-- Marking a notification as read, whichever queries fail.
use brenox_engine.Base.{ℕ, ◌≡◌, ◌⊎◌, true, none, some, select, update}
use brenox_engine.Db.{
  Error, database_failed, notifications, NotificationsError, NotificationResponse,
}
use brenox_engine.Db.Org.{Notification, Org}
use brenox_engine.Db.Triple.{Triple}
use brenox_engine.Queries.Notices.{is_unread_one, read_at_time}
use brenox_engine.Notifications.Service.{to_response}

-- The user's unread notification with that id becomes a read one, which is answered, and is not found
-- unread again.
pub record Marked (user id : ℕ) (T : Org) (r : NotificationResponse) (T' : Org) : Type 0 where
  pub row : Notification
  pub now : ℕ
  pub found : select (is_unread_one user id) T.notifications ≡ some row
  pub answer : (r ≡ to_response (read_at_time now row)) × (r.id ≡ id) × (r.read ≡ true)
  pub tables : T' ≡ record T {
    notifications = update (is_unread_one user id) (read_at_time now) T.notifications;
  }
  pub again : select (is_unread_one user id) T'.notifications ≡ none

-- Nothing changes; and the notification is reported missing only if the user has no unread one with
-- that id.
pub record Unmarked (user id : ℕ) (T : Org) (e : Error) (T' : Org) : Type 0 where
  pub tables : T' ≡ T
  pub cause :
      (e ≡ database_failed)
      ⊎ ((e ≡ notifications NotificationsError.not_found)
          × (select (is_unread_one user id) T.notifications ≡ none))
