-- ===== src/Queries/Notices.antt =====
-- internal/db/notifications.sql.go, and the queries of messages.sql.go and workspaces.sql.go that
-- the notifications use.
use text.Mathlib.Text.{◌==◌ as str_eq}
use brenox_engine.Base.{
  ℕ, ◌+◌, Bool, false, not, ◌&&◌, List, ◌∷◌, Option, none, some, String, ◌==◌, is_some, leb, select,
  select_all, update, take, drop, sort_by, length,
}
use brenox_engine.Base.Monad.{Result, ok, err}
use brenox_engine.Db.{Error, no_rows, M, org, read, read_all, write}
use brenox_engine.Db.Org.{User, WorkspaceMember, Message, Notification, Org}
use brenox_engine.Queries.Org.{find_user}

abbrev pub new_notification :
    ℕ → String → String → String → List (String × ℕ) → ℕ → Org → Notification
new_notification user type title body payload now o = record {
  id = o.next_notification;
  user_id = user;
  type = type;
  title = title;
  body = body;
  payload = payload;
  read_at = none;
  created_at = now;
}

abbrev pub insert_notification :
    ℕ → String → String → String → List (String × ℕ) → ℕ → Org → Result Error Notification × Org
insert_notification user type title body payload now o =
    let n = new_notification user type title body payload now o in
    (
      ok n,
      record o { notifications = n ∷ o.notifications; next_notification = o.next_notification + 1 },
    )

abbrev pub create_notification : ℕ → String → String → String → List (String × ℕ) → M Notification
create_notification user type title body payload =
    write org (insert_notification user type title body payload)

abbrev pub user_notifications : ℕ → ℕ → ℕ → Org → List Notification
user_notifications user limit offset o = take limit (
    drop offset (
      sort_by (λ x y. leb y.created_at x.created_at)
        (select_all (λ n. n.user_id == user) o.notifications)))

-- ORDER BY created_at DESC
abbrev pub list_notifications_by_user : ℕ → ℕ → ℕ → M (List Notification)
list_notifications_by_user user limit offset = read_all org (user_notifications user limit offset)

-- WHERE user_id = $1 AND read_at IS NULL
abbrev pub is_unread : ℕ → Notification → Bool
is_unread user n = n.user_id == user && not (is_some n.read_at)

-- WHERE id = $1 AND user_id = $2 AND read_at IS NULL
abbrev pub is_unread_one : ℕ → ℕ → Notification → Bool
is_unread_one user id n = n.id == id && is_unread user n

abbrev pub read_at_time : ℕ → Notification → Notification
read_at_time now n = record n { read_at = some now }

abbrev pub set_read : ℕ → ℕ → ℕ → Org → Result Error Notification × Org
set_read user id now o = elim (select (is_unread_one user id) o.notifications) [
  | none ↦ (err no_rows, o)
  | some n ↦ (
    ok (read_at_time now n),
    record o { notifications = update (is_unread_one user id) (read_at_time now) o.notifications },
  )
]

abbrev pub mark_notification_read : ℕ → ℕ → M Notification
mark_notification_read user id = write org (set_read user id)

abbrev pub set_all_read : ℕ → ℕ → Org → Result Error ℕ × Org
set_all_read user now o = (
  ok (length (select_all (is_unread user) o.notifications)),
  record o { notifications = update (is_unread user) (read_at_time now) o.notifications },
)

-- The number of rows that were changed.
abbrev pub mark_all_notifications_read : ℕ → M ℕ
mark_all_notifications_read user = write org (set_all_read user)

abbrev pub find_message : ℕ → Org → Option Message
find_message id o = select (λ m. m.id == id) o.messages

abbrev pub get_message_by_id : ℕ → M Message
get_message_by_id id = read org (find_message id)

abbrev pub is_named : (String → String) → String → Option User → Bool
is_named lower name none = false
is_named lower name (some u) = str_eq (lower u.username) (lower name)

-- A membership of the workspace whose user has this name but for the case of its letters; `lower` is
-- PostgreSQL's LOWER.
abbrev pub has_username : (String → String) → ℕ → String → Org → WorkspaceMember → Bool
has_username lower workspace name o m =
    m.workspace_id == workspace && is_named lower name (find_user m.user_id o)

abbrev pub find_member_by_username : (String → String) → ℕ → String → Org → Option WorkspaceMember
find_member_by_username lower workspace name o =
    select (has_username lower workspace name o) o.members

abbrev pub get_workspace_member_by_username : (String → String) → ℕ → String → M WorkspaceMember
get_workspace_member_by_username lower workspace name =
    read org (find_member_by_username lower workspace name)
