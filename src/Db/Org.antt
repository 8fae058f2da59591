-- ===== src/Db/Org.antt =====
-- The tables users, workspaces, workspace_members, channels, channel_members, channel_roles,
-- messages and notifications (internal/db/models.go), with the columns that the services read.
use brenox_engine.Base.{ℕ, Option, List, String, Bool}

pub record User : Type 0 where
  pub id : ℕ
  pub email : String
  pub username : String

pub record Workspace : Type 0 where
  pub id : ℕ
  pub name : String
  pub slug : String
  pub owner_id : ℕ
  pub created_at : ℕ

pub record WorkspaceMember : Type 0 where
  pub workspace_id : ℕ
  pub user_id : ℕ
  pub role : String
  pub created_at : ℕ

pub record Channel : Type 0 where
  pub id : ℕ
  pub name : String
  pub owner_id : ℕ
  pub workspace_id : ℕ
  pub is_read_only : Bool
  pub created_at : ℕ

pub record ChannelMember : Type 0 where
  pub channel_id : ℕ
  pub user_id : ℕ

pub record ChannelRole : Type 0 where
  pub channel_id : ℕ
  pub user_id : ℕ
  pub role : String

pub record Message : Type 0 where
  pub id : ℕ
  pub channel_id : ℕ
  pub sender_id : ℕ
  pub content : String
  pub created_at : ℕ

-- `payload` is the column data, a JSON object, whose values are numbers.
pub record Notification : Type 0 where
  pub id : ℕ
  pub user_id : ℕ
  pub type : String
  pub title : String
  pub body : String
  pub payload : List (String × ℕ)
  pub read_at : Option ℕ
  pub created_at : ℕ

pub record Org : Type 0 where
  pub users : List User
  pub workspaces : List Workspace
  pub members : List WorkspaceMember
  pub channels : List Channel
  pub channel_members : List ChannelMember
  pub channel_roles : List ChannelRole
  pub messages : List Message
  pub notifications : List Notification
  pub next_workspace : ℕ
  pub next_channel : ℕ
  pub next_message : ℕ
  pub next_notification : ℕ
