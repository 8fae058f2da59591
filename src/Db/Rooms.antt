-- ===== src/Db/Rooms.antt =====
-- The tables calls, call_participants and call_recordings (internal/db/models.go,
-- sql/migrations 000008 and 000009). Rows that were written later stand first in `calls`, so that
-- the first row that fits is the newest.
use brenox_engine.Base.{ℕ, Option, List, String, Bool, true, false}

pub data Status : Type 0 where
  ringing active ended : Status

pub data Mode : Type 0 where
  voice video : Mode

pub record Call : Type 0 where
  pub id : ℕ
  pub channel_id : ℕ
  pub workspace_id : ℕ
  pub initiator_id : ℕ
  pub status : Status
  pub mode : Mode
  pub created_at : ℕ
  pub ended_at : Option ℕ

pub record Participant : Type 0 where
  pub call_id : ℕ
  pub user_id : ℕ
  pub joined_at : ℕ
  pub left_at : Option ℕ

pub record Recording : Type 0 where
  pub id : ℕ
  pub call_id : ℕ
  pub started_by : ℕ
  pub started_at : ℕ
  pub ended_at : Option ℕ
  pub metadata : String

pub record Rooms : Type 0 where
  pub calls : List Call
  pub participants : List Participant
  pub recordings : List Recording
  pub next_call : ℕ
  pub next_recording : ℕ

abbrev pub is_ended : Status → Bool
is_ended ringing = false
is_ended active = false
is_ended ended = true
