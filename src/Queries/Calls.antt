-- ===== src/Queries/Calls.antt =====
-- internal/db/calls.sql.go: the queries on calls, call_participants and call_recordings.
use brenox_engine.Base.{
  ℕ, ◌+◌, Bool, ◌&&◌, List, [], ◌∷◌, ◌++◌, Option, none, some, String, ◌==◌, if◌then◌else◌, not,
  is_some, select, select_all, count, update,
}
use brenox_engine.Base.Monad.{Result, ok, err}
use brenox_engine.Db.{Error, no_rows, unique_violation, M, rooms, read, read_all, write}
use brenox_engine.Db.Rooms.{Status, Mode, Call, Participant, Recording, Rooms, is_ended}

-- WHERE call_id = $1 AND left_at IS NULL
abbrev pub in_call : ℕ → Participant → Bool
in_call call p = p.call_id == call && not (is_some p.left_at)

-- WHERE call_id = $1 AND user_id = $2 AND left_at IS NULL
abbrev pub is_user_in_call : ℕ → ℕ → Participant → Bool
is_user_in_call call user p = p.user_id == user && in_call call p

-- WHERE channel_id = $1 AND status IN ('ringing', 'active')
abbrev pub is_live_in : ℕ → Call → Bool
is_live_in channel c = c.channel_id == channel && not (is_ended c.status)

abbrev pub has_id : ℕ → Call → Bool
has_id id c = c.id == id

abbrev pub find_call : ℕ → Rooms → Option Call
find_call id R = select (has_id id) R.calls

abbrev pub find_live : ℕ → Rooms → Option Call
find_live channel R = select (is_live_in channel) R.calls

abbrev pub find_participant : ℕ → ℕ → Rooms → Option Participant
find_participant call user R = select (is_user_in_call call user) R.participants

abbrev pub active_count : ℕ → Rooms → ℕ
active_count call R = count (in_call call) R.participants

abbrev pub all_count : ℕ → Rooms → ℕ
all_count call R = count (λ p. p.call_id == call) R.participants

abbrev pub get_call_by_id : ℕ → M Call
get_call_by_id id = read rooms (find_call id)

abbrev pub get_active_call_by_channel : ℕ → M Call
get_active_call_by_channel channel = read rooms (find_live channel)

abbrev pub get_active_call_participant : ℕ → ℕ → M Participant
get_active_call_participant call user = read rooms (find_participant call user)

-- ORDER BY joined_at: rows stand in the order in which they were written.
abbrev pub list_active_call_participants : ℕ → M (List Participant)
list_active_call_participants call = read_all rooms (λ R. select_all (in_call call) R.participants)

abbrev pub count_active_call_participants : ℕ → M ℕ
count_active_call_participants call = read_all rooms (active_count call)

abbrev pub count_all_call_participants : ℕ → M ℕ
count_all_call_participants call = read_all rooms (all_count call)

abbrev pub new_call : ℕ → ℕ → ℕ → Status → Mode → ℕ → ℕ → Call
new_call channel workspace initiator status mode id now = record {
  id = id;
  channel_id = channel;
  workspace_id = workspace;
  initiator_id = initiator;
  status = status;
  mode = mode;
  created_at = now;
  ended_at = none;
}

abbrev pub insert_call : ℕ → ℕ → ℕ → Status → Mode → ℕ → Rooms → Result Error Call × Rooms
insert_call channel workspace initiator status mode now R =
    let c = new_call channel workspace initiator status mode R.next_call now in
    (ok c, record R { calls = c ∷ R.calls; next_call = R.next_call + 1 })

abbrev pub create_call : ℕ → ℕ → ℕ → Status → Mode → M Call
create_call channel workspace initiator status mode =
    write rooms (insert_call channel workspace initiator status mode)

-- ended_at = CASE WHEN $2 = 'ended' THEN NOW() ELSE ended_at END
abbrev pub with_status : Status → ℕ → Call → Call
with_status s now c = record c {
  status = s;
  ended_at = if is_ended s then some now else c.ended_at;
}

abbrev pub set_status : ℕ → Status → ℕ → Rooms → Result Error Call × Rooms
set_status id s now R = elim (find_call id R) [
  | none ↦ (err no_rows, R)
  | some c ↦ (
    ok (with_status s now c),
    record R { calls = update (has_id id) (with_status s now) R.calls },
  )
]

abbrev pub update_call_status : ℕ → Status → M Call
update_call_status id s = write rooms (set_status id s)

abbrev pub seat : ℕ → ℕ → ℕ → Participant
seat call user now = record { call_id = call; user_id = user; joined_at = now; left_at = none }

-- The unique index idx_call_participants_active refuses a second active row.
abbrev pub insert_participant : ℕ → ℕ → ℕ → Rooms → Result Error Participant × Rooms
insert_participant call user now R = elim (find_participant call user R) [
  | none ↦
      let p = seat call user now in (ok p, record R { participants = R.participants ++ p ∷ [] })
  | some p ↦ (err unique_violation, R)
]

abbrev pub add_call_participant : ℕ → ℕ → M Participant
add_call_participant call user = write rooms (insert_participant call user)

abbrev pub departed : ℕ → Participant → Participant
departed now p = record p { left_at = some now }

abbrev pub set_left : ℕ → ℕ → ℕ → Rooms → Result Error Participant × Rooms
set_left call user now R = elim (find_participant call user R) [
  | none ↦ (err no_rows, R)
  | some p ↦ (
    ok (departed now p),
    record R { participants = update (is_user_in_call call user) (departed now) R.participants },
  )
]

abbrev pub mark_call_participant_left : ℕ → ℕ → M Participant
mark_call_participant_left call user = write rooms (set_left call user)

abbrev pub is_open_recording : ℕ → Recording → Bool
is_open_recording call r = r.call_id == call && not (is_some r.ended_at)

abbrev pub find_open_recording : ℕ → Rooms → Option Recording
find_open_recording call R = select (is_open_recording call) R.recordings

abbrev pub get_active_call_recording : ℕ → M Recording
get_active_call_recording call = read rooms (find_open_recording call)

abbrev pub new_recording : ℕ → ℕ → String → ℕ → ℕ → Recording
new_recording call user metadata id now = record {
  id = id;
  call_id = call;
  started_by = user;
  started_at = now;
  ended_at = none;
  metadata = metadata;
}

-- The unique index idx_call_recordings_active refuses a second open recording.
abbrev pub insert_recording : ℕ → ℕ → String → ℕ → Rooms → Result Error Recording × Rooms
insert_recording call user metadata now R = elim (find_open_recording call R) [
  | none ↦
      let r = new_recording call user metadata R.next_recording now in
      (ok r, record R { recordings = r ∷ R.recordings; next_recording = R.next_recording + 1 })
  | some r ↦ (err unique_violation, R)
]

abbrev pub create_call_recording : ℕ → ℕ → String → M Recording
create_call_recording call user metadata = write rooms (insert_recording call user metadata)

abbrev pub is_open_with_id : ℕ → ℕ → Recording → Bool
is_open_with_id id call r = r.id == id && is_open_recording call r

abbrev pub closed : ℕ → Recording → Recording
closed now r = record r { ended_at = some now }

abbrev pub set_recording_ended : ℕ → ℕ → ℕ → Rooms → Result Error Recording × Rooms
set_recording_ended id call now R = elim (select (is_open_with_id id call) R.recordings) [
  | none ↦ (err no_rows, R)
  | some r ↦ (
    ok (closed now r),
    record R { recordings = update (is_open_with_id id call) (closed now) R.recordings },
  )
]

abbrev pub end_call_recording : ℕ → ℕ → M Recording
end_call_recording id call = write rooms (set_recording_ended id call)
