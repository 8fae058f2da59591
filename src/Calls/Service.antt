-- ===== src/Calls/Service.antt =====
-- internal/calls/service.go: InitiateCall, JoinCall and LeaveCall.
use brenox_engine.Base.{
  ℕ, Bool, true, false, ◌&&◌, List, [], ◌∷◌, Option, none, some, String, ◌==◌, leb, if◌then◌else◌,
}
use brenox_engine.Base.Monad.{pure, raise, ◌>>=◌, ◌>>◌}
use brenox_engine.Db.{
  calls, CallsError, M, optional, no_rows_is, attempt, on_error, or_raise, send, EventType,
  call_join, call_leave, call_end, call_event,
}
use brenox_engine.Db.Org.{User}
use brenox_engine.Db.Rooms.{Status, ringing, active, ended, Mode, Call, Participant, is_ended}
use brenox_engine.Queries.Calls.{
  get_call_by_id, get_active_call_by_channel, get_active_call_participant,
  list_active_call_participants, count_active_call_participants, create_call, update_call_status,
  add_call_participant, mark_call_participant_left,
}
use brenox_engine.Queries.Org.{get_user_by_id, list_channel_member_user_ids}
use brenox_engine.Calls.Interfaces.{
  InviteNotifier, Service, CallResponse, to_call_response, normalize_mode, map_access_err,
  assert_participant_capacity, check_video,
}
use brenox_engine.Calls.Metering.{meter_video_call}

unfoldable pub publish : Service → EventType → Call → ℕ → M (Unit {0})
publish s type call user =
    if s.has_broadcast
    then send (
        call_event (record {
          event_type = type;
          workspace_id = call.workspace_id;
          channel_id = call.channel_id;
          call_id = call.id;
          user_id = user;
          status = call.status;
          mode = call.mode;
        }))
    else pure tt

-- An error of an invitation is dropped.
unfoldable pub invite : InviteNotifier → Call → ℕ → String → ℕ → M (Option (Unit {0}))
invite f call initiator username target =
    if target == initiator
    then pure none
    else attempt (f call.workspace_id call.channel_id call.id initiator target username)

unfoldable pub invite_each : InviteNotifier → Call → ℕ → String → List ℕ → M (Unit {0})
invite_each f call initiator username [] = pure tt
invite_each f call initiator username (target ∷ rest) =
    invite f call initiator username target >>= λ _. invite_each f call initiator username rest

unfoldable pub invite_listed : InviteNotifier → Call → ℕ → String → Option (List ℕ) → M (Unit {0})
invite_listed f call initiator username none = pure tt
invite_listed f call initiator username (some targets) =
    invite_each f call initiator username targets

unfoldable pub invite_as : InviteNotifier → Call → ℕ → Option User → M (Unit {0})
invite_as f call initiator none = pure tt
invite_as f call initiator (some u) =
    attempt (list_channel_member_user_ids call.channel_id) >>= λ targets.
    invite_listed f call initiator u.username targets

unfoldable pub notify_with : Option InviteNotifier → Call → ℕ → M (Unit {0})
notify_with none call initiator = pure tt
notify_with (some f) call initiator =
    attempt (get_user_by_id initiator) >>= λ u. invite_as f call initiator u

unfoldable pub notify_channel_members : Service → Call → ℕ → M (Unit {0})
notify_channel_members s call initiator = notify_with s.invites call initiator

-- `len(participants) != 1 || participants[0].UserID != userID`, negated
unfoldable pub is_alone : ℕ → List Participant → Bool
is_alone user (p ∷ []) = p.user_id == user
is_alone user _ = false

unfoldable pub end_stale : Service → Call → ℕ → M Bool
end_stale s call user = do
  optional (mark_call_participant_left call.id user)
  finished ← update_call_status call.id ended
  meter_video_call s finished
  publish s call_end finished user
  pure true

unfoldable pub clear_stale_solo_call : Service → Call → ℕ → M Bool
clear_stale_solo_call s call user = do
  participants ← list_active_call_participants call.id
  if is_alone user participants then end_stale s call user else pure false

unfoldable pub clear_existing : Service → Option Call → ℕ → M (Unit {0})
clear_existing s none user = pure tt
clear_existing s (some call) user = do
  cleared ← clear_stale_solo_call s call user
  if cleared then pure tt else raise (calls CallsError.call_already_active)

unfoldable pub open_call : Service → ℕ → ℕ → ℕ → Mode → M CallResponse
open_call s workspace channel user mode = do
  call ← create_call channel workspace user ringing mode
  add_call_participant call.id user
  publish s call_join call user
  notify_channel_members s call user
  pure (to_call_response call)

unfoldable pub initiate_call : Service → ℕ → ℕ → ℕ → String → M CallResponse
initiate_call s workspace channel user text = do
  mode ← or_raise (normalize_mode text) (calls CallsError.invalid_mode)
  on_error map_access_err (s.access workspace channel user)
  check_video s.billing mode workspace
  assert_participant_capacity s workspace 0
  existing ← optional (get_active_call_by_channel channel)
  clear_existing s existing user
  open_call s workspace channel user mode

-- A user who is not in the call yet is let in, if there is room.
unfoldable pub admit : Service → Call → ℕ → Option Participant → M (Unit {0})
admit s call user (some p) = pure tt
admit s call user none = do
  current ← count_active_call_participants call.id
  assert_participant_capacity s call.workspace_id current
  check_video s.billing call.mode call.workspace_id
  add_call_participant call.id user
  pure tt

unfoldable pub is_ringing : Status → Bool
is_ringing ringing = true
is_ringing active = false
is_ringing ended = false

unfoldable pub activate : Call → ℕ → M Call
unfolding is_ringing
activate call current =
    if is_ringing call.status && leb 2 current then update_call_status call.id active else pure call

unfoldable pub enter : Service → Call → ℕ → M CallResponse
enter s call user = do
  on_error map_access_err (s.access call.workspace_id call.channel_id user)
  present ← optional (get_active_call_participant call.id user)
  admit s call user present
  current ← count_active_call_participants call.id
  call' ← activate call current
  publish s call_join call' user
  pure (to_call_response call')

unfoldable pub join_call : Service → ℕ → ℕ → M CallResponse
join_call s call_id user = do
  call ← no_rows_is (calls CallsError.not_found) (get_call_by_id call_id)
  if is_ended call.status then raise (calls CallsError.call_ended) else enter s call user

unfoldable pub mark_each_left : Service → Call → List Participant → M (Unit {0})
mark_each_left s call [] = pure tt
mark_each_left s call (p ∷ rest) = do
  optional (mark_call_participant_left call.id p.user_id)
  publish s call_leave call p.user_id
  mark_each_left s call rest

unfoldable pub drop_remaining : Service → Call → ℕ → M (Unit {0})
drop_remaining s call current =
    if current == 1
    then (list_active_call_participants call.id >>= λ rest. mark_each_left s call rest)
    else pure tt

unfoldable pub end_call : Service → Call → ℕ → ℕ → M CallResponse
end_call s call user current = do
  drop_remaining s call current
  call' ← update_call_status call.id ended
  meter_video_call s call'
  publish s call_end call' user
  pure (to_call_response call')

unfoldable pub depart : Service → Call → ℕ → M CallResponse
depart s call user = do
  no_rows_is (calls CallsError.not_participant) (get_active_call_participant call.id user)
  no_rows_is (calls CallsError.not_participant) (mark_call_participant_left call.id user)
  publish s call_leave call user
  current ← count_active_call_participants call.id
  if leb current 1 then end_call s call user current else pure (to_call_response call)

unfoldable pub leave_call : Service → ℕ → ℕ → M CallResponse
leave_call s call_id user = do
  call ← no_rows_is (calls CallsError.not_found) (get_call_by_id call_id)
  if is_ended call.status then pure (to_call_response call) else depart s call user
