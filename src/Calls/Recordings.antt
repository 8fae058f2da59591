-- ===== src/Calls/Recordings.antt =====
-- internal/calls/service.go: ValidateSignal, StartRecording and StopRecording.
use text.Mathlib.Text.{◌==◌ as str_eq}
use brenox_engine.Base.{ℕ, Option, none, some, String, if◌then◌else◌}
use brenox_engine.Base.Monad.{pure, raise, ◌>>=◌, ◌>>◌}
use brenox_engine.Db.{calls, encoding_failed, CallsError, M, optional, no_rows_is, or_raise}
use brenox_engine.Db.Rooms.{Mode, Call, Recording, is_ended}
use brenox_engine.Queries.Calls.{
  get_call_by_id, get_active_call_participant, get_active_call_recording, create_call_recording,
  end_call_recording,
}

pub record SignalContext : Type 0 where
  pub call_id : ℕ
  pub workspace_id : ℕ
  pub channel_id : ℕ
  pub user_id : ℕ
  pub mode : Mode

unfoldable pub signal_context : Call → ℕ → SignalContext
signal_context call user = record {
  call_id = call.id;
  workspace_id = call.workspace_id;
  channel_id = call.channel_id;
  user_id = user;
  mode = call.mode;
}

unfoldable pub accept_signal : Call → ℕ → M SignalContext
accept_signal call user =
    no_rows_is (calls CallsError.not_participant) (get_active_call_participant call.id user)
    >> pure (signal_context call user)

unfoldable pub validate_signal : ℕ → ℕ → M SignalContext
validate_signal call_id user = do
  call ← no_rows_is (calls CallsError.not_found) (get_call_by_id call_id)
  if is_ended call.status then raise (calls CallsError.call_ended) else accept_signal call user

unfoldable pub refuse_if_recording : Option Recording → M (Unit {0})
refuse_if_recording none = pure tt
refuse_if_recording (some r) = raise (calls CallsError.recording_active)

unfoldable pub or_braces : String → String
or_braces bytes = if str_eq bytes "" then "{}" else bytes

-- `metadata` is the outcome of json.Marshal, `none` if it failed.
unfoldable pub start_recording : ℕ → ℕ → Option String → M Recording
start_recording call_id user metadata = do
  validate_signal call_id user
  current ← optional (get_active_call_recording call_id)
  refuse_if_recording current
  bytes ← or_raise metadata encoding_failed
  create_call_recording call_id user (or_braces bytes)

unfoldable pub stop_recording : ℕ → ℕ → ℕ → M Recording
stop_recording call_id user recording_id =
    validate_signal call_id user
    >> no_rows_is (calls CallsError.recording_not_found) (end_call_recording recording_id call_id)
