-- ===== src/Calls/Safety/Recording.antt =====
-- StartRecording and StopRecording.
use brenox_engine.Base.{ℕ, ◌≡◌, Option, none, some, String, refl, select}
use brenox_engine.Db.{calls, CallsError, rooms}
use brenox_engine.Db.Rooms.{Recording, Rooms}
use brenox_engine.Db.Triple.{Triple-bind, Triple-write, Triple-no_rows_is, Answers, Instead}
use brenox_engine.Db.Frame.{
  Frame-or_raise, Frame-bind, Frame-pure, Frame-raise, Frame-if, Frame-no_rows_is, Frame-read,
}
use brenox_engine.Db.Triple.{Frame}
use brenox_engine.Queries.Calls.{
  find_open_recording, insert_recording, set_recording_ended, is_open_with_id,
}
use brenox_engine.Calls.Recordings.{
  validate_signal, accept_signal, start_recording, stop_recording, refuse_if_recording, or_braces,
}
use brenox_engine.Calls.Invariant.{Safe, record-Safe, close-Safe}
use brenox_engine.Calls.Rules.{Triple-optional_read}
use brenox_engine.Calls.Safety.Pass.{Keeps, pass}

pub Frame-validate : (id u : ℕ) → Frame rooms (validate_signal id u)
unfolding validate_signal accept_signal
Frame-validate id u = Frame-bind _ _ (Frame-no_rows_is _ _ (Frame-read _ _)) λ c.
    Frame-if _ _ _ (Frame-raise _)
      (Frame-bind _ _ (Frame-no_rows_is _ _ (Frame-read _ _)) λ p. Frame-pure _)

Frame-refuse : (o : Option Recording) → Frame rooms (refuse_if_recording o)
unfolding refuse_if_recording
Frame-refuse none = Frame-pure tt
Frame-refuse (some r) = Frame-raise _

module _ (max : ℕ) (R0 : Rooms) where
  pub start_recording-Keeps :
      (id u : ℕ) (o : Option String) (T : Rooms)
      → Safe max R0 T
      → Keeps max R0 T (start_recording id u o)
  unfolding start_recording
  start_recording-Keeps id u o T safe = pass (Frame-validate id u) safe λ x. Triple-bind (
      Triple-optional_read (find_open_recording id)
        (λ r e. pass (Frame-refuse r) safe λ y.
          pass (Frame-or_raise o _) safe
            λ bytes. Triple-write _ (λ now. answer bytes now (find_open_recording id T) refl) safe)
        safe)
    where
      answer :
          (bytes : String) (now : ℕ) (r : Option Recording)
          → find_open_recording id T ≡ r
          → Answers
              (λ a T'. Safe max R0 T')
              (λ e T'. Safe max R0 T')
              (insert_recording id u (or_braces bytes) now T)
      answer bytes now none e =
          rw (e, insert_recording)
            (rw (e, insert_recording) at (record-Safe max R0 id u (or_braces bytes) now T safe))
      answer bytes now (some r) e = rw (e, insert_recording) safe

  pub stop_recording-Keeps :
      (id u rec : ℕ) (T : Rooms) → Safe max R0 T → Keeps max R0 T (stop_recording id u rec)
  unfolding stop_recording
  stop_recording-Keeps id u rec T safe = pass (Frame-validate id u) safe λ x.
      Triple-no_rows_is _ (
        Triple-write _ (λ now. answer now (select (is_open_with_id rec id) T.recordings) refl) safe)
    where
      answer :
          (now : ℕ) (r : Option Recording)
          → select (is_open_with_id rec id) T.recordings ≡ r
          → Answers
              (λ a T'. Safe max R0 T')
              (Instead (calls CallsError.recording_not_found) (λ e T'. Safe max R0 T'))
              (set_recording_ended rec id now T)
      answer now none e = rw (e, set_recording_ended) safe
      answer now (some r) e =
          rw (e, set_recording_ended)
            (rw (e, set_recording_ended) at (close-Safe max R0 rec id now T safe))
