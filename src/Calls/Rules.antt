-- ===== src/Calls/Rules.antt =====
-- One rule for each query that writes, in the form in which the methods use it.
use brenox_engine.Base.{ℕ, ◌≡◌, refl, Option, none, some}
use brenox_engine.Db.{Error, unique_violation, database_failed, rooms, optional, no_rows_is}
use brenox_engine.Db.Rooms.{Status, Call, Participant, Rooms}
use brenox_engine.Db.Triple.{
  Triple, Triple-write, Triple-optional, Triple-no_rows_is, Optional, Instead, Answers,
}
pub use brenox_engine.Db.Reads.{Triple-optional_read, Triple-required_read}
use brenox_engine.Queries.Calls.{
  find_call, find_participant, set_left, set_status, with_status, insert_participant,
  mark_call_participant_left, update_call_status, add_call_participant, departed, seat,
}

module _ {T : Rooms} {R : Error → Rooms → Type 0} where
  -- Marking a participant as left, where a missing row is no error.
  pub Triple-try_left :
      {Q : Option Participant → Rooms → Type 0} (id u : ℕ)
      → ((now : ℕ) (o : Option Participant) → Q o (set_left id u now T).1)
      → R database_failed T
      → Triple rooms T (optional (mark_call_participant_left id u)) Q R
  Triple-try_left {Q} id u q r =
      Triple-optional
        (Triple-write (set_left id u) (λ now. answer now (find_participant id u T) refl) r)
    where
      answer :
          (now : ℕ) (o : Option Participant)
          → find_participant id u T ≡ o
          → Answers (λ a T'. Q (some a) T') (Optional Q R) (set_left id u now T)
      answer now none e = rw (e, set_left) (rw (e, set_left) at (q now none))
      answer now (some p) e = rw (e, set_left) (rw (e, set_left) at (q now (some (departed now p))))

  pub Triple-left :
      {Q : Participant → Rooms → Type 0} (x : Error) (id u : ℕ)
      → ((now : ℕ) (p : Participant) → Q p (set_left id u now T).1)
      → ((e : Error) → R e T)
      → Triple rooms T (no_rows_is x (mark_call_participant_left id u)) Q R
  Triple-left {Q} x id u q r = Triple-no_rows_is x (
      Triple-write (set_left id u) (λ now. answer now (find_participant id u T) refl)
        (r database_failed))
    where
      answer :
          (now : ℕ) (o : Option Participant)
          → find_participant id u T ≡ o
          → Answers Q (Instead x R) (set_left id u now T)
      answer now none e = rw (e, set_left) (r x)
      answer now (some p) e = rw (e, set_left) (rw (e, set_left) at (q now (departed now p)))

  pub Triple-status :
      {Q : Call → Rooms → Type 0} (id : ℕ) (st : Status) (c : Call)
      → find_call id T ≡ some c
      → ((now : ℕ) → Q (with_status st now c) (set_status id st now T).1)
      → R database_failed T
      → Triple rooms T (update_call_status id st) Q R
  Triple-status {Q} id st c f q r = Triple-write (set_status id st) answer r
    where
      answer : (now : ℕ) → Answers Q R (set_status id st now T)
      answer now = rw (f, set_status) (rw (f, set_status) at (q now))

  pub Triple-add :
      {Q : Participant → Rooms → Type 0} (id u : ℕ)
      → ((now : ℕ) (p : Participant)
          → find_participant id u T ≡ none
          → Q p (insert_participant id u now T).1)
      → ((e : Error) → R e T)
      → Triple rooms T (add_call_participant id u) Q R
  Triple-add {Q} id u q r =
      Triple-write (insert_participant id u) (λ now. answer now (find_participant id u T) refl)
        (r database_failed)
    where
      answer :
          (now : ℕ) (o : Option Participant)
          → find_participant id u T ≡ o
          → Answers Q R (insert_participant id u now T)
      answer now none e =
          rw (e, insert_participant) (rw (e, insert_participant) at (q now (seat id u now) e))
      answer now (some p) e = rw (e, insert_participant) (r unique_violation)
