-- ===== src/Calls/Departure.antt =====
-- LeaveCall while no query fails: it succeeds, and what it leaves.
use brenox_engine.Base.{
  ℕ, ◌+◌, ◌≤◌, ◌≡◌, refl, ap, sym, subst, ◌⊎◌, inl, inr, false, List, [], ◌∷◌, some, arith, ◌==◌,
  leb, leb→le, leb→lt, ==→eq, Option-cases, select_all, count, length, length-select_all,
  if◌then◌else◌, count-pos, count-le, count-update-out, select_fits, select-count,
}
use brenox_engine.Base.Monad.{pure, ◌>>=◌}
use brenox_engine.Db.{call_leave, call_end, calls, CallsError}
use brenox_engine.Db.Rooms.{ended, Call, Participant, Rooms, is_ended}
use brenox_engine.Db.Triple.{Answers, Instead}
use brenox_engine.Db.Calm.{
  Calm, Calm-pure, Calm-bind, Calm-read, Calm-read_all, Calm-write, Calm-no_rows_is, Calm-weaken,
  Calm-if,
}
use brenox_engine.Queries.Calls.{
  find_call, find_participant, in_call, is_user_in_call, active_count, set_left, set_status,
  departed, has_id, update_call_status, count_active_call_participants,
}
use brenox_engine.Calls.Interfaces.{Service, IsLawful, CallResponse, to_call_response}
use brenox_engine.Calls.Steady.{publish-Calm, Never, IsSteady}
use brenox_engine.Calls.Metering.{meter_video_call}
use brenox_engine.Calls.Service.{
  publish, mark_each_left, drop_remaining, end_call, depart, leave_call,
}
use brenox_engine.Calls.Invariant.{Inv, active_count-left, left-calls, found-update}
use brenox_engine.Calls.Safety.Pass.{own_id, last-left}
use brenox_engine.Calls.Quiet.{meter-Calm, Calm-try_left}

-- The row of the call has ended, and is what is answered, and nobody is in the call.
abbrev HasEnded : ℕ → Call → CallResponse → Rooms → Type 0
HasEnded id c r T =
    ((now : ℕ) × ((find_call id T ≡ some (record c { status = ended; ended_at = some now }))
        × (r ≡ to_call_response (record c { status = ended; ended_at = some now }))))
    × (active_count id T ≡ 0)

module _ (s : Service) (law : IsLawful s) (quiet : IsSteady s) (c : Call) where
  finish-Calm :
      (u : ℕ) (T : Rooms)
      → find_call c.id T ≡ some c
      → active_count c.id T ≡ 0
      → Calm T
          (update_call_status c.id ended >>= λ c'. meter_video_call s c' >>= λ x.
            publish s call_end c' u >>= λ y. pure (to_call_response c'))
          (HasEnded c.id c)
          Never
  unfolding to_call_response
  finish-Calm u T found nobody = Calm-bind (Calm-write (set_status c.id ended) answer)
    where
      answer :
          (now : ℕ)
          → Answers
              (λ c' T'.
                Calm T'
                  (meter_video_call s c' >>= λ x.
                    publish s call_end c' u >>= λ y. pure (to_call_response c'))
                  (HasEnded c.id c)
                  Never)
              Never
              (set_status c.id ended now T)
      answer now =
          rw (found, set_status)
            (Calm-bind (
              meter-Calm _
                (Calm-bind (
                  publish-Calm
                    (Calm-pure _ ((now, (found-update c ended now T.calls found, refl)), nobody)) s
                    call_end _ u))
                s law quiet _))

  end_call-Calm :
      (u n : ℕ) (T : Rooms)
      → find_call c.id T ≡ some c
      → active_count c.id T ≡ n
      → n ≤ 1
      → Calm T (end_call s c u n) (HasEnded c.id c) Never
  unfolding end_call drop_remaining mark_each_left
  end_call-Calm u n T found same few = Calm-bind (
      Calm-if (n == 1) _ _
        (λ one. Calm-bind (
          Calm-read_all (λ R. select_all (in_call c.id) R.participants)
            (drop _ refl (==→eq n 1 one))))
        (λ other. Calm-pure tt (finish-Calm u T found (ground (arith, same, few, other)))))
    where
      drop :
          (l : List Participant)
          → select_all (in_call c.id) T.participants ≡ l
          → n ≡ 1
          → Calm T
              (mark_each_left s c l)
              (λ x T'.
                Calm T'
                  (update_call_status c.id ended >>= λ c'. meter_video_call s c' >>= λ x.
                    publish s call_end c' u >>= λ y. pure (to_call_response c'))
                  (HasEnded c.id c)
                  Never)
              Never
      drop [] e one =
          absurd
            (omega (arith, ap length e, length-select_all (in_call c.id) T.participants, same, one))
      drop (p ∷ []) e one = Calm-bind (
          Calm-try_left c.id p.user_id (λ now o. Calm-bind (
            publish-Calm
              (Calm-pure tt (
                finish-Calm u _ (rw (left-calls c.id p.user_id now T) found)
                  (last-left c.id p.user_id now T p e refl)))
              s call_leave c p.user_id)))
      drop (p ∷ p' ∷ l) e one =
          absurd
            (omega (arith, ap length e, length-select_all (in_call c.id) T.participants, same, one))

-- What a user who leaves leaves behind: with one other at most, the call ends and nobody is in it;
-- with more, its row stays as it was, with one fewer in it.
pub record HasLeft (id user : ℕ) (c : Call) (T : Rooms) (r : CallResponse) (T' : Rooms)
    : Type 0 where
  pub gone : count (is_user_in_call id user) T'.participants ≡ 0
  pub outcome :
      ((active_count id T ≤ 2) × HasEnded id c r T')
      ⊎ ((3 ≤ active_count id T)
          × ((find_call id T' ≡ some c)
              × ((r ≡ to_call_response c) × (active_count id T' + 1 ≡ active_count id T))))

nobody-gone :
    (id u : ℕ) (T : Rooms) → active_count id T ≡ 0 → count (is_user_in_call id u) T.participants ≡ 0
nobody-gone id u T h =
    omega
      (arith, h, count-le (is_user_in_call id u) (in_call id) T.participants (λ x k. ground arith))

left-gone :
    (id u now : ℕ) (T : Rooms)
    → count (is_user_in_call id u) (set_left id u now T).1.participants ≡ 0
left-gone id u now T = elim (Option-cases (find_participant id u T)) [
  | inl absent ↦ rw (absent, set_left) (select-count (is_user_in_call id u) T.participants absent)
  | inr (p, present) ↦
      rw (present, set_left)
        (omega (
          arith,
          count-update-out (is_user_in_call id u) (is_user_in_call id u) (departed now)
              T.participants (λ x h. h) (λ x. ground arith),
        ))
]

module _ (s : Service) (law : IsLawful s) (quiet : IsSteady s) where
  settle-HasLeft :
      (u now : ℕ) (c : Call) (T : Rooms)
      → find_call c.id T ≡ some c
      → count (is_user_in_call c.id u) T.participants ≡ 1
      → Calm
          (set_left c.id u now T).1
          (if leb (active_count c.id (set_left c.id u now T).1) 1
            then end_call s c u (active_count c.id (set_left c.id u now T).1)
            else pure (to_call_response c))
          (HasLeft c.id u c T)
          Never
  settle-HasLeft u now c T found one =
      let T1 = (set_left c.id u now T).1 in
      let fewer = active_count-left c.id u now T in
      Calm-if (leb (active_count c.id T1) 1) _ _
        (λ few.
          Calm-weaken (HasEnded c.id c) _
            (end_call-Calm s law quiet c u (active_count c.id T1) T1
              (rw (left-calls c.id u now T) found) refl (leb→le _ 1 few))
            (λ r T' done. record {
              gone = nobody-gone c.id u T' done.1;
              outcome = inl (omega (arith, fewer, one, leb→le _ 1 few), done);
            }))
        (λ many. Calm-pure _ (record {
          gone = left-gone c.id u now T;
          outcome = inr (
            omega (arith, fewer, one, leb→lt _ 1 many),
            (rw (left-calls c.id u now T) found, (refl, omega (arith, fewer, one))),
          );
        }))

  depart-HasLeft :
      (u : ℕ) (c : Call) (p : Participant) (T : Rooms)
      → find_call c.id T ≡ some c
      → count (is_user_in_call c.id u) T.participants ≤ 1
      → find_participant c.id u T ≡ some p
      → Calm T (depart s c u) (HasLeft c.id u c T) Never
  unfolding depart
  depart-HasLeft u c p T found once present = Calm-bind (
      Calm-no_rows_is _ (
        Calm-read (find_participant c.id u) p present
          (Calm-bind (Calm-no_rows_is _ (Calm-write (set_left c.id u) answer)))))
    where
      Goes : Participant → Rooms → Type 0
      Goes x T' =
          Calm T'
            (publish s call_leave c u >>= λ y. count_active_call_participants c.id >>= λ n.
              if leb n 1 then end_call s c u n else pure (to_call_response c))
            (HasLeft c.id u c T) Never

      on : (now : ℕ) → Goes (departed now p) (set_left c.id u now T).1
      on now = Calm-bind (
          publish-Calm
            (Calm-bind (
              Calm-read_all (active_count c.id) (
                settle-HasLeft u now c T found (
                  omega (arith, once, count-pos (is_user_in_call c.id u) T.participants present)))))
            s call_leave c u)

      answer :
          (now : ℕ)
          → Answers Goes (Instead (calls CallsError.not_participant) Never) (set_left c.id u now T)
      answer now = rw (present, set_left) (rw (present, set_left) at (on now))

  -- From tables that fit the invariant, and while no query fails, a participant who leaves a call that
  -- has not ended does leave, and the request succeeds: with one other participant at most the call
  -- has ended, its row and the answer changed in the status and the time of the end only, and is empty,
  -- the other one taken out of it; with more its row stays as it was and is the answer, with one
  -- participant fewer in the call. The service's neighbours leave the tables of the calls alone and make
  -- no query fail.
  pub leave_call-HasLeft :
      (max id u : ℕ) (c : Call) (p : Participant) (T : Rooms)
      → Inv max T
      → find_call id T ≡ some c
      → is_ended c.status ≡ false
      → find_participant id u T ≡ some p
      → Calm T (leave_call s id u) (HasLeft id u c T) Never
  unfolding leave_call
  leave_call-HasLeft max id u c p T v found running present = Calm-bind (
      Calm-no_rows_is _ (
        Calm-read (find_call id) c found (
          rw running (
            subst (λ i. Calm T (depart s c u) (HasLeft i u c T) Never) same
              (depart-HasLeft u c p T (own_id id T c found) (v.single c.id u)
                (subst (λ i. find_participant i u T ≡ some p) (sym same) present))))))
    where
      same : c.id ≡ id
      same = ==→eq c.id id (select_fits (has_id id) T.calls found)
