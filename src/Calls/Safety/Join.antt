-- ===== src/Calls/Safety/Join.antt =====
-- JoinCall.
use brenox_engine.Base.{ℕ, ◌≡◌, false, ◌&&◌, Option, none, some, arith, leb, Bool-cases, inl, inr}
use brenox_engine.Base.Monad.{pure, ◌>>=◌}
use brenox_engine.Db.{rooms, call_join}
use brenox_engine.Db.Rooms.{active, Call, Participant, Rooms, is_ended}
use brenox_engine.Db.Triple.{
  Triple, Triple-bind, Triple-pure, Triple-raise, Triple-read_all, Triple-weaken,
}
use brenox_engine.Queries.Calls.{find_call, find_participant, active_count}
use brenox_engine.Calls.Interfaces.{Service, IsLawful, to_call_response}
use brenox_engine.Calls.Service.{join_call, admit, activate, is_ringing, enter, publish}
use brenox_engine.Calls.Invariant.{Safe, activate-Safe, join-Safe, join-calls}
use brenox_engine.Calls.Frames.{Frame-publish, Frame-check_video, Frame-access, capacity-Triple}
use brenox_engine.Calls.Rules.{
  Triple-optional_read, Triple-required_read, Triple-status, Triple-add,
}
use brenox_engine.Calls.Safety.Pass.{Keeps, pass, own_id}

module _ (s : Service) (law : IsLawful s) (R0 : Rooms) where
  announce :
      (T : Rooms) (c c' : Call) (u : ℕ)
      → Safe s.max_participants R0 T
      → Keeps s.max_participants R0 T (publish s call_join c u >>= λ x. pure (to_call_response c'))
  announce T c c' u safe = pass (Frame-publish s _ c u) safe (λ x. Triple-pure _ safe)

  admit-Keeps :
      (c : Call) (u : ℕ) (o : Option Participant) (T : Rooms)
      → Safe s.max_participants R0 T
      → find_call c.id T ≡ some c
      → is_ended c.status ≡ false
      → Triple rooms T
          (admit s c u o)
          (λ x T'. Safe s.max_participants R0 T' × (find_call c.id T' ≡ some c))
          (λ e T'. Safe s.max_participants R0 T')
  unfolding admit
  admit-Keeps c u (some p) T safe found running = Triple-pure tt (safe, found)
  admit-Keeps c u none T safe found running = Triple-bind (
      Triple-read_all _
        (Triple-bind (
          capacity-Triple _ s c.workspace_id (active_count c.id T) law
            (λ room. pass (Frame-check_video s law _ _) safe λ y. Triple-bind (
              Triple-add c.id u
                (λ now p absent. Triple-pure tt (
                  join-Safe s.max_participants R0 c.id u now T c safe found running room,
                  rw (join-calls c.id u now T) found,
                ))
                (λ e. safe)))
            (λ e. safe)))
        safe)

  activate-Keeps :
      (c : Call) (n : ℕ) (T : Rooms)
      → Safe s.max_participants R0 T
      → find_call c.id T ≡ some c
      → Keeps s.max_participants R0 T (activate c n)
  unfolding activate
  activate-Keeps c n T safe found = elim (Bool-cases (is_ringing c.status && leb 2 n)) [
    | inl start ↦ rw start (
        Triple-status c.id active c found
          (λ now. activate-Safe s.max_participants R0 c.id now T c safe found (ground arith)) safe)
    | inr stay ↦ rw stay (Triple-pure c safe)
  ]

  enter-Keeps :
      (c : Call) (u : ℕ) (T : Rooms)
      → Safe s.max_participants R0 T
      → find_call c.id T ≡ some c
      → is_ended c.status ≡ false
      → Keeps s.max_participants R0 T (enter s c u)
  unfolding enter
  enter-Keeps c u T safe found running = pass (Frame-access s law _ _ u) safe λ x. Triple-bind (
      Triple-optional_read (find_participant c.id u)
        (λ o e. Triple-bind (
          Triple-weaken (λ b T'. Safe s.max_participants R0 T' × (find_call c.id T' ≡ some c)) _ _ _
            (admit-Keeps c u o T safe found running)
            (λ b T' k. Triple-bind (
              Triple-read_all _
                (Triple-bind (
                  Triple-weaken (λ c' T''. Safe s.max_participants R0 T'') _ _ _
                    (activate-Keeps c _ T' k.0 k.1) (λ c' T'' k'. announce T'' c' c' u k')
                    (λ y T'' k'. k')))
                k.0))
            (λ y T' k. k)))
        safe)

  pub join_call-Keeps :
      (id u : ℕ) (T : Rooms)
      → Safe s.max_participants R0 T
      → Keeps s.max_participants R0 T (join_call s id u)
  unfolding join_call
  join_call-Keeps id u T safe = Triple-bind (
      Triple-required_read (find_call id) _
        (λ c found. elim (Bool-cases (is_ended c.status)) [
          | inl over ↦ rw over (Triple-raise _ safe)
          | inr running ↦ rw running (enter-Keeps c u T safe (own_id id T c found) running)
        ])
        (λ e. safe))
