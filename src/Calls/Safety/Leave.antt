-- ===== src/Calls/Safety/Leave.antt =====
-- LeaveCall.
use brenox_engine.Base.{
  ℕ, ◌≤◌, ◌≡◌, ◌≢◌, refl, ap, true, false, List, [], ◌∷◌, some, arith, ◌==◌, leb, leb→le, ==→eq,
  Bool-cases, inl, inr, select_all, length, length-select_all, if◌then◌else◌,
}
use brenox_engine.Base.Monad.{pure}
use brenox_engine.Db.{rooms}
use brenox_engine.Db.Rooms.{ended, Call, Participant, Rooms, is_ended}
use brenox_engine.Db.Triple.{Triple, Triple-bind, Triple-pure, Triple-read_all, Triple-weaken}
use brenox_engine.Queries.Calls.{in_call, find_call, find_participant, active_count, set_left}
use brenox_engine.Calls.Interfaces.{Service, IsLawful, to_call_response}
use brenox_engine.Calls.Service.{leave_call, depart, end_call, drop_remaining, mark_each_left}
use brenox_engine.Calls.Invariant.{Safe, end-Safe, left-Safe, left-calls}
use brenox_engine.Calls.Frames.{Frame-publish, Frame-meter}
use brenox_engine.Calls.Rules.{Triple-required_read, Triple-try_left, Triple-left, Triple-status}
use brenox_engine.Calls.Safety.Pass.{Keeps, pass, own_id, last-left}

-- The participants that are listed are as many as were counted.
wrong_count :
    (c : Call) (n : ℕ) (T : Rooms)
    → active_count c.id T ≡ n
    → (n == 1) ≡ true
    → (l : List Participant) → select_all (in_call c.id) T.participants ≡ l
    → length l ≢ 1
    → ⊥
wrong_count c n T same one l q other = other (
    omega
      (arith, ap length q, length-select_all (in_call c.id) T.participants, same, ==→eq n 1 one))

module _ (s : Service) (law : IsLawful s) (R0 : Rooms) where
  mark_rest :
      (c : Call) (p : Participant) (T : Rooms)
      → Safe s.max_participants R0 T
      → find_call c.id T ≡ some c
      → select_all (in_call c.id) T.participants ≡ p ∷ []
      → Triple rooms T
          (mark_each_left s c (p ∷ []))
          (λ x T'.
            Safe s.max_participants R0 T'
            × (find_call c.id T' ≡ some c)
            × (active_count c.id T' ≡ 0))
          (λ e T'. Safe s.max_participants R0 T')
  unfolding mark_each_left
  mark_rest c p T safe found alone = Triple-bind (
      Triple-try_left c.id p.user_id
        (λ now o.
          let safe1 = left-Safe s.max_participants R0 c.id p.user_id now T safe in
          pass (Frame-publish s _ c p.user_id) safe1 λ x. Triple-pure tt (
            safe1,
            rw (left-calls c.id p.user_id now T) found,
            last-left c.id p.user_id now T p alone refl,
          ))
        safe)

  -- When one participant or none is left, afterwards nobody is.
  drop_remaining-empties :
      (c : Call) (n : ℕ) (T : Rooms)
      → Safe s.max_participants R0 T
      → find_call c.id T ≡ some c
      → active_count c.id T ≡ n
      → n ≤ 1
      → Triple rooms T
          (drop_remaining s c n)
          (λ x T'.
            Safe s.max_participants R0 T'
            × (find_call c.id T' ≡ some c)
            × (active_count c.id T' ≡ 0))
          (λ e T'. Safe s.max_participants R0 T')
  unfolding drop_remaining
  drop_remaining-empties c n T safe found same few = elim (Bool-cases (n == 1)) [
    | inl one ↦ rw one (
        Triple-bind (
          Triple-read_all (λ R. select_all (in_call c.id) R.participants)
            (drop (select_all (in_call c.id) T.participants) refl one) safe))
    | inr other ↦ rw other (Triple-pure tt (safe, found, ground arith))
  ]
    where
      drop :
          (l : List Participant)
          → select_all (in_call c.id) T.participants ≡ l
          → (n == 1) ≡ true
          → Triple rooms T
              (mark_each_left s c l)
              (λ x T'.
                Safe s.max_participants R0 T'
                × (find_call c.id T' ≡ some c)
                × (active_count c.id T' ≡ 0))
              (λ e T'. Safe s.max_participants R0 T')
      drop [] q one = absurd (wrong_count c n T same one [] q (omega arith))
      drop (p ∷ []) q one = mark_rest c p T safe found q
      drop (p ∷ p' ∷ l) q one = absurd (wrong_count c n T same one (p ∷ p' ∷ l) q (omega arith))

  end_call-Keeps :
      (c : Call) (u n : ℕ) (T : Rooms)
      → Safe s.max_participants R0 T
      → find_call c.id T ≡ some c
      → is_ended c.status ≡ false
      → active_count c.id T ≡ n
      → n ≤ 1
      → Keeps s.max_participants R0 T (end_call s c u n)
  unfolding end_call
  end_call-Keeps c u n T safe found running same few = Triple-bind (
      Triple-weaken
        (λ x T'.
          Safe s.max_participants R0 T' × (find_call c.id T' ≡ some c) × (active_count c.id T' ≡ 0))
        _ _ _ (drop_remaining-empties c n T safe found same few)
        (λ x T' k. Triple-bind (
          Triple-status c.id ended c k.1
            (λ now.
              let safe2 = end-Safe s.max_participants R0 c.id now T' c k.0 k.1 running k.2 in
              pass (Frame-meter s law _) safe2
                λ y. pass (Frame-publish s _ _ u) safe2 λ z. Triple-pure _ safe2)
            k.0))
        (λ x T' k. k))

  depart-Keeps :
      (c : Call) (u : ℕ) (T : Rooms)
      → Safe s.max_participants R0 T
      → find_call c.id T ≡ some c
      → is_ended c.status ≡ false
      → Keeps s.max_participants R0 T (depart s c u)
  unfolding depart
  depart-Keeps c u T safe found running = Triple-bind (
      Triple-required_read (find_participant c.id u) _
        (λ p present. Triple-bind (
          Triple-left _ c.id u
            (λ now p'.
              let T1 = (set_left c.id u now T).1 in
              let safe1 = left-Safe s.max_participants R0 c.id u now T safe in
              let found1 : find_call c.id T1 ≡ some c = rw (left-calls c.id u now T) found in
              pass (Frame-publish s _ c u) safe1 λ x.
                Triple-bind (Triple-read_all (active_count c.id) (settle T1 safe1 found1) safe1))
            (λ e. safe)))
        (λ e. safe))
    where
      settle :
          (T1 : Rooms)
          → Safe s.max_participants R0 T1
          → find_call c.id T1 ≡ some c
          → Keeps s.max_participants R0 T1 (
              if leb (active_count c.id T1) 1
              then end_call s c u (active_count c.id T1)
              else pure (to_call_response c))
      settle T1 safe1 found1 = elim (Bool-cases (leb (active_count c.id T1) 1)) [
        | inl few ↦ rw few (
            end_call-Keeps c u (active_count c.id T1) T1 safe1 found1 running refl (leb→le _ 1 few))
        | inr many ↦ rw many (Triple-pure _ safe1)
      ]

  pub leave_call-Keeps :
      (id u : ℕ) (T : Rooms)
      → Safe s.max_participants R0 T
      → Keeps s.max_participants R0 T (leave_call s id u)
  unfolding leave_call
  leave_call-Keeps id u T safe = Triple-bind (
      Triple-required_read (find_call id) _
        (λ c found. elim (Bool-cases (is_ended c.status)) [
          | inl over ↦ rw over (Triple-pure _ safe)
          | inr running ↦ rw running (depart-Keeps c u T safe (own_id id T c found) running)
        ])
        (λ e. safe))
