-- ===== src/Calls/Safety/Initiate.antt =====
-- InitiateCall, with the stale call that it may clear first.
use brenox_engine.Base.{
  ℕ, ◌≡◌, refl, Bool, true, false, List, [], ◌∷◌, Option, none, some, String, arith, ◌==◌, ==→eq,
  ==-refl, Bool-cases, inl, inr, select_all, if◌then◌else◌, select_fits,
}
use brenox_engine.Base.Monad.{pure, raise}
use brenox_engine.Db.{calls, CallsError, rooms}
use brenox_engine.Db.Rooms.{ringing, ended, Mode, Call, Participant, Rooms, is_ended}
use brenox_engine.Db.Triple.{
  Triple, Triple-bind, Triple-pure, Triple-raise, Triple-read_all, Triple-write, Triple-weaken,
}
use brenox_engine.Db.Frame.{Frame-or_raise}
use brenox_engine.Queries.Calls.{
  in_call, find_call, find_live, active_count, is_live_in, set_left, set_status, new_call,
}
use brenox_engine.Calls.Interfaces.{Service, IsLawful}
use brenox_engine.Calls.Service.{
  initiate_call, open_call, clear_existing, clear_stale_solo_call, end_stale, is_alone,
}
use brenox_engine.Calls.Invariant.{
  select_above, Safe, insert_call-Safe, end-Safe, join-Safe, left-Safe, left-calls, status-calls,
  found_by_id, live-end-none,
}
use brenox_engine.Calls.Frames.{
  Frame-publish, Frame-notify, Frame-meter, Frame-capacity, Frame-check_video, Frame-access,
}
use brenox_engine.Calls.Rules.{Triple-optional_read, Triple-try_left, Triple-status, Triple-add}
use brenox_engine.Calls.Safety.Pass.{Keeps, pass, last-left}

module _ (s : Service) (law : IsLawful s) (R0 : Rooms) where
  open_call-Keeps :
      (w ch u : ℕ) (m : Mode) (T : Rooms)
      → Safe s.max_participants R0 T
      → find_live ch T ≡ none
      → Keeps s.max_participants R0 T (open_call s w ch u m)
  unfolding open_call
  open_call-Keeps w ch u m T safe free =
      let nobody : active_count T.next_call T ≡ 0 =
        rw (select_above T.next_call T.next_call T.calls safe.inv.fresh (omega arith)) at
          (safe.inv.vacated T.next_call) in
      Triple-bind (
        Triple-write _
          (λ now.
            let made = insert_call-Safe s.max_participants R0 ch w u m now T safe free in
            Triple-bind (
              Triple-add _ u
                (λ now' p absent.
                  let joined =
                    join-Safe s.max_participants R0 T.next_call u now' _
                      (new_call ch w u ringing m T.next_call now) made
                      (rw (==-refl T.next_call) refl) refl (λ h. rw nobody h) in
                  pass (Frame-publish s _ _ u) joined
                    λ x. pass (Frame-notify s law _ u) joined λ y. Triple-pure _ joined)
                (λ e. made)))
          safe)

  end_stale-frees :
      (ch u : ℕ) (c : Call) (p : Participant) (T : Rooms)
      → Safe s.max_participants R0 T
      → find_live ch T ≡ some c
      → select_all (in_call c.id) T.participants ≡ p ∷ []
      → p.user_id ≡ u
      → Triple rooms T
          (end_stale s c u)
          (λ b T'. Safe s.max_participants R0 T' × (find_live ch T' ≡ none))
          (λ e T'. Safe s.max_participants R0 T')
  unfolding end_stale
  end_stale-frees ch u c p T safe live alone e =
      let found = found_by_id (is_live_in ch) T.next_call T.calls c safe.inv.fresh live in
      let running : is_ended c.status ≡ false =
        let fits = select_fits (is_live_in ch) T.calls {a = c} live in ground arith in
      Triple-bind (
        Triple-try_left c.id u
          (λ now o.
            let T1 = (set_left c.id u now T).1 in
            let safe1 = left-Safe s.max_participants R0 c.id u now T safe in
            let found1 : find_call c.id T1 ≡ some c = rw (left-calls c.id u now T) found in
            Triple-bind (
              Triple-status c.id ended c found1
                (λ now'.
                  let safe2 =
                    end-Safe s.max_participants R0 c.id now' T1 c safe1 found1 running
                      (last-left c.id u now T p alone e) in
                  let free : find_live ch (set_status c.id ended now' T1).1 ≡ none =
                    rw (status-calls c.id ended now' T1 c found1, left-calls c.id u now T)
                      (live-end-none ch now' T.calls c (safe.inv.one_live ch) live) in
                  pass (Frame-meter s law _) safe2
                    λ x. pass (Frame-publish s _ _ u) safe2 λ y. Triple-pure true (safe2, free))
                safe1))
          safe)

  clear_existing-frees :
      (ch u : ℕ) (o : Option Call) (T : Rooms)
      → Safe s.max_participants R0 T
      → find_live ch T ≡ o
      → Triple rooms T
          (clear_existing s o u)
          (λ b T'. Safe s.max_participants R0 T' × (find_live ch T' ≡ none))
          (λ e T'. Safe s.max_participants R0 T')
  unfolding clear_existing clear_stale_solo_call is_alone
  clear_existing-frees ch u none T safe e = Triple-pure tt (safe, e)
  clear_existing-frees ch u (some c) T safe e = Triple-bind (
      Triple-bind (
        Triple-read_all (λ R. select_all (in_call c.id) R.participants)
          (decide (select_all (in_call c.id) T.participants) refl) safe))
    where
      after :
          (b : Bool) (T' : Rooms)
          → Safe s.max_participants R0 T'
          → (b ≡ true → find_live ch T' ≡ none)
          → Triple rooms T'
              (if b then pure tt else raise (calls CallsError.call_already_active))
              (λ x T'. Safe s.max_participants R0 T' × (find_live ch T' ≡ none))
              (λ e T'. Safe s.max_participants R0 T')
      after true T' safe f = Triple-pure tt (safe, f refl)
      after false T' safe f = Triple-raise _ safe

      decide :
          (l : List Participant)
          → select_all (in_call c.id) T.participants ≡ l
          → Triple rooms T
              (if is_alone u l then end_stale s c u else pure false)
              (λ b T'.
                Triple rooms T'
                  (if b then pure tt else raise (calls CallsError.call_already_active))
                  (λ x T'. Safe s.max_participants R0 T' × (find_live ch T' ≡ none))
                  (λ e T'. Safe s.max_participants R0 T'))
              (λ e T'. Safe s.max_participants R0 T')
      decide [] q = Triple-pure false (after false T safe (λ h. cc))
      decide (p ∷ []) q = elim (Bool-cases (p.user_id == u)) [
        | inl mine ↦ rw mine (
            Triple-weaken (λ b T'. Safe s.max_participants R0 T' × (find_live ch T' ≡ none)) _ _ _
              (end_stale-frees ch u c p T safe e q (==→eq p.user_id u mine))
              (λ b T' k. after b T' k.0 (λ h. k.1)) (λ x T' k. k))
        | inr other ↦ rw other (Triple-pure false (after false T safe (λ h. cc)))
      ]
      decide (p ∷ p' ∷ l) q = Triple-pure false (after false T safe (λ h. cc))

  pub initiate_call-Keeps :
      (w ch u : ℕ) (text : String) (T : Rooms)
      → Safe s.max_participants R0 T
      → Keeps s.max_participants R0 T (initiate_call s w ch u text)
  unfolding initiate_call
  initiate_call-Keeps w ch u text T safe = pass (Frame-or_raise _ _) safe λ mode.
      pass (Frame-access s law w ch u) safe λ x. pass (Frame-check_video s law mode w) safe λ y.
        pass (Frame-capacity s law w 0) safe λ z. Triple-bind (
          Triple-optional_read (find_live ch)
            (λ o e. Triple-bind (
              Triple-weaken (λ b T'. Safe s.max_participants R0 T' × (find_live ch T' ≡ none)) _ _ _
                (clear_existing-frees ch u o T safe e)
                (λ a T' k. open_call-Keeps w ch u mode T' k.0 k.1) (λ x T' k. k)))
            safe)
