-- ===== src/Calls/Opening.antt =====
-- InitiateCall while no query fails: it opens a call with its first participant, or refuses and
-- changes nothing.
use brenox_engine.Base.{
  ==-refl, ℕ, ◌≡◌, refl, Bool, true, false, List, [], ◌∷◌, Option, none, some, String, arith, ◌==◌,
  ==→eq, if◌then◌else◌, count, count-append, count-le, count_none, select_all, select_fits,
}
use brenox_engine.Base.Monad.{pure, raise, ◌>>=◌}
use brenox_engine.Db.{calls, CallsError, call_join, call_end}
use brenox_engine.Db.Rooms.{ringing, ended, Mode, Call, Participant, Rooms, is_ended}
use brenox_engine.Db.Triple.{Answers}
use brenox_engine.Db.Calm.{
  Calm, Calm-pure, Calm-raise, Calm-bind, Calm-read_all, Calm-write, Calm-optional_read, Calm-if,
  Calm-frame, Calm-or_raise,
}
use brenox_engine.Queries.Calls.{
  find_call, find_live, find_participant, in_call, is_user_in_call, is_live_in, active_count,
  insert_call, insert_participant, new_call, seat, set_left, set_status, with_status,
}
use brenox_engine.Calls.Interfaces.{
  Service, IsLawful, CallResponse, to_call_response, normalize_mode,
}
use brenox_engine.Calls.Service.{
  initiate_call, open_call, clear_existing, clear_stale_solo_call, end_stale, is_alone, publish,
  notify_channel_members,
}
use brenox_engine.Calls.Metering.{meter_video_call}
use brenox_engine.Calls.Invariant.{
  Inv, Safe, Safe-refl, left-Safe, end-Safe, left-calls, found_by_id, select_above,
}
use brenox_engine.Calls.Frames.{Frame-check_video, Frame-access, Frame-capacity}
use brenox_engine.Calls.Steady.{
  IsSteady, check_video-Steady, capacity-Steady, access-Steady, publish-Calm,
}
use brenox_engine.Calls.Quiet.{meter-Calm, Calm-try_left}
use brenox_engine.Calls.Safety.Pass.{last-left}
use brenox_engine.Calls.Invitations.{notify-Calm}

-- The call that was opened: new, ringing, in the channel, and the user alone in it.
pub record HasOpened (w ch u : ℕ) (mode : Mode) (T : Rooms) (r : CallResponse) (T' : Rooms)
    : Type 0 where
  pub id_is : r.id ≡ T.next_call
  pub place : (r.workspace_id ≡ w) × (r.channel_id ≡ ch)
  pub by : (r.initiator_id ≡ u) × (r.mode ≡ mode)
  pub rings : r.status ≡ ringing
  -- the row is the call that was answered
  pub stored : (c : Call) × ((find_call r.id T' ≡ some c) × (r ≡ to_call_response c))
  pub alone : (active_count r.id T' ≡ 1) × (count (is_user_in_call r.id u) T'.participants ≡ 1)

-- Nobody is in a call that is not there yet.
absent_new :
    (max u : ℕ) (T : Rooms)
    → Inv max T
    → (active_count T.next_call T ≡ 0) × (find_participant T.next_call u T ≡ none)
absent_new max u T v = (
  nobody,
  count_none (is_user_in_call T.next_call u) T.participants (
      omega (
        arith,
        nobody,
        count-le (is_user_in_call T.next_call u) (in_call T.next_call) T.participants
            (λ x k. ground arith),
      )),
)
  where
    nobody : active_count T.next_call T ≡ 0
    nobody =
        rw (select_above T.next_call T.next_call T.calls v.fresh (omega arith)) at
          (v.vacated T.next_call)

module _ (s : Service) (law : IsLawful s) (quiet : IsSteady s) (w ch u : ℕ) (mode : Mode)
    (T0 : Rooms) where
  open_call-Calm :
      (max : ℕ) (T : Rooms)
      → Inv max T
      → T.next_call ≡ T0.next_call
      → Calm T (open_call s w ch u mode) (HasOpened w ch u mode T0) (λ e T'. T' ≡ T0)
  unfolding open_call to_call_response
  open_call-Calm max T v same = Calm-bind (
      Calm-write (insert_call ch w u ringing mode)
        (λ now. Calm-bind (Calm-write (insert_participant T.next_call u) (answer now))))
    where
      Goes : ℕ → Participant → Rooms → Type 0
      Goes now p T' =
          Calm T'
            (publish s call_join (new_call ch w u ringing mode T.next_call now) u >>= λ x.
              notify_channel_members s (new_call ch w u ringing mode T.next_call now) u >>= λ y.
              pure (to_call_response (new_call ch w u ringing mode T.next_call now)))
            (HasOpened w ch u mode T0) (λ e T'. T' ≡ T0)

      fits : (now : ℕ) → count (is_user_in_call T.next_call u) (seat T.next_call u now ∷ []) ≡ 1
      fits now = ground arith

      inside : (now : ℕ) → count (in_call T.next_call) (seat T.next_call u now ∷ []) ≡ 1
      inside now = ground arith

      answer :
          (now now' : ℕ)
          → Answers
              (Goes now)
              (λ e T'. T' ≡ T0)
              (insert_participant T.next_call u now' (insert_call ch w u ringing mode now T).1)
      answer now now' =
          let new = absent_new max u T v in
          rw (new.1, insert_participant)
            (Calm-bind (
              publish-Calm
                (Calm-bind (
                  notify-Calm _
                    (Calm-pure _ record {
                      id_is = same;
                      place = (refl, refl);
                      by = (refl, refl);
                      rings = refl;
                      stored = (
                        new_call ch w u ringing mode T.next_call now,
                        (rw (==-refl T.next_call) refl, refl),
                      );
                      alone = (
                        omega (
                          arith,
                          new.0,
                          inside now',
                          count-append (in_call T.next_call) T.participants
                              (seat T.next_call u now' ∷ []),
                        ),
                        omega (
                          arith,
                          new.0,
                          fits now',
                          count-le (is_user_in_call T.next_call u) (in_call T.next_call)
                              T.participants (λ x k. ground arith),
                          count-append (is_user_in_call T.next_call u) T.participants
                              (seat T.next_call u now' ∷ []),
                        ),
                      );
                    })
                    _ u s law quiet))
                s call_join _ u))

module _ (s : Service) (law : IsLawful s) (quiet : IsSteady s) (w ch u : ℕ) (mode : Mode)
    (T : Rooms) (v : Inv s.max_participants T) where
  end_stale-Calm :
      (c : Call) (p : Participant)
      → find_live ch T ≡ some c
      → select_all (in_call c.id) T.participants ≡ p ∷ []
      → p.user_id ≡ u
      → Calm T
          (end_stale s c u)
          (λ b T'.
            Calm T'
              (if b then pure tt else raise (calls CallsError.call_already_active))
              (λ x T''.
                Calm T'' (open_call s w ch u mode) (HasOpened w ch u mode T) (λ e T'. T' ≡ T))
              (λ e T'. T' ≡ T))
          (λ e T'. T' ≡ T)
  unfolding end_stale
  end_stale-Calm c p live alone own =
      Calm-bind (
        Calm-try_left c.id u (λ now o. Calm-bind (Calm-write (set_status c.id ended) (answer now))))
    where
      found : find_call c.id T ≡ some c
      found = found_by_id (is_live_in ch) T.next_call T.calls c v.fresh live

      running : is_ended c.status ≡ false
      running = let fits = select_fits (is_live_in ch) T.calls {a = c} live in ground arith

      T1 : ℕ → Rooms
      T1 now = (set_left c.id u now T).1

      found1 : (now : ℕ) → find_call c.id (T1 now) ≡ some c
      found1 now = rw (left-calls c.id u now T) found

      ended-Safe :
          (now now' : ℕ) → Safe s.max_participants T (set_status c.id ended now' (T1 now)).1
      ended-Safe now now' =
          end-Safe s.max_participants T c.id now' (T1 now) c
            (left-Safe s.max_participants T c.id u now T (Safe-refl s.max_participants T v))
            (found1 now) running (last-left c.id u now T p alone own)

      same_next : (now now' : ℕ) → (set_status c.id ended now' (T1 now)).1.next_call ≡ T.next_call
      same_next now now' = ground arith

      Goes : Call → Rooms → Type 0
      Goes c' T' =
          Calm T' (meter_video_call s c' >>= λ x. publish s call_end c' u >>= λ y. pure true)
            (λ b T''.
              Calm T'' (if b then pure tt else raise (calls CallsError.call_already_active))
                (λ x T''.
                  Calm T'' (open_call s w ch u mode) (HasOpened w ch u mode T) (λ e T'. T' ≡ T))
                (λ e T'. T' ≡ T))
            (λ e T'. T' ≡ T)

      on : (now now' : ℕ) (c' : Call) → Goes c' (set_status c.id ended now' (T1 now)).1
      on now now' c' = Calm-bind (
          meter-Calm _
            (Calm-bind (
              publish-Calm
                (Calm-pure true (
                  Calm-pure tt (
                    open_call-Calm s law quiet w ch u mode T s.max_participants _
                      (ended-Safe now now').inv (same_next now now'))))
                s call_end c' u))
            s law quiet c')

      answer : (now now' : ℕ) → Answers Goes (λ e T'. T' ≡ T) (set_status c.id ended now' (T1 now))
      answer now now' =
          rw (found1 now, set_status)
            (rw (found1 now, set_status) at (on now now' (with_status ended now' c)))

  clear_existing-Calm :
      (o : Option Call)
      → find_live ch T ≡ o
      → Calm T
          (clear_existing s o u)
          (λ x T'. Calm T' (open_call s w ch u mode) (HasOpened w ch u mode T) (λ e T'. T' ≡ T))
          (λ e T'. T' ≡ T)
  unfolding clear_existing clear_stale_solo_call is_alone
  clear_existing-Calm none free =
      Calm-pure tt (open_call-Calm s law quiet w ch u mode T s.max_participants T v refl)
  clear_existing-Calm (some c) live = Calm-bind (
      Calm-bind (
        Calm-read_all (λ R. select_all (in_call c.id) R.participants)
          (decide (select_all (in_call c.id) T.participants) refl)))
    where
      Then : Bool → Rooms → Type 0
      Then b T' =
          Calm T' (if b then pure tt else raise (calls CallsError.call_already_active))
            (λ x T''. Calm T'' (open_call s w ch u mode) (HasOpened w ch u mode T) (λ e T'. T' ≡ T))
            (λ e T'. T' ≡ T)

      decide :
          (l : List Participant)
          → select_all (in_call c.id) T.participants ≡ l
          → Calm T (if is_alone u l then end_stale s c u else pure false) Then (λ e T'. T' ≡ T)
      decide [] e = Calm-pure false (Calm-raise _ refl)
      decide (p ∷ []) e =
          Calm-if (p.user_id == u) _ _ (λ mine. end_stale-Calm c p live e (==→eq p.user_id u mine))
            (λ other. Calm-pure false (Calm-raise _ refl))
      decide (p ∷ p' ∷ l) e = Calm-pure false (Calm-raise _ refl)

-- From tables that fit the invariant, and while no query fails, a request to open a call, in a mode
-- that is known, opens one or is refused and changes nothing. The call has an id that was never given,
-- the mode, channel and workspace that were asked for, it rings, and the user is in it, once and alone.
-- The service's neighbours leave the tables of the calls alone and make no query fail.
pub initiate_call-HasOpened :
    (s : Service)
    → IsLawful s
    → IsSteady s
    → (w ch u : ℕ) (text : String) (mode : Mode) (T : Rooms) → Inv s.max_participants T
    → normalize_mode text ≡ some mode
    → Calm T (initiate_call s w ch u text) (HasOpened w ch u mode T) (λ e T'. T' ≡ T)
unfolding initiate_call
initiate_call-HasOpened s law quiet w ch u text mode T v known = Calm-bind (
    Calm-or_raise _ known (
      Calm-bind (
        Calm-frame (Frame-access s law w ch u) (access-Steady s quiet w ch u)
          (λ x. Calm-bind (
            Calm-frame (Frame-check_video s law mode w)
              (check_video-Steady s.billing quiet.billing_steady mode w)
              (λ y. Calm-bind (
                Calm-frame (Frame-capacity s law w 0) (capacity-Steady s quiet w 0)
                  (λ z. Calm-bind (
                    Calm-optional_read (find_live ch)
                      (λ o e. Calm-bind (clear_existing-Calm s law quiet w ch u mode T v o e))))
                  (λ e. refl)))
              (λ e. refl)))
          (λ e. refl))))
