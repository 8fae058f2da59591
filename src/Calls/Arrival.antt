-- ===== src/Calls/Arrival.antt =====
-- JoinCall while no query fails: it lets the user in, or refuses and changes nothing.
use brenox_engine.Base.{
  ℕ, ◌+◌, ◌≤◌, ◌≡◌, refl, subst, true, false, ◌&&◌, ◌++◌, [], ◌∷◌, Option, none, some, arith, leb,
  ==→eq, is_some, if◌then◌else◌, count, count-pos, count-append, select-count, select_fits,
}
use brenox_engine.Base.Monad.{pure, ◌>>=◌}
use brenox_engine.Db.{call_join}
use brenox_engine.Db.Rooms.{active, Call, Participant, Rooms, is_ended}
use brenox_engine.Db.Triple.{Answers}
use brenox_engine.Db.Calm.{
  Calm, Calm-pure, Calm-bind, Calm-read, Calm-read_all, Calm-write, Calm-no_rows_is,
  Calm-optional_read, Calm-if, Calm-frame, Calm-weaken,
}
use brenox_engine.Queries.Calls.{
  find_call, find_participant, in_call, is_user_in_call, active_count, insert_participant, seat,
  set_status, with_status, has_id,
}
use brenox_engine.Calls.Interfaces.{Service, IsLawful, CallResponse, to_call_response}
use brenox_engine.Calls.Service.{join_call, admit, activate, is_ringing, enter, publish}
use brenox_engine.Calls.Invariant.{Inv, found-update}
use brenox_engine.Calls.Frames.{Frame-check_video, Frame-access, Frame-capacity}
use brenox_engine.Calls.Steady.{
  IsSteady, check_video-Steady, capacity-Steady, access-Steady, publish-Calm,
}
use brenox_engine.Calls.Safety.Pass.{own_id}

-- The user is in the call once, and a new arrival counts as one more.
pub record IsInside (id user : ℕ) (T T' : Rooms) : Type 0 where
  pub inside : count (is_user_in_call id user) T'.participants ≡ 1
  pub counted :
      active_count id T'
      ≡ active_count id T + (if is_some (find_participant id user T) then 0 else 1)

-- And the call that rings becomes active with the second participant.
pub record HasJoined (id user : ℕ) (c : Call) (T : Rooms) (r : CallResponse) (T' : Rooms)
    : Type 0 where
  pub entered : IsInside id user T T'
  pub status :
      r.status ≡ (if is_ringing c.status && leb 2 (active_count id T') then active else c.status)
  -- the row is the call that was answered, and but for the status it is as it was
  pub stored :
      (now : Call) × ((find_call id T' ≡ some now)
        × ((r ≡ to_call_response now) × (now ≡ record c { status = r.status })))

seated-IsInside :
    (id u now : ℕ) (T T' : Rooms)
    → find_participant id u T ≡ none
    → T'.participants ≡ T.participants ++ seat id u now ∷ []
    → IsInside id u T T'
seated-IsInside id u now T T' absent added = rw added record {
  inside = omega (
    arith,
    count-append (is_user_in_call id u) T.participants (seat id u now ∷ []),
    select-count (is_user_in_call id u) T.participants absent,
    fits,
  );
  counted =
      rw absent
        (omega (arith, count-append (in_call id) T.participants (seat id u now ∷ []), counts));
}
  where
    fits : count (is_user_in_call id u) (seat id u now ∷ []) ≡ 1
    fits = ground arith

    counts : count (in_call id) (seat id u now ∷ []) ≡ 1
    counts = ground arith

module _ (s : Service) (law : IsLawful s) (quiet : IsSteady s) (c : Call) (u : ℕ) (T : Rooms) where
  admit-Calm :
      (o : Option Participant)
      → find_participant c.id u T ≡ o
      → find_call c.id T ≡ some c
      → count (is_user_in_call c.id u) T.participants ≤ 1
      → Calm T
          (admit s c u o)
          (λ x T'. IsInside c.id u T T' × (find_call c.id T' ≡ some c))
          (λ e T'. T' ≡ T)
  unfolding admit
  admit-Calm (some p) present found once = Calm-pure tt (
    record {
      inside = omega (arith, once, count-pos (is_user_in_call c.id u) T.participants present);
      counted = rw present (omega arith);
    },
    found,
  )
  admit-Calm none absent found once = Calm-bind (
      Calm-read_all (active_count c.id) (
        Calm-bind (
          Calm-frame (Frame-capacity s law _ _) (capacity-Steady s quiet _ _)
            (λ x. Calm-bind (
              Calm-frame (Frame-check_video s law _ _)
                (check_video-Steady s.billing quiet.billing_steady _ _)
                (λ y. Calm-bind (Calm-write (insert_participant c.id u) answer)) (λ e. refl)))
            (λ e. refl))))
    where
      answer :
          (now : ℕ)
          → Answers
              (λ p T'.
                Calm T'
                  (pure tt)
                  (λ x T'. IsInside c.id u T T' × (find_call c.id T' ≡ some c))
                  (λ e T'. T' ≡ T))
              (λ e T'. T' ≡ T)
              (insert_participant c.id u now T)
      answer now =
          rw (absent, insert_participant)
            (Calm-pure tt (seated-IsInside c.id u now T _ absent refl, found))

  announce-Calm :
      (T' : Rooms) (c' : Call)
      → HasJoined c.id u c T (to_call_response c') T'
      → Calm T'
          (publish s call_join c' u >>= λ x. pure (to_call_response c'))
          (HasJoined c.id u c T)
          (λ e T'. T' ≡ T)
  announce-Calm T' c' done = Calm-bind (publish-Calm (Calm-pure _ done) s call_join c' u)

  activate-Calm :
      (T' : Rooms)
      → IsInside c.id u T T'
      → find_call c.id T' ≡ some c
      → Calm T'
          (activate c (active_count c.id T'))
          (λ c' T''.
            Calm T''
              (publish s call_join c' u >>= λ x. pure (to_call_response c'))
              (HasJoined c.id u c T)
              (λ e T'. T' ≡ T))
          (λ e T'. T' ≡ T)
  unfolding activate to_call_response
  activate-Calm T' inside found =
      Calm-if _ _ _ (λ up. Calm-write (set_status c.id active) (answer up))
        (λ stay. Calm-pure c (
          announce-Calm T' c (record {
            entered = inside;
            status = rw stay refl;
            stored = (c, (found, (refl, refl)));
          })))
    where
      answer :
          (is_ringing c.status && leb 2 (active_count c.id T')) ≡ true
          → (now : ℕ)
          → Answers
              (λ c' T''.
                Calm T''
                  (publish s call_join c' u >>= λ x. pure (to_call_response c'))
                  (HasJoined c.id u c T)
                  (λ e T'. T' ≡ T))
              (λ e T'. T' ≡ T)
              (set_status c.id active now T')
      answer up now =
          rw (found, set_status)
            (announce-Calm _ _ (record {
              entered = record { inside = inside.inside; counted = inside.counted };
              status = rw up refl;
              stored = (
                with_status active now c,
                (found-update c active now T'.calls found, (refl, refl)),
              );
            }))

  enter-Calm :
      find_call c.id T ≡ some c
      → count (is_user_in_call c.id u) T.participants ≤ 1
      → Calm T (enter s c u) (HasJoined c.id u c T) (λ e T'. T' ≡ T)
  unfolding enter
  enter-Calm found once = Calm-bind (
      Calm-frame (Frame-access s law _ _ u) (access-Steady s quiet _ _ u)
        (λ x. Calm-bind (
          Calm-optional_read (find_participant c.id u) (λ o e. Calm-bind (
            Calm-weaken (λ x T'. IsInside c.id u T T' × (find_call c.id T' ≡ some c)) _
              (admit-Calm o e found once)
              (λ x T' k.
                Calm-bind
                  (Calm-read_all (active_count c.id) (Calm-bind (activate-Calm T' k.0 k.1))))))))
        (λ e. refl))

module _ (s : Service) (law : IsLawful s) (quiet : IsSteady s) where
  -- From tables that fit the invariant, and while no query fails, a request to join a call that has not
  -- ended lets the user in, or is refused and changes nothing. Let in, the user is in the call exactly
  -- once, counted as one more unless already there, and the row of the call, which is the answer, is as
  -- it was but that a ringing call has become active if it now holds two. The service's neighbours
  -- leave the tables of the calls alone and make no query fail.
  pub join_call-HasJoined :
      (max id u : ℕ) (c : Call) (T : Rooms)
      → Inv max T
      → find_call id T ≡ some c
      → is_ended c.status ≡ false
      → Calm T (join_call s id u) (HasJoined id u c T) (λ e T'. T' ≡ T)
  unfolding join_call
  join_call-HasJoined max id u c T v found running = Calm-bind (
      Calm-no_rows_is _ (
        Calm-read (find_call id) c found (
          rw running (
            subst (λ i. Calm T (enter s c u) (HasJoined i u c T) (λ e T'. T' ≡ T)) same
              (enter-Calm s law quiet c u T (own_id id T c found) (v.single c.id u))))))
    where
      same : c.id ≡ id
      same = ==→eq c.id id (select_fits (has_id id) T.calls found)
