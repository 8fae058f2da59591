-- ===== src/Tests/Calls.antt =====
-- Runs of the service of the calls.
use brenox_engine.Base.{
  ◌+◌, ◌*◌, ◌<◌, ◌⊎◌, ◌≤◌, Bool-cases, inl, inr, ℕ, ◌≤◌, ◌<◌, ◌≡◌, refl, ◌⊎◌, true, arith, ◌==◌,
}
use brenox_engine.Db.{rooms, Db}
use brenox_engine.Db.Rooms.{video}
use brenox_engine.Db.Calm.{Calm}
use brenox_engine.Calls.Steady.{Never}
use brenox_engine.Calls.Service.{initiate_call, join_call, leave_call}
use brenox_engine.Calls.Arrival.{HasJoined, join_call-HasJoined}
use brenox_engine.Calls.Departure.{HasLeft, leave_call-HasLeft}
use brenox_engine.Calls.Blocked.{initiate_call-IsBlocked}
use brenox_engine.Billing.Steady.{engine-IsSteady}
use brenox_engine.Db.Triple.{Triple}
use brenox_engine.Calls.History.{
  Reach, here, next, serves, initiates, joins, leaves, serve, Reach-Safe,
}
use brenox_engine.Calls.Invariant.{Inv, Safe}
use brenox_engine.Billing.Frames.{engine-IsLawful}
use brenox_engine.Calls.Opening.{HasOpened, initiate_call-HasOpened}
use brenox_engine.Calls.Charge.{whole_minutes-second}
use brenox_engine.Calls.Metering.{whole_minutes, second}
use brenox_engine.Calls.Interfaces.{normalize_mode}
use brenox_engine.Tests.Data.{
  no_calls, start, server, the_call, rung_call, seat_of, ringing_rooms, active_rooms, blocked_rooms,
}

no_calls-Inv : (max : ℕ) → Inv max no_calls
no_calls-Inv max = record {
  fresh = tt;
  stamped = tt;
  one_live = λ c. omega arith;
  vacated = λ id. refl;
  single = λ id u. omega arith;
  fits = λ h id. omega arith;
  one_recording = λ id. omega arith;
}

-- A video call that one starts, the other joins, and the first leaves.
abbrev after_start : Db
after_start = serve server (initiates 1 5 1 "video") start

abbrev after_join : Db
after_join = serve server (joins 1 2) after_start

abbrev after_leave : Db
after_leave = serve server (leaves 1 1) after_join

one_call : Reach server start after_leave
one_call =
    next (next (next here (serves (initiates 1 5 1 "video"))) (serves (joins 1 2)))
      (serves (leaves 1 1))

Reach-Safe_example : Safe 2 no_calls after_leave.rooms
Reach-Safe_example = Reach-Safe server (engine-IsLawful true true true 2) one_call (no_calls-Inv 2)

ringing_rooms-Inv : Inv 2 ringing_rooms
ringing_rooms-Inv = record {
  fresh = (omega arith, tt);
  stamped = (refl, tt);
  one_live = λ c. ground arith;
  vacated = λ id. elim (Bool-cases (1 == id)) [
    | inl same ↦ rw same (λ over. absurd cc)
    | inr other ↦ rw other refl
  ];
  single = λ id u. ground arith;
  fits = λ h id. ground arith;
  one_recording = λ id. omega arith;
}

active_rooms-Inv : Inv 2 active_rooms
active_rooms-Inv = record {
  fresh = (omega arith, tt);
  stamped = (refl, tt);
  one_live = λ c. ground arith;
  vacated = λ id. elim (Bool-cases (1 == id)) [
    | inl same ↦ rw same (λ over. absurd cc)
    | inr other ↦ rw other refl
  ];
  single = λ id u. ground arith;
  fits = λ h id. ground arith;
  one_recording = λ id. omega arith;
}

join_call-HasJoined_example :
    Calm ringing_rooms
      (join_call server 1 2)
      (HasJoined 1 2 rung_call ringing_rooms)
      (λ e T'. T' ≡ ringing_rooms)
join_call-HasJoined_example =
    join_call-HasJoined server (engine-IsLawful true true true 2) (engine-IsSteady true true true 2)
      2 1 2 rung_call ringing_rooms ringing_rooms-Inv refl refl

leave_call-HasLeft_example :
    Calm active_rooms (leave_call server 1 1) (HasLeft 1 1 the_call active_rooms) Never
leave_call-HasLeft_example =
    leave_call-HasLeft server (engine-IsLawful true true true 2) (engine-IsSteady true true true 2)
      2 1 1 the_call (seat_of 1) active_rooms active_rooms-Inv refl refl refl

initiate_call-IsBlocked_example :
    Triple rooms blocked_rooms
      (initiate_call server 1 5 2 "voice")
      (λ r T'. ⊥)
      (λ e T'. T' ≡ blocked_rooms)
initiate_call-IsBlocked_example =
    initiate_call-IsBlocked server (engine-IsLawful true true true 2) 1 5 2 "voice" blocked_rooms
      (record { call = the_call; live = refl; nobody = refl })

initiate_call-HasOpened_example :
    Calm ringing_rooms
      (initiate_call server 1 5 1 "video")
      (HasOpened 1 5 1 video ringing_rooms)
      (λ e T'. T' ≡ ringing_rooms)
unfolding normalize_mode
initiate_call-HasOpened_example =
    initiate_call-HasOpened server (engine-IsLawful true true true 2)
      (engine-IsSteady true true true 2) 1 5 1 "video" video ringing_rooms ringing_rooms-Inv refl

-- Sixty seconds and a half are charged one minute.
whole_minutes-second_example :
    (1 ≤ whole_minutes 60500000)
    × ((60500000 < 60 * second * whole_minutes 60500000 + second)
        × ((whole_minutes 60500000 ≡ 1)
            ⊎ (60 * second * whole_minutes 60500000 ≤ 60500000 + 59 * second)))
whole_minutes-second_example = whole_minutes-second 60500000

whole_minutes-run : whole_minutes 60500000 ≡ 1
unfolding whole_minutes
whole_minutes-run = refl
