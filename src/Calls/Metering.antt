-- ===== src/Calls/Metering.antt =====
-- internal/calls/service.go, meterVideoCall: the minutes that an ended video call is charged.
-- Times are in microseconds. The source computes `int64((secs + 59) / 60)` on float64 seconds; here
-- the quotient is that of the exact numbers.
use brenox_engine.Base.{ℕ, ◌+◌, ◌-◌, ◌*◌, ◌/◌, Option, none, some, ltb, leb, if◌then◌else◌}
use brenox_engine.Base.Monad.{pure, ◌>>=◌, ◌>>◌}
use brenox_engine.Db.{M, attempt, clock}
use brenox_engine.Db.Rooms.{voice, video, Mode, Call}
use brenox_engine.Queries.Calls.{count_all_call_participants}
use brenox_engine.Calls.Interfaces.{CallBilling, Service}

abbrev pub second : ℕ
second = 1000000

unfoldable pub whole_minutes : ℕ → ℕ
whole_minutes elapsed =
    let minutes = (elapsed + 59 * second) / (60 * second) in if ltb minutes 1 then 1 else minutes

abbrev pub end_time : Option ℕ → ℕ → ℕ
end_time none now = now
end_time (some t) now = t

unfoldable pub charge : CallBilling → Call → ℕ → M (Unit {0})
charge b call end =
    if leb end call.created_at
    then pure tt
    else attempt (
        b.record_video_minutes_by_workspace_id call.workspace_id
          (whole_minutes (end - call.created_at)))
      >> pure tt

-- The participants counted, if the count succeeded.
unfoldable pub charge_if_joined : CallBilling → Call → Option ℕ → M (Unit {0})
charge_if_joined b call none = pure tt
charge_if_joined b call (some total) =
    if ltb total 2 then pure tt else clock >>= λ now. charge b call (end_time call.ended_at now)

unfoldable pub meter_with : CallBilling → Call → Mode → M (Unit {0})
meter_with b call voice = pure tt
meter_with b call video =
    attempt (count_all_call_participants call.id) >>= λ total. charge_if_joined b call total

unfoldable pub meter_with_billing : Option CallBilling → Call → M (Unit {0})
meter_with_billing none call = pure tt
meter_with_billing (some b) call = meter_with b call call.mode

unfoldable pub meter_video_call : Service → Call → M (Unit {0})
meter_video_call s call = meter_with_billing s.billing call
