-- ===== src/Calls/Quiet.antt =====
-- The metering, and marking a participant as left, while no query fails.
use brenox_engine.Base.{ℕ, ◌≡◌, refl, Option, none, some, leb, ltb}
use brenox_engine.Db.{Error, rooms, optional}
use brenox_engine.Db.Rooms.{Mode, voice, video, Call, Participant, Rooms}
use brenox_engine.Db.Triple.{Answers, Optional}
use brenox_engine.Db.Frame.{Frame-read_all}
use brenox_engine.Db.Calm.{
  Calm, Calm-pure, Calm-bind, Calm-write, Calm-optional, Calm-attempt, Calm-clock, Calm-if,
}
use brenox_engine.Db.Steady.{Steady-read_all}
use brenox_engine.Queries.Calls.{find_participant, set_left, departed, mark_call_participant_left}
use brenox_engine.Calls.Interfaces.{CallBilling, BillingFrame, Service, IsLawful}
use brenox_engine.Calls.Steady.{SteadyBilling, IsSteady}
use brenox_engine.Calls.Metering.{
  meter_video_call, meter_with_billing, meter_with, charge_if_joined, charge, end_time,
}

module _ (T : Rooms) {Q : Unit {0} → Rooms → Type 0} {R : Error → Rooms → Type 0} (q : Q tt T) where
  charge-Calm :
      (b : CallBilling)
      → BillingFrame (some b)
      → SteadyBilling (some b)
      → (c : Call) (o : Option ℕ) → Calm T (charge_if_joined b c o) Q R
  unfolding charge_if_joined charge
  charge-Calm b same quiet c none = Calm-pure tt q
  charge-Calm b same quiet c (some total) =
      Calm-if (ltb total 2) _ _ (λ few. Calm-pure tt q)
        (λ more. Calm-bind (
          Calm-clock (λ now.
            Calm-if (leb (end_time c.ended_at now) c.created_at) _ _ (λ early. Calm-pure tt q)
              (λ after.
                Calm-bind (Calm-attempt (same.2 _ _) (quiet.2 _ _) (λ o. Calm-pure tt q))))))

  meter_with-Calm :
      (b : CallBilling)
      → BillingFrame (some b)
      → SteadyBilling (some b)
      → (c : Call) (mode : Mode) → Calm T (meter_with b c mode) Q R
  unfolding meter_with
  meter_with-Calm b same quiet c voice = Calm-pure tt q
  meter_with-Calm b same quiet c video = Calm-bind (
      Calm-attempt (Frame-read_all rooms _) (Steady-read_all rooms _)
        (λ o. charge-Calm b same quiet c o))

  meter_billed-Calm :
      (b : Option CallBilling)
      → BillingFrame b
      → SteadyBilling b
      → (c : Call) → Calm T (meter_with_billing b c) Q R
  unfolding meter_with_billing
  meter_billed-Calm none same quiet c = Calm-pure tt q
  meter_billed-Calm (some b) same quiet c = meter_with-Calm b same quiet c c.mode

  pub meter-Calm :
      (s : Service) → IsLawful s → IsSteady s → (c : Call) → Calm T (meter_video_call s c) Q R
  unfolding meter_video_call
  meter-Calm s law quiet c = meter_billed-Calm s.billing law.billing_frame quiet.billing_steady c

module _ {T : Rooms} {R : Error → Rooms → Type 0} where
  pub Calm-try_left :
      {Q : Option Participant → Rooms → Type 0} (id u : ℕ)
      → ((now : ℕ) (o : Option Participant) → Q o (set_left id u now T).1)
      → Calm T (optional (mark_call_participant_left id u)) Q R
  Calm-try_left {Q} id u q =
      Calm-optional (Calm-write (set_left id u) (λ now. answer now (find_participant id u T) refl))
    where
      answer :
          (now : ℕ) (o : Option Participant)
          → find_participant id u T ≡ o
          → Answers (λ a T'. Q (some a) T') (Optional Q R) (set_left id u now T)
      answer now none e = rw (e, set_left) (rw (e, set_left) at (q now none))
      answer now (some p) e = rw (e, set_left) (rw (e, set_left) at (q now (some (departed now p))))
