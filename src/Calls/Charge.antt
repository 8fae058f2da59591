-- ===== src/Calls/Charge.antt =====
-- The minutes that an ended video call is charged.
use brenox_engine.Base.{
  Bool, true, false, ℕ, ◌+◌, ◌*◌, ◌/◌, ◌≤◌, ◌<◌, ◌≡◌, refl, ◌⊎◌, inl, inr, arith, ltb,
}
use brenox_engine.Calls.Metering.{whole_minutes, second}

-- A call is charged one minute at least. Beyond that it is charged the length of the call rounded to
-- minutes so that less than a second over a whole minute is free: the charge covers the call up to
-- that second, and exceeds it by less than a minute.
pub whole_minutes-second :
    (elapsed : ℕ)
    → (1 ≤ whole_minutes elapsed)
      × ((elapsed < 60 * second * whole_minutes elapsed + second)
          × ((whole_minutes elapsed ≡ 1)
              ⊎ (60 * second * whole_minutes elapsed ≤ elapsed + 59 * second)))
unfolding whole_minutes
whole_minutes-second elapsed =
    (ground arith, (ground arith, few (ltb ((elapsed + 59 * second) / (60 * second)) 1) refl))
  where
    few :
        (b : Bool)
        → ltb ((elapsed + 59 * second) / (60 * second)) 1 ≡ b
        → (whole_minutes elapsed ≡ 1)
          ⊎ (60 * second * whole_minutes elapsed ≤ elapsed + 59 * second)
    few true e = inl (ground (arith, e))
    few false e = inr (ground (arith, e))
