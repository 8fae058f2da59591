-- ===== src/RateLimit/Limiter.antt =====
-- internal/ratelimit/limiter.go. Times are in microseconds; a `Redis` answers INCR with the new
-- count, or with nothing where it fails.
use text.Mathlib.Text.{◌==◌ as str_eq}
use brenox_engine.Base.{
  ℕ, ◌+◌, ◌*◌, Bool, true, false, List, [], ◌∷◌, ◌++◌, Option, none, some, String, ltb, leb,
  if◌then◌else◌, select_all, length,
}

pub record Limiter : Type 0 where
  pub limit : ℕ
  pub window : ℕ
  -- a missing key has no times
  pub count : String → List ℕ

abbrev pub minute : ℕ
minute = 60 * 1000000

unfoldable pub new_limiter : ℕ → Limiter
new_limiter per_minute = record {
  limit = if leb per_minute 0 then 120 else per_minute;
  window = minute;
  count = λ key. [];
}

abbrev pub store : String → List ℕ → (String → List ℕ) → String → List ℕ
store key times f key' = if str_eq key key' then times else f key'

-- `ts.After(now.Add(-window))`
abbrev pub is_recent : ℕ → ℕ → ℕ → Bool
is_recent window now ts = ltb now (ts + window)

unfoldable pub allow_memory : String → ℕ → Limiter → Bool × Limiter
allow_memory key now l =
    let filtered = select_all (is_recent l.window now) (l.count key) in
    if leb l.limit (length filtered)
    then (false, record l { count = store key filtered l.count })
    else (true, record l { count = store key (filtered ++ now ∷ []) l.count })

-- The answer of INCR; the expiry that is set with the first count is Redis's.
unfoldable pub allow_redis : Option ℕ → String → ℕ → Limiter → Bool × Limiter
allow_redis none key now l = allow_memory key now l
allow_redis (some count) key now l = (leb count l.limit, l)

-- `redis` is nothing where no client was given.
unfoldable pub allow : Option (Option ℕ) → String → ℕ → Limiter → Bool × Limiter
allow none key now l = allow_memory key now l
allow (some answer) key now l = allow_redis answer key now l
