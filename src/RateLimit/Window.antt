-- ===== src/RateLimit/Window.antt =====
-- The bound that the limiter's memory keeps over any window of time.
use text.Mathlib.Text.{◌==◌ as str_eq}
use text.Mathlib.TextEquality.{eq_iff}
use brenox_engine.Base.{
  ℕ, ◌+◌, ◌≤◌, ◌≡◌, refl, ◌∙◌, subst, Bool, true, false, ◌&&◌, List, [], ◌∷◌, ◌++◌, String, ltb,
  leb, if◌then◌else◌, select_all, length, count, All, arith, Bool-cases, inl, inr,
  length-select_all, count-append,
}
use brenox_engine.RateLimit.Limiter.{Limiter, new_limiter, store, is_recent, allow_memory}

-- A limiter, with the time of the last request and, for each key, the times at which a request was
-- let through, newest first.
pub record Run : Type 0 where
  pub limiter : Limiter
  pub clock : ℕ
  pub passed : String → List ℕ

abbrev pub log : Bool → String → ℕ → (String → List ℕ) → String → List ℕ
log answer key now passed = if answer then store key (now ∷ passed key) passed else passed

abbrev pub ask : String → ℕ → Run → Run
ask key now r = record {
  limiter = (allow_memory key now r.limiter).1;
  clock = now;
  passed = log (allow_memory key now r.limiter).0 key now r.passed;
}

-- Requests come one after the other (the limiter holds its lock), and the clock does not go back.
pub data RunReach (per_minute : ℕ) : Run → Type 0 where
  starts :
      (clock : ℕ)
      → RunReach per_minute
          (record { limiter = new_limiter per_minute; clock = clock; passed = λ key. [] })
  asks :
      {r : Run} (key : String) (now : ℕ)
      → RunReach per_minute r
      → r.clock ≤ now
      → RunReach per_minute (ask key now r)

-- The times from `t - window`, exclusive, to `t`.
abbrev pub is_within : ℕ → ℕ → ℕ → Bool
is_within window t s = ltb t (s + window) && leb s t

-- What is known of one key: its stored times, and those that passed.
pub record IsTracked (limit window clock : ℕ) (stored passed : List ℕ) : Type 0 where
  pub past : All (λ s. s ≤ clock) passed
  pub same :
      (now : ℕ)
      → clock ≤ now
      → count (is_recent window now) stored ≡ count (is_recent window now) passed
  pub bound : (t : ℕ) → count (is_within window t) passed ≤ limit

keep-recent :
    (window now now' : ℕ) (xs : List ℕ)
    → now ≤ now'
    → count (is_recent window now') (select_all (is_recent window now) xs)
      ≡ count (is_recent window now') xs
keep-recent window now now' [] h = refl
keep-recent window now now' (x ∷ xs) h = ground (arith, keep-recent window now now' xs)

within-recent :
    (window now t : ℕ) (xs : List ℕ)
    → now ≤ t
    → count (is_within window t) xs ≤ count (is_recent window now) xs
within-recent window now t [] h = omega arith
within-recent window now t (x ∷ xs) h = ground (arith, within-recent window now t xs)

later : (now now' : ℕ) (xs : List ℕ) → now ≤ now' → All (λ s. s ≤ now) xs → All (λ s. s ≤ now') xs
later now now' [] h k = tt
later now now' (x ∷ xs) h (k, ks) = (omega (arith, h, k), later now now' xs h ks)

module _ (limit window clock now : ℕ) (stored passed : List ℕ) (le : clock ≤ now)
    (v : IsTracked limit window clock stored passed) where
  idle-IsTracked : IsTracked limit window now stored passed
  idle-IsTracked = record {
    past = later clock now passed le v.past;
    same = λ t h. v.same t (omega (arith, le, h));
    bound = v.bound;
  }

  refused-IsTracked : IsTracked limit window now (select_all (is_recent window now) stored) passed
  refused-IsTracked = record {
    past = later clock now passed le v.past;
    same = λ t h. keep-recent window now t stored h ∙ v.same t (omega (arith, le, h));
    bound = v.bound;
  }

  passed-IsTracked :
      leb limit (length (select_all (is_recent window now) stored)) ≡ false
      → IsTracked limit window now
          (select_all (is_recent window now) stored ++ now ∷ [])
          (now ∷ passed)
  passed-IsTracked room = record {
    past = (omega arith, later clock now passed le v.past);
    same = λ t h. omega (
      arith,
      count-append (is_recent window t) (select_all (is_recent window now) stored) (now ∷ []),
      keep-recent window now t stored h,
      v.same t (omega (arith, le, h)),
    );
    bound = λ t. ground (
      arith,
      v.bound t,
      within-recent window now t passed,
      v.same now le,
      length-select_all (is_recent window now) stored,
      room,
    );
  }

-- What is known of a run: its settings, and every key.
record IsKept (limit window : ℕ) (r : Run) : Type 0 where
  limit_is : r.limiter.limit ≡ limit
  window_is : r.limiter.window ≡ window
  tracked : (key : String) → IsTracked limit window r.clock (r.limiter.count key) (r.passed key)

same_text : (s t : String) → str_eq s t ≡ true → s ≡ t
same_text s t h = (eq_iff s t).0 h

module _ (limit window : ℕ) (key : String) (now : ℕ) (r : Run) (le : r.clock ≤ now)
    (v : IsKept limit window r) where
  refused-key :
      (key' : String)
      → IsTracked limit window now
          (store key (select_all (is_recent window now) (r.limiter.count key)) r.limiter.count key')
          (r.passed key')
  refused-key key' = elim (Bool-cases (str_eq key key')) [
    | inl same ↦ rw same (
        subst
          (λ k.
            IsTracked limit window now (select_all (is_recent window now) (r.limiter.count key))
              (r.passed k))
          (same_text key key' same)
          (refused-IsTracked limit window r.clock now _ _ le (v.tracked key)))
    | inr other ↦ rw other (idle-IsTracked limit window r.clock now _ _ le (v.tracked key'))
  ]

  passed-key :
      leb limit (length (select_all (is_recent window now) (r.limiter.count key))) ≡ false
      → (key' : String)
      → IsTracked limit window now
          (store key
            (select_all (is_recent window now) (r.limiter.count key) ++ now ∷ [])
            r.limiter.count
            key')
          (store key (now ∷ r.passed key) r.passed key')
  passed-key room key' = elim (Bool-cases (str_eq key key')) [
    | inl same ↦ rw same (passed-IsTracked limit window r.clock now _ _ le (v.tracked key) room)
    | inr other ↦ rw other (idle-IsTracked limit window r.clock now _ _ le (v.tracked key'))
  ]

  ask-IsKept : IsKept limit window (ask key now r)
  unfolding allow_memory
  ask-IsKept =
      elim (Bool-cases (
        leb r.limiter.limit
          (length (select_all (is_recent r.limiter.window now) (r.limiter.count key))))) [
            | inl full ↦
                rw (full, allow_memory)
                  record {
                    limit_is = v.limit_is;
                    window_is = v.window_is;
                    tracked = rw v.window_is refused-key;
                  }
            | inr room ↦
                rw (room, allow_memory)
                  record {
                    limit_is = v.limit_is;
                    window_is = v.window_is;
                    tracked = rw v.window_is (passed-key (rw (v.window_is, v.limit_is) at room));
                  }
          ]

reached :
    (per_minute : ℕ) {r : Run}
    → RunReach per_minute r
    → IsKept (new_limiter per_minute).limit (new_limiter per_minute).window r
unfolding new_limiter
reached per_minute (starts clock) = record {
  limit_is = refl;
  window_is = refl;
  tracked = λ key. record { past = tt; same = λ now h. refl; bound = λ t. omega arith };
}
reached per_minute (asks {r} key now h le) = ask-IsKept _ _ key now r le (reached per_minute h)

-- In no stretch of time of the window's length, one minute, does a key have more requests let through
-- than the limit, whatever requests came in whatever order of keys; the limit is the one that was
-- asked for, or 120 where none was.
pub RunReach-bound :
    (per_minute : ℕ) {r : Run}
    → RunReach per_minute r
    → (key : String) (t : ℕ)
    → count (is_within (new_limiter per_minute).window t) (r.passed key)
      ≤ (new_limiter per_minute).limit
RunReach-bound per_minute h key t = ((reached per_minute h).tracked key).bound t
