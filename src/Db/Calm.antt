-- ===== src/Db/Calm.antt =====
-- Reasoning about a method while no query fails: `Calm T m Q R` says that from the tables of the calls
-- `T` the method ends in a value and tables that fit `Q`, or in an error that the method itself means
-- and tables that fit `R`. `Steady m` says that a method run by then leaves no failure due.
use brenox_engine.Base.{ℕ, Bool, true, false, [], Option, none, some, ◌≡◌, refl, ◌∙◌, if◌then◌else◌}
use brenox_engine.Base.Monad.{Result, ok, err, pure, raise, ◌>>=◌}
use brenox_engine.Db.Errors.{Error, no_rows}
use brenox_engine.Db.Rooms.{Rooms}
use brenox_engine.Db.Signals.{Signal}
use brenox_engine.Db.State.{
  Db, M, rooms, query, read, read_all, write, optional, no_rows_is, or_no_rows, send, clock,
  attempt, value_or_none, found_or_none, instead, or_raise, or_raise,
}
use brenox_engine.Db.Triple.{Frame, Answers, Optional, Instead}

module _ {A : Type 0} where
  abbrev pub Rest : (A → Rooms → Type 0) → (Error → Rooms → Type 0) → Result Error A × Db → Type 0
  Rest Q R (ok a, d) = (d.faults ≡ []) × Q a d.rooms
  Rest Q R (err e, d) = (d.faults ≡ []) × R e d.rooms

  pub record Calm (T : Rooms) (m : M A) (Q : A → Rooms → Type 0) (R : Error → Rooms → Type 0)
      : Type 0 where
    pub run : (d : Db) → d.rooms ≡ T → d.faults ≡ [] → Rest Q R (m d)

  pub record Steady (m : M A) : Type 0 where
    pub run : (d : Db) → d.faults ≡ [] → (m d).1.faults ≡ []

module _ {A : Type 0} {T : Rooms} {Q : A → Rooms → Type 0} {R : Error → Rooms → Type 0} where
  pub Calm-pure : (a : A) → Q a T → Calm T (pure a) Q R
  unfolding pure
  Calm-pure a q = record { run = λ d e f. (f, rw e q) }

  pub Calm-read : (f : Rooms → Option A) (a : A) → f T ≡ some a → Q a T → Calm T (read rooms f) Q R
  unfolding read query
  Calm-read f a found q = record { run = λ d e h. rw (h, query, e, found) (h, q) }

  pub Calm-read_all : (f : Rooms → A) → Q (f T) T → Calm T (read_all rooms f) Q R
  unfolding read_all query
  Calm-read_all f q = record { run = λ d e h. rw (h, query) (h, rw e q) }

  pub Calm-write :
      (f : ℕ → Rooms → Result Error A × Rooms)
      → ((now : ℕ) → Answers Q R (f now T))
      → Calm T (write rooms f) Q R
  unfolding write query
  Calm-write f k = record {
    run = λ d e h. rw (h, query) (store (f d.now d.rooms) d h (rw e (k d.now)));
  }
    where
      store :
          (p : Result Error A × Rooms) (d : Db)
          → d.faults ≡ []
          → Answers Q R p
          → Rest Q R (p.0, record d { rooms = p.1 })
      store (ok a, T') d h k = (h, k)
      store (err x, T') d h k = (h, k)

  pub Calm-no_rows_is :
      {m : M A} (e : Error) → Calm T m Q (Instead e R) → Calm T (no_rows_is e m) Q R
  unfolding no_rows_is
  Calm-no_rows_is {m} e h = record { run = λ d p q. settle (m d) (h.run d p q) }
    where
      settle : (p : Result Error A × Db) → Rest Q (Instead e R) p → Rest Q R (instead e p)
      settle (ok a, d) k = k
      settle (err no_rows, d) k = k
      settle (err _, d) k = k

module _ {A : Type 0} {T : Rooms} {R : Error → Rooms → Type 0} where
  pub Calm-bind :
      {B : Type 0} {Q : B → Rooms → Type 0} {m : M A} {f : A → M B}
      → Calm T m (λ a T'. Calm T' (f a) Q R) R
      → Calm T (m >>= f) Q R
  unfolding ◌>>=◌
  Calm-bind {B} {Q} {m} {f} h = record { run = λ d e q. chain (m d) (h.run d e q) }
    where
      chain :
          (p : Result Error A × Db)
          → Rest (λ a T'. Calm T' (f a) Q R) R p
          → Rest Q R (elim p.0 [ ok a ↦ f a p.1 | err x ↦ (err x, p.1) ])
      chain (ok a, d) (h, k) = k.run d refl h
      chain (err x, d) k = k

  pub Calm-optional :
      {Q : Option A → Rooms → Type 0} {m : M A}
      → Calm T m (λ a T'. Q (some a) T') (Optional Q R)
      → Calm T (optional m) Q R
  unfolding optional
  Calm-optional {Q} {m} h = record { run = λ d e q. settle (m d) (h.run d e q) }
    where
      settle :
          (p : Result Error A × Db)
          → Rest (λ a T'. Q (some a) T') (Optional Q R) p
          → Rest Q R (found_or_none p)
      settle (ok a, d) k = k
      settle (err no_rows, d) k = k
      settle (err _, d) k = k

  -- A method that leaves these tables alone.
  pub Calm-frame :
      {Q : A → Rooms → Type 0} {m : M A}
      → Frame rooms m
      → Steady m
      → ((a : A) → Q a T)
      → ((e : Error) → R e T)
      → Calm T m Q R
  Calm-frame {Q} {m} same quiet q r = record {
    run = λ d e h. settle (m d) (same.run d ∙ e) (quiet.run d h);
  }
    where
      settle : (p : Result Error A × Db) → p.1.rooms ≡ T → p.1.faults ≡ [] → Rest Q R p
      settle (ok a, d) e h = (h, rw e (q a))
      settle (err x, d) e h = (h, rw e (r x))

  -- A call whose error is dropped.
  pub Calm-attempt :
      {Q : Option A → Rooms → Type 0} {m : M A}
      → Frame rooms m
      → Steady m
      → ((o : Option A) → Q o T)
      → Calm T (attempt m) Q R
  unfolding attempt
  Calm-attempt {Q} {m} same quiet q = record {
    run = λ d e h. settle (m d) (same.run d ∙ e) (quiet.run d h);
  }
    where
      settle :
          (p : Result Error A × Db) → p.1.rooms ≡ T → p.1.faults ≡ [] → Rest Q R (value_or_none p)
      settle (ok a, d) e h = (h, rw e (q (some a)))
      settle (err x, d) e h = (h, rw e (q none))

  pub Calm-weaken :
      {m : M A} (Q Q' : A → Rooms → Type 0)
      → Calm T m Q R
      → ((a : A) (T' : Rooms) → Q a T' → Q' a T')
      → Calm T m Q' R
  Calm-weaken {m} Q Q' h q = record { run = λ d e f. settle (m d) (h.run d e f) }
    where
      settle : (p : Result Error A × Db) → Rest Q R p → Rest Q' R p
      settle (ok a, d) (h, k) = (h, q a _ k)
      settle (err x, d) k = k

module _ {T : Rooms} {R : Error → Rooms → Type 0} where
  pub Calm-send : {Q : Unit {0} → Rooms → Type 0} (s : Signal) → Q tt T → Calm T (send s) Q R
  unfolding send
  Calm-send s q = record { run = λ d e h. (h, rw e q) }

  pub Calm-clock : {Q : ℕ → Rooms → Type 0} → ((now : ℕ) → Q now T) → Calm T clock Q R
  unfolding clock
  Calm-clock q = record { run = λ d e h. (h, rw e (q d.now)) }

module _ {A : Type 0} {T : Rooms} {Q : A → Rooms → Type 0} {R : Error → Rooms → Type 0} where
  pub Calm-if :
      (c : Bool) (m n : M A)
      → (c ≡ true → Calm T m Q R)
      → (c ≡ false → Calm T n Q R)
      → Calm T (if c then m else n) Q R
  Calm-if true m n h k = h refl
  Calm-if false m n h k = k refl

module _ {A : Type 0} {T : Rooms} {R : Error → Rooms → Type 0} where
  pub Calm-raise : {Q : A → Rooms → Type 0} (x : Error) → R x T → Calm T (raise x) Q R
  unfolding raise
  Calm-raise x r = record { run = λ d e h. (h, rw e r) }

  pub Calm-optional_read :
      {Q : Option A → Rooms → Type 0} (f : Rooms → Option A)
      → ((o : Option A) → f T ≡ o → Q o T)
      → Calm T (optional (read rooms f)) Q R
  unfolding optional read query
  Calm-optional_read {Q} f q = record {
    run = λ d e h. rw (h, query) (look (f d.rooms) d h (rw e (q (f T) refl)));
  }
    where
      look :
          (o : Option A) (d : Db)
          → d.faults ≡ []
          → Q o d.rooms
          → Rest Q R (found_or_none (or_no_rows o d))
      look none d h k = (h, k)
      look (some a) d h k = (h, k)

pub Calm-or_raise :
    {A : Type 0} {T : Rooms} {Q : A → Rooms → Type 0} {R : Error → Rooms → Type 0} {o : Option A}
    {a : A} (x : Error)
    → o ≡ some a
    → Q a T
    → Calm T (or_raise o x) Q R
unfolding or_raise
Calm-or_raise x known q = rw known (record { run = λ d e h. (h, rw e q) })
