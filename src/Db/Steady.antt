-- ===== src/Db/Steady.antt =====
-- Methods that leave no failure due, built from such methods.
use brenox_engine.Base.{ℕ, Bool, true, false, [], Option, none, some, ◌≡◌, ◌∙◌, if◌then◌else◌}
use brenox_engine.Base.Monad.{Result, ok, err, pure, ◌>>=◌}
use brenox_engine.Db.Errors.{Error, no_rows}
use brenox_engine.Db.Signals.{Signal}
use brenox_engine.Db.State.{
  Db, M, Table, query, read, read_all, write, optional, no_rows_is, or_no_rows, attempt,
  value_or_none, found_or_none, instead, raise_if, on_error, convert, send,
}
use brenox_engine.Db.Calm.{Steady}

module _ {A : Type 0} where
  pub Steady-pure : (a : A) → Steady (pure a)
  unfolding pure
  Steady-pure a = record { run = λ d h. h }

  pub Steady-bind :
      {B : Type 0} (m : M A) (f : A → M B) → Steady m → ((a : A) → Steady (f a)) → Steady (m >>= f)
  unfolding ◌>>=◌
  Steady-bind {B} m f h k = record { run = λ d q. chain (m d) (h.run d q) }
    where
      chain :
          (p : Result Error A × Db)
          → p.1.faults ≡ []
          → (elim p.0 as (λ x. Result Error B × Db) [
            | ok a ↦ f a p.1
            | err x ↦ (err x, p.1)
          ]).1.faults
            ≡ []
      chain (ok a, d) h = (k a).run d h
      chain (err x, d) h = h

  pub Steady-optional : (m : M A) → Steady m → Steady (optional m)
  unfolding optional
  Steady-optional m h = record { run = λ d q. settle (m d) (h.run d q) }
    where
      settle : (p : Result Error A × Db) → p.1.faults ≡ [] → (found_or_none p).1.faults ≡ []
      settle (ok a, d) h = h
      settle (err no_rows, d) h = h
      settle (err _, d) h = h

  pub Steady-no_rows_is : (e : Error) (m : M A) → Steady m → Steady (no_rows_is e m)
  unfolding no_rows_is
  Steady-no_rows_is e m h = record { run = λ d q. settle (m d) (h.run d q) }
    where
      settle : (p : Result Error A × Db) → p.1.faults ≡ [] → (instead e p).1.faults ≡ []
      settle (ok a, d) h = h
      settle (err no_rows, d) h = h
      settle (err _, d) h = h

  pub Steady-on_error : (g : Error → Error) (m : M A) → Steady m → Steady (on_error g m)
  unfolding on_error
  Steady-on_error g m h = record { run = λ d q. settle (m d) (h.run d q) }
    where
      settle : (p : Result Error A × Db) → p.1.faults ≡ [] → (convert g p).1.faults ≡ []
      settle (ok a, d) h = h
      settle (err x, d) h = h

  pub Steady-attempt : (m : M A) → Steady m → Steady (attempt m)
  unfolding attempt
  Steady-attempt m h = record { run = λ d q. settle (m d) (h.run d q) }
    where
      settle : (p : Result Error A × Db) → p.1.faults ≡ [] → (value_or_none p).1.faults ≡ []
      settle (ok a, d) h = h
      settle (err x, d) h = h

  pub Steady-if : (c : Bool) (m n : M A) → Steady m → Steady n → Steady (if c then m else n)
  Steady-if true m n h k = h
  Steady-if false m n h k = k

  module _ {W : Type 0} (u : Table W) where
    pub Steady-read : (f : W → Option A) → Steady (read u f)
    unfolding read query
    Steady-read f = record { run = λ d h. rw (h, query) (look (f (u.get d)) d h) }
      where
        look : (o : Option A) (d : Db) → d.faults ≡ [] → (or_no_rows o d).1.faults ≡ []
        look none d h = h
        look (some a) d h = h

    pub Steady-read_all : (f : W → A) → Steady (read_all u f)
    unfolding read_all query
    Steady-read_all f = record { run = λ d h. rw (h, query) h }

    pub Steady-write :
        (f : ℕ → W → Result Error A × W)
        → ((w : W) (d : Db) → (u.put w d).faults ≡ d.faults)
        → Steady (write u f)
    unfolding write query
    Steady-write f k = record { run = λ d h. rw (h, query) (k _ d ∙ h) }

pub Steady-raise_if : (c : Bool) (e : Error) → Steady (raise_if c e)
unfolding raise_if
Steady-raise_if c e = record { run = λ d h. h }

pub Steady-send : (s : Signal) → Steady (send s)
unfolding send
Steady-send s = record { run = λ d h. h }
