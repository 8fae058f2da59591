-- ===== src/Db/Frame.antt =====
-- Methods that leave a group of tables alone, built from such methods.
use brenox_engine.Base.{
  Bool, true, false, List, [], ◌∷◌, Option, none, some, ◌≡◌, refl, ◌∙◌, ℕ, ap, if◌then◌else◌,
}
use brenox_engine.Base.Monad.{Result, ok, err, pure, raise, ◌>>=◌}
use brenox_engine.Db.Errors.{Error}
use brenox_engine.Db.Signals.{Signal}
use brenox_engine.Db.State.{
  Db, M, Table, query, read, read_all, write, or_no_rows, send, attempt, value_or_none, on_error,
  convert, optional, found_or_none, no_rows_is, instead, raise_if, or_raise, clock,
}
use brenox_engine.Db.Triple.{Frame}

or_no_rows-state : {A : Type 0} (o : Option A) (d : Db) → (or_no_rows o d).1 ≡ d
or_no_rows-state none d = refl
or_no_rows-state (some a) d = refl

module _ {V : Type 0} {t : Table V} {A : Type 0} where
  pub Frame-bind :
      {B : Type 0} (m : M A) (f : A → M B)
      → Frame t m
      → ((a : A) → Frame t (f a))
      → Frame t (m >>= f)
  unfolding ◌>>=◌
  Frame-bind {B} m f h k = record { run = λ d. chain (m d) ∙ h.run d }
    where
      chain :
          (p : Result Error A × Db)
          → t.get
              (elim p.0 as (λ x. Result Error B × Db) [ ok a ↦ f a p.1 | err x ↦ (err x, p.1) ]).1
            ≡ t.get p.1
      chain (ok a, d) = (k a).run d
      chain (err x, d) = refl

  pub Frame-pure : (a : A) → Frame t (pure a)
  unfolding pure
  Frame-pure a = record { run = λ d. refl }

  pub Frame-raise : (x : Error) → Frame t {A = A} (raise x)
  unfolding raise
  Frame-raise x = record { run = λ d. refl }

  pub Frame-attempt : (m : M A) → Frame t m → Frame t (attempt m)
  unfolding attempt
  Frame-attempt m h = record { run = λ d. settle (m d) ∙ h.run d }
    where
      settle : (p : Result Error A × Db) → t.get (value_or_none p).1 ≡ t.get p.1
      settle (ok a, d) = refl
      settle (err x, d) = refl

  pub Frame-on_error : (g : Error → Error) (m : M A) → Frame t m → Frame t (on_error g m)
  unfolding on_error
  Frame-on_error g m h = record { run = λ d. settle (m d) ∙ h.run d }
    where
      settle : (p : Result Error A × Db) → t.get (convert g p).1 ≡ t.get p.1
      settle (ok a, d) = refl
      settle (err x, d) = refl

  Frame-query : (q : M A) → Frame t q → Frame t (query q)
  unfolding query
  Frame-query q h = record { run = λ d. draw d.faults d refl }
    where
      draw : (fs : List Bool) (d : Db) → d.faults ≡ fs → t.get (query q d).1 ≡ t.get d
      draw [] d f = simp (f, query) (h.run d)
      draw (true ∷ fs) d f = simp (f, query) (t.get-faults fs d)
      draw (false ∷ fs) d f = simp (f, query) (h.run _ ∙ t.get-faults fs d)

  module _ {W : Type 0} (u : Table W) where
    pub Frame-read : (f : W → Option A) → Frame t (read u f)
    unfolding read
    Frame-read f = Frame-query _ (record { run = λ d. ap t.get (or_no_rows-state (f (u.get d)) d) })

    pub Frame-read_all : (f : W → A) → Frame t (read_all u f)
    unfolding read_all
    Frame-read_all f = Frame-query _ (record { run = λ d. refl })

    -- A write into other tables.
    pub Frame-write :
        (f : ℕ → W → Result Error A × W)
        → ((w : W) (d : Db) → t.get (u.put w d) ≡ t.get d)
        → Frame t (write u f)
    unfolding write
    Frame-write f h = Frame-query _ (record { run = λ d. h _ d })

  pub Frame-optional : (m : M A) → Frame t m → Frame t (optional m)
  unfolding optional
  Frame-optional m h = record { run = λ d. settle (m d) ∙ h.run d }
    where
      settle : (p : Result Error A × Db) → t.get (found_or_none p).1 ≡ t.get p.1
      settle (ok a, d) = refl
      settle (err Error.no_rows, d) = refl
      settle (err _, d) = refl

  pub Frame-no_rows_is : (e : Error) (m : M A) → Frame t m → Frame t (no_rows_is e m)
  unfolding no_rows_is
  Frame-no_rows_is e m h = record { run = λ d. settle (m d) ∙ h.run d }
    where
      settle : (p : Result Error A × Db) → t.get (instead e p).1 ≡ t.get p.1
      settle (ok a, d) = refl
      settle (err Error.no_rows, d) = refl
      settle (err _, d) = refl

  pub Frame-or_raise : (o : Option A) (e : Error) → Frame t (or_raise o e)
  unfolding or_raise
  Frame-or_raise none e = record { run = λ d. refl }
  Frame-or_raise (some a) e = record { run = λ d. refl }

module _ {V : Type 0} {t : Table V} where
  pub Frame-raise_if : (c : Bool) (e : Error) → Frame t (raise_if c e)
  unfolding raise_if
  Frame-raise_if c e = record { run = λ d. refl }

  pub Frame-clock : Frame t clock
  unfolding clock
  Frame-clock = record { run = λ d. refl }

  pub Frame-if :
      {A : Type 0} (c : Bool) (m n : M A) → Frame t m → Frame t n → Frame t (if c then m else n)
  Frame-if true m n h k = h
  Frame-if false m n h k = k

  pub Frame-send :
      (s : Signal)
      → ((ss : List Signal) (d : Db) → t.get (record d { sent = ss }) ≡ t.get d)
      → Frame t (send s)
  unfolding send
  Frame-send s h = record { run = λ d. h _ d }
