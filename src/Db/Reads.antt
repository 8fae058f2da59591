-- ===== src/Db/Reads.antt =====
-- The rules for a SELECT under the two idioms on pgx.ErrNoRows, and for an error that is turned into
-- another.
use brenox_engine.Base.{◌≡◌, refl, ◌∙◌, Option, none, some, List, ◌∷◌}
use brenox_engine.Db.Signals.{Signal}
use brenox_engine.Base.Monad.{Result, ok, err}
use brenox_engine.Db.Errors.{Error, database_failed}
use brenox_engine.Db.State.{
  Db, M, Table, read, optional, no_rows_is, on_error, convert, or_raise, attempt, value_or_none,
  send,
}
use brenox_engine.Db.Triple.{Frame, Triple, Post, Triple-read, Triple-optional, Triple-no_rows_is}

module _ {V : Type 0} {t : Table V} {T : V} {R : Error → V → Type 0} where
  pub Triple-optional_read :
      {A : Type 0} {Q : Option A → V → Type 0} (f : V → Option A)
      → ((o : Option A) → f T ≡ o → Q o T)
      → R database_failed T
      → Triple t T (optional (read t f)) Q R
  Triple-optional_read f q r =
      Triple-optional (Triple-read f (λ a e. q (some a) e) (λ e. q none e) r)

  pub Triple-required_read :
      {A : Type 0} {Q : A → V → Type 0} (f : V → Option A) (e : Error)
      → ((a : A) → f T ≡ some a → Q a T)
      → ((x : Error) → R x T)
      → Triple t T (no_rows_is e (read t f)) Q R
  Triple-required_read f e q r =
      Triple-no_rows_is e (Triple-read f q (λ _. r e) (r database_failed))

  pub Triple-on_error :
      {A : Type 0} {Q : A → V → Type 0} {m : M A} (g : Error → Error)
      → Triple t T m Q (λ x T'. R (g x) T')
      → Triple t T (on_error g m) Q R
  unfolding on_error
  Triple-on_error {A} {Q} {m} g h = record { run = λ d e. settle (m d) (h.run d e) }
    where
      settle :
          (p : Result Error A × Db) → Post t Q (λ x T'. R (g x) T') p → Post t Q R (convert g p)
      settle (ok a, d) k = k
      settle (err x, d) k = k

  pub Triple-or_raise :
      {A : Type 0} {Q : A → V → Type 0} (o : Option A) (e : Error)
      → ((a : A) → o ≡ some a → Q a T)
      → R e T
      → Triple t T (or_raise o e) Q R
  unfolding or_raise
  Triple-or_raise none e q r = record { run = λ d h. rw h r }
  Triple-or_raise (some a) e q r = record { run = λ d h. rw h (q a refl) }

  -- A call whose error is dropped, of a method that leaves these tables alone.
  pub Triple-attempt :
      {A : Type 0} {Q : Option A → V → Type 0} {m : M A}
      → Frame t m
      → ((o : Option A) → Q o T)
      → Triple t T (attempt m) Q R
  unfolding attempt
  Triple-attempt {A} {Q} {m} same q = record { run = λ d e. settle (m d) (same.run d ∙ e) }
    where
      settle : (p : Result Error A × Db) → t.get p.1 ≡ T → Post t Q R (value_or_none p)
      settle (ok a, d) e = rw e (q (some a))
      settle (err x, d) e = rw e (q none)

  -- ... and of one that does not.
  pub Triple-attempted :
      {A : Type 0} {Q : Option A → V → Type 0} {m : M A}
      → Triple t T m (λ a T'. Q (some a) T') (λ e T'. Q none T')
      → Triple t T (attempt m) Q R
  unfolding attempt
  Triple-attempted {A} {Q} {m} h = record { run = λ d e. settle (m d) (h.run d e) }
    where
      settle :
          (p : Result Error A × Db)
          → Post t (λ a T'. Q (some a) T') (λ e T'. Q none T') p
          → Post t Q R (value_or_none p)
      settle (ok a, d) k = k
      settle (err x, d) k = k

  pub Triple-send :
      {Q : Unit {0} → V → Type 0} (s : Signal)
      → ((ss : List Signal) (d : Db) → t.get (record d { sent = ss }) ≡ t.get d)
      → Q tt T
      → Triple t T (send s) Q R
  unfolding send
  Triple-send s h q = record { run = λ d e. rw (h (s ∷ d.sent) d, e) q }
