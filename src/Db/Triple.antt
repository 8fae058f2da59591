-- ===== src/Db/Triple.antt =====
-- Reasoning about a method on one group of tables: `Triple t T m Q R` says that from tables `T` the
-- method `m` ends in a value and tables that fit `Q`, or in an error and tables that fit `R`,
-- whatever the other tables hold and whichever queries fail.
use brenox_engine.Base.{ℕ, Bool, true, false, List, [], ◌∷◌, Option, none, some, ◌≡◌, refl, ◌∙◌}
use brenox_engine.Base.Monad.{Result, ok, err, pure, raise, ◌>>=◌}
use brenox_engine.Db.Errors.{Error, no_rows, database_failed}
use brenox_engine.Db.State.{
  Db, M, Table, query, read, read_all, write, optional, no_rows_is, or_no_rows, found_or_none,
  instead, raise_if,
}

module _ {V : Type 0} (t : Table V) {A : Type 0} where
  abbrev pub Post : (A → V → Type 0) → (Error → V → Type 0) → Result Error A × Db → Type 0
  Post Q R (ok a, d) = Q a (t.get d)
  Post Q R (err e, d) = R e (t.get d)

  pub record Triple (T : V) (m : M A) (Q : A → V → Type 0) (R : Error → V → Type 0) : Type 0 where
    pub run : (d : Db) → t.get d ≡ T → Post Q R (m d)

  -- The method leaves this group of tables alone.
  pub record Frame (m : M A) : Type 0 where
    pub run : (d : Db) → t.get (m d).1 ≡ t.get d

-- What an UPDATE or INSERT answers, with the tables that it leaves.
abbrev pub Answers :
    {V A : Type 0} → (A → V → Type 0) → (Error → V → Type 0) → Result Error A × V → Type 0
Answers P S (ok a, T') = P a T'
Answers P S (err x, T') = S x T'

-- What an error stands for under `optional` and `no_rows_is`.
abbrev pub Optional :
    {V A : Type 0} → (Option A → V → Type 0) → (Error → V → Type 0) → Error → V → Type 0
Optional Q R no_rows T = Q none T
Optional Q R x T = R x T

abbrev pub Instead : {V : Type 0} → Error → (Error → V → Type 0) → Error → V → Type 0
Instead e R no_rows T = R e T
Instead e R x T = R x T

module _ {V : Type 0} {t : Table V} {A : Type 0} {T : V} {Q : A → V → Type 0}
    {R : Error → V → Type 0} where
  pub Triple-pure : (a : A) → Q a T → Triple t T (pure a) Q R
  unfolding pure
  Triple-pure a q = record { run = λ d e. rw e q }

  pub Triple-raise : (x : Error) → R x T → Triple t T (raise x) Q R
  unfolding raise
  Triple-raise x r = record { run = λ d e. rw e r }

  pub Triple-frame :
      {m : M A} → Frame t m → ((a : A) → Q a T) → ((x : Error) → R x T) → Triple t T m Q R
  Triple-frame {m} same q r = record { run = λ d e. settle (m d) (same.run d ∙ e) }
    where
      settle : (p : Result Error A × Db) → t.get p.1 ≡ T → Post t Q R p
      settle (ok a, d) e = rw e (q a)
      settle (err x, d) e = rw e (r x)

  -- A query that fails for the server's own reasons, or runs.
  Triple-query : (q : M A) → R database_failed T → Triple t T q Q R → Triple t T (query q) Q R
  unfolding query
  Triple-query q r h = record { run = λ d e. draw d.faults d e refl }
    where
      draw : (fs : List Bool) (d : Db) → t.get d ≡ T → d.faults ≡ fs → Post t Q R (query q d)
      draw [] d e f = rw (f, query) (h.run d e)
      draw (true ∷ fs) d e f = rw (f, query) (rw (t.get-faults fs d, e) r)
      draw (false ∷ fs) d e f = rw (f, query) (h.run _ (t.get-faults fs d ∙ e))

  pub Triple-read :
      (f : V → Option A)
      → ((a : A) → f T ≡ some a → Q a T)
      → (f T ≡ none → R no_rows T)
      → R database_failed T
      → Triple t T (read t f) Q R
  unfolding read
  Triple-read f q n r =
      Triple-query _ r (record { run = λ d e. look (f (t.get d)) d e (rw e refl) })
    where
      look : (o : Option A) (d : Db) → t.get d ≡ T → f T ≡ o → Post t Q R (or_no_rows o d)
      look none d e h = rw e (n h)
      look (some a) d e h = rw e (q a h)

  pub Triple-read_all :
      (f : V → A) → Q (f T) T → R database_failed T → Triple t T (read_all t f) Q R
  unfolding read_all
  Triple-read_all f q r = Triple-query _ r (record { run = λ d e. rw e q })

  pub Triple-write :
      (f : ℕ → V → Result Error A × V)
      → ((now : ℕ) → Answers Q R (f now T))
      → R database_failed T
      → Triple t T (write t f) Q R
  unfolding write
  Triple-write f h r =
      Triple-query _ r (record { run = λ d e. store (f d.now (t.get d)) d (rw e (h d.now)) })
    where
      store : (p : Result Error A × V) (d : Db) → Answers Q R p → Post t Q R (p.0, t.put p.1 d)
      store (ok a, T') d h = rw (t.get-put T' d) h
      store (err x, T') d h = rw (t.get-put T' d) h

module _ {V : Type 0} {t : Table V} {A : Type 0} {T : V} {R : Error → V → Type 0} where
  pub Triple-bind :
      {B : Type 0} {Q : B → V → Type 0} {m : M A} {f : A → M B}
      → Triple t T m (λ a T'. Triple t T' (f a) Q R) R
      → Triple t T (m >>= f) Q R
  unfolding ◌>>=◌
  Triple-bind {B} {Q} {m} {f} h = record { run = λ d e. chain (m d) (h.run d e) }
    where
      chain :
          (p : Result Error A × Db)
          → Post t (λ a T'. Triple t T' (f a) Q R) R p
          → Post t Q R (elim p.0 [ ok a ↦ f a p.1 | err x ↦ (err x, p.1) ])
      chain (ok a, d) k = k.run d refl
      chain (err x, d) k = k

-- The two idioms on pgx.ErrNoRows, and an error that is dropped.
module _ {V : Type 0} {t : Table V} {A : Type 0} {T : V} {R : Error → V → Type 0} where
  pub Triple-optional :
      {Q : Option A → V → Type 0} {m : M A}
      → Triple t T m (λ a T'. Q (some a) T') (Optional Q R)
      → Triple t T (optional m) Q R
  unfolding optional
  Triple-optional {Q} {m} h = record { run = λ d e. settle (m d) (h.run d e) }
    where
      settle :
          (p : Result Error A × Db)
          → Post t (λ a T'. Q (some a) T') (Optional Q R) p
          → Post t Q R (found_or_none p)
      settle (ok a, d) k = k
      settle (err no_rows, d) k = k
      settle (err _, d) k = k

  pub Triple-no_rows_is :
      {Q : A → V → Type 0} {m : M A} (e : Error)
      → Triple t T m Q (Instead e R)
      → Triple t T (no_rows_is e m) Q R
  unfolding no_rows_is
  Triple-no_rows_is {Q} {m} e h = record { run = λ d q. settle (m d) (h.run d q) }
    where
      settle : (p : Result Error A × Db) → Post t Q (Instead e R) p → Post t Q R (instead e p)
      settle (ok a, d) k = k
      settle (err no_rows, d) k = k
      settle (err _, d) k = k

module _ {V : Type 0} {t : Table V} {A : Type 0} {T : V} {m : M A} where
  pub Triple-weaken :
      (Q Q' : A → V → Type 0) (R R' : Error → V → Type 0)
      → Triple t T m Q R
      → ((a : A) (T' : V) → Q a T' → Q' a T')
      → ((e : Error) (T' : V) → R e T' → R' e T')
      → Triple t T m Q' R'
  Triple-weaken Q Q' R R' h q r = record { run = λ d e. settle (m d) (h.run d e) }
    where
      settle : (p : Result Error A × Db) → Post t Q R p → Post t Q' R' p
      settle (ok a, d) k = q a _ k
      settle (err x, d) k = r x _ k

module _ {V : Type 0} {t : Table V} {T : V} {Q : Unit {0} → V → Type 0}
    {R : Error → V → Type 0} where
  pub Triple-raise_if :
      (c : Bool) (e : Error)
      → (c ≡ false → Q tt T)
      → (c ≡ true → R e T)
      → Triple t T (raise_if c e) Q R
  unfolding raise_if
  Triple-raise_if true e q r = record { run = λ d h. rw h (r refl) }
  Triple-raise_if false e q r = record { run = λ d h. rw h (q refl) }
