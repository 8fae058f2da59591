-- ===== src/Db/State.antt =====
-- The state that a service method runs on, and the shapes of a query.
use brenox_engine.Base.{
  ℕ, Bool, true, false, List, [], ◌∷◌, Option, none, some, ◌≡◌, refl, if◌then◌else◌,
}
use brenox_engine.Base.Monad.{Result, ok, err, Action}
use brenox_engine.Db.Errors.{Error, no_rows, database_failed}
use brenox_engine.Db.Signals.{Signal}
use brenox_engine.Db.Rooms.{Rooms}
use brenox_engine.Db.Org.{Org}
use brenox_engine.Db.Accounts.{Accounts}

pub record Db : Type 0 where
  pub rooms : Rooms
  pub org : Org
  pub accounts : Accounts
  -- newest first
  pub sent : List Signal
  pub now : ℕ
  pub faults : List Bool

abbrev pub M : Type 0 → Type 0
M A = Action Db Error A

-- One group of tables: how a query reads it and writes it back.
pub record Table (V : Type 0) : Type 0 where
  pub get : Db → V
  pub put : V → Db → Db
  pub get-put : (v : V) (d : Db) → get (put v d) ≡ v
  pub get-faults : (fs : List Bool) (d : Db) → get (record d { faults = fs }) ≡ get d

abbrev pub rooms : Table Rooms
rooms = record {
  get = λ d. d.rooms;
  put = λ v d. record d { rooms = v };
  get-put = λ v d. refl;
  get-faults = λ fs d. refl;
}

abbrev pub org : Table Org
org = record {
  get = λ d. d.org;
  put = λ v d. record d { org = v };
  get-put = λ v d. refl;
  get-faults = λ fs d. refl;
}

abbrev pub accounts : Table Accounts
accounts = record {
  get = λ d. d.accounts;
  put = λ v d. record d { accounts = v };
  get-put = λ v d. refl;
  get-faults = λ fs d. refl;
}

-- A query meets the next fault, if one is due.
unfoldable pub query : {A : Type 0} → M A → M A
query q d = elim d.faults [
  | [] ↦ q d
  | true ∷ fs ↦ (err database_failed, record d { faults = fs })
  | false ∷ fs ↦ q (record d { faults = fs })
]

abbrev pub or_no_rows : {A : Type 0} → Option A → Db → Result Error A × Db
or_no_rows none d = (err no_rows, d)
or_no_rows (some a) d = (ok a, d)

module _ {V A : Type 0} where
  -- `:one`, a SELECT that may find nothing
  unfoldable pub read : Table V → (V → Option A) → M A
  unfolding query
  read t f = query (λ d. or_no_rows (f (t.get d)) d)

  -- `:many`, COUNT and EXISTS, which always answer
  unfoldable pub read_all : Table V → (V → A) → M A
  unfolding query
  read_all t f = query (λ d. (ok (f (t.get d)), d))

  -- INSERT, UPDATE and DELETE, given the time of NOW()
  unfoldable pub write : Table V → (ℕ → V → Result Error A × V) → M A
  unfolding query
  write t f = query (λ d. let (r, v) = f d.now (t.get d) in (r, t.put v d))

-- The idiom `if err == nil { … } else if !errors.Is(err, pgx.ErrNoRows) { return err }`.
abbrev pub found_or_none : {A : Type 0} → Result Error A × Db → Result Error (Option A) × Db
found_or_none (ok a, d) = (ok (some a), d)
found_or_none (err no_rows, d) = (ok none, d)
found_or_none (err e, d) = (err e, d)

unfoldable pub optional : {A : Type 0} → M A → M (Option A)
optional m d = found_or_none (m d)

-- The idiom `if errors.Is(err, pgx.ErrNoRows) { return e }`.
abbrev pub instead : {A : Type 0} → Error → Result Error A × Db → Result Error A × Db
instead e (ok a, d) = (ok a, d)
instead e (err no_rows, d) = (err e, d)
instead e (err x, d) = (err x, d)

unfoldable pub no_rows_is : {A : Type 0} → Error → M A → M A
no_rows_is e m d = instead e (m d)

-- A call whose error is dropped, `_ = f(…)`, or only tested, `if x, err := f(…); err == nil`.
abbrev pub value_or_none : {A : Type 0} → Result Error A × Db → Result Error (Option A) × Db
value_or_none (ok a, d) = (ok (some a), d)
value_or_none (err e, d) = (ok none, d)

unfoldable pub attempt : {A : Type 0} → M A → M (Option A)
attempt m d = value_or_none (m d)

abbrev pub convert : {A : Type 0} → (Error → Error) → Result Error A × Db → Result Error A × Db
convert f (ok a, d) = (ok a, d)
convert f (err e, d) = (err (f e), d)

unfoldable pub on_error : {A : Type 0} → (Error → Error) → M A → M A
on_error f m d = convert f (m d)

unfoldable pub raise_if : Bool → Error → M (Unit {0})
raise_if c e d = (if c then err e else ok tt, d)

unfoldable pub or_raise : {A : Type 0} → Option A → Error → M A
or_raise none e d = (err e, d)
or_raise (some a) e d = (ok a, d)

-- time.Now
unfoldable pub clock : M ℕ
clock d = (ok d.now, d)

unfoldable pub send : Signal → M (Unit {0})
send s d = (ok tt, record d { sent = s ∷ d.sent })
