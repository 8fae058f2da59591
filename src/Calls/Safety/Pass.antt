-- ===== src/Calls/Safety/Pass.antt =====
-- What a step of a method does to the tables that are safe.
use brenox_engine.Base.{
  ℕ, ◌≡◌, ap, sym, subst, [], ◌∷◌, some, arith, ◌==◌, ==→eq, select_all, count, length,
  count-select_all, length-select_all, select_fits,
}
use brenox_engine.Base.Monad.{◌>>=◌}
use brenox_engine.Db.{M, rooms}
use brenox_engine.Db.Rooms.{Call, Participant, Rooms}
use brenox_engine.Db.Triple.{Triple, Frame, Triple-bind, Triple-frame}
use brenox_engine.Queries.Calls.{in_call, find_call, active_count, has_id, set_left}
use brenox_engine.Calls.Invariant.{Safe, active_count-left}

-- From tables that are safe, `m` ends in tables that are safe.
abbrev pub Keeps : {A : Type 0} → ℕ → Rooms → Rooms → M A → Type 0
Keeps max R0 T m = Triple rooms T m (λ a T'. Safe max R0 T') (λ e T'. Safe max R0 T')

-- A step that leaves the tables alone.
pub pass :
    {A B : Type 0} {max : ℕ} {R0 T : Rooms} {Q : B → Rooms → Type 0} {m : M A} {f : A → M B}
    → Frame rooms m
    → Safe max R0 T
    → ((a : A) → Triple rooms T (f a) Q (λ e T'. Safe max R0 T'))
    → Triple rooms T (m >>= f) Q (λ e T'. Safe max R0 T')
pass same safe next = Triple-bind (Triple-frame same next (λ x. safe))

-- The row that GetCallByID returned carries the id that was asked for.
pub own_id : (id : ℕ) (T : Rooms) (c : Call) → find_call id T ≡ some c → find_call c.id T ≡ some c
own_id id T c found =
    let same : c.id ≡ id = ==→eq c.id id (select_fits (has_id id) T.calls found) in
    subst (λ i. find_call i T ≡ some c) (sym same) found

-- In a call with one participant, marking that one as left leaves nobody.
pub last-left :
    (id u now : ℕ) (R : Rooms) (p : Participant)
    → select_all (in_call id) R.participants ≡ p ∷ []
    → p.user_id ≡ u
    → active_count id (set_left id u now R).1 ≡ 0
last-left id u now R p l e = omega (
  arith,
  active_count-left id u now R,
  count-select_all (λ x. x.user_id == u) (in_call id) R.participants,
  ap (count (λ x. x.user_id == u)) l,
  ap length l,
  length-select_all (in_call id) R.participants,
  one,
)
  where
    one : count (λ x. x.user_id == u) (p ∷ []) ≡ 1
    one = ground arith
