-- ===== src/Base/Map.antt =====
-- Go's maps with integer keys, as association lists with one entry per key. The order of the entries
-- stands for the order in which Go's `range` meets them, which is not specified.
use Prim.Native.Nat.{ℕ}
use mathlib.Core.Path.{◌≡◌, refl}
use mathlib.Core.Logic.{inl, inr}
use mathlib.Core.Option.{Option, none, some}
use mathlib.Core.List.{List, [], ◌∷◌}
use native.Mathlib.Omega.{arith}
use brenox_engine.Base.Tests.{◌==◌, is_some, if◌then◌else◌, Bool-cases}
use brenox_engine.Base.Rows.{select}

abbrev pub Map {ℓ} : Type ℓ → Type ℓ
Map V = List (ℕ × V)

abbrev pub value_or {ℓ} : {A : Type ℓ} → A → Option A → A
value_or a none = a
value_or a (some x) = x

module _ {ℓ} {V : Type ℓ} where
  unfoldable pub get : ℕ → Map V → Option V
  get k [] = none
  get k ((j, v) ∷ m) = if j == k then some v else get k m

  -- delete(m, k)
  unfoldable pub remove : ℕ → Map V → Map V
  remove k [] = []
  remove k ((j, v) ∷ m) = if j == k then remove k m else (j, v) ∷ remove k m

  -- m[k] = v
  unfoldable pub put : ℕ → V → Map V → Map V
  unfolding remove
  put k v m = (k, v) ∷ remove k m

  unfoldable pub keys : Map V → List ℕ
  keys [] = []
  keys ((k, v) ∷ m) = k ∷ keys m

  pub get-remove : (j k : ℕ) (m : Map V) → get j (remove k m) ≡ (if k == j then none else get j m)
  unfolding get remove
  get-remove j k [] = ground arith
  get-remove j k ((i, v) ∷ m) = ground (arith, get-remove j k m)

  pub get-put :
      (j k : ℕ) (v : V) (m : Map V) → get j (put k v m) ≡ (if k == j then some v else get j m)
  unfolding get put
  get-put j k v m = ground (arith, get-remove j k m)

  pub keys-get : (k : ℕ) (m : Map V) → is_some (select (λ j. j == k) (keys m)) ≡ is_some (get k m)
  unfolding keys get
  keys-get k [] = refl
  keys-get k ((j, v) ∷ m) = ground (arith, keys-get k m)

  pub value-put :
      (d : V) (j k : ℕ) (v : V) (m : Map V)
      → value_or d (get j (put k v m)) ≡ (if k == j then v else value_or d (get j m))
  value-put d j k v m = elim (Bool-cases (k == j)) [
    | inl e ↦ rw (get-put, e) refl
    | inr e ↦ rw (get-put, e) refl
  ]

  pub value-remove :
      (d : V) (j k : ℕ) (m : Map V)
      → value_or d (get j (remove k m)) ≡ (if k == j then d else value_or d (get j m))
  value-remove d j k m = elim (Bool-cases (k == j)) [
    | inl e ↦ rw (get-remove, e) refl
    | inr e ↦ rw (get-remove, e) refl
  ]
