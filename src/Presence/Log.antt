-- ===== src/Presence/Log.antt =====
-- The specification of the store: the list of the connections that are open.
use brenox_engine.Base.{
  ℕ, ◌-◌, ◌≤◌, ◌≡◌, inl, inr, Bool, ◌&&◌, List, [], ◌∷◌, ◌==◌, if◌then◌else◌, Bool-cases, count,
  arith,
}

pub record Connection : Type 0 where
  pub user : ℕ
  pub workspace : ℕ
  pub channel : ℕ

abbrev pub of_user : ℕ → Connection → Bool
of_user u x = x.user == u

abbrev pub of_place : ℕ → ℕ → Connection → Bool
of_place u w x = x.user == u && x.workspace == w

abbrev pub of_channel : ℕ → ℕ → ℕ → Connection → Bool
of_channel u w c x = x.user == u && (x.workspace == w && x.channel == c)

-- One connection of that user to that channel is closed.
abbrev pub close : ℕ → ℕ → ℕ → List Connection → List Connection
close u w c [] = []
close u w c (x ∷ xs) = if of_channel u w c x then xs else x ∷ close u w c xs

pub count-user :
    (u w c : ℕ) (xs : List Connection) → count (of_channel u w c) xs ≤ count (of_user u) xs
count-user u w c [] = omega arith
count-user u w c (x ∷ xs) = ground (arith, count-user u w c xs)

pub count-close-user :
    (u w c j : ℕ) (xs : List Connection)
    → 1 ≤ count (of_channel u w c) xs
    → count (of_user j) (close u w c xs)
      ≡ (if u == j then count (of_user j) xs - 1 else count (of_user j) xs)
count-close-user u w c j [] h = absurd (omega (arith, h))
count-close-user u w c j (x ∷ xs) h =
    ground (arith, count-close-user u w c j xs, count-user u w c xs)

pub count-close-channel :
    (u w c j v k : ℕ) (xs : List Connection)
    → 1 ≤ count (of_channel u w c) xs
    → count (of_channel j v k) (close u w c xs) ≡ (
        if u == j && (w == v && c == k)
        then count (of_channel j v k) xs - 1
        else count (of_channel j v k) xs)
count-close-channel u w c j v k [] h = absurd (omega (arith, h))
count-close-channel u w c j v k (x ∷ xs) h = ground (arith, count-close-channel u w c j v k xs)

-- A channel with a connection makes a workspace with one.
pub count-place :
    (u w c : ℕ) (xs : List Connection) → count (of_channel u w c) xs ≤ count (of_place u w) xs
count-place u w c [] = omega arith
count-place u w c (x ∷ xs) = ground (arith, count-place u w c xs)

pub some_channel :
    (u w : ℕ) (xs : List Connection)
    → 1 ≤ count (of_place u w) xs
    → (c : ℕ) × (1 ≤ count (of_channel u w c) xs)
some_channel u w [] h = absurd (omega (arith, h))
some_channel u w (x ∷ xs) h = elim (Bool-cases (of_place u w x)) [
  | inl e ↦ (x.channel, ground arith)
  | inr e ↦ let (c, k) = some_channel u w xs (ground arith) in (c, ground arith)
]
