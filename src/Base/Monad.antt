-- ===== src/Base/Monad.antt =====
-- A method of a service: it reads and changes the state `S`, and returns a value or an error `E`.
-- What was written before an error stays written.
pub data Result (E : Type 0) (A : Type 0) : Type 0 where
  ok : A → Result E A
  err : E → Result E A

abbrev pub Action : Type 0 → Type 0 → Type 0 → Type 0
Action S E A = S → Result E A × S

module _ {S E : Type 0} where
  unfoldable pub pure : {A : Type 0} → A → Action S E A
  pure a s = (ok a, s)

  unfoldable pub raise : {A : Type 0} → E → Action S E A
  raise e s = (err e, s)

  infixl 5 ◌>>=◌ ◌>>◌
  unfoldable pub ◌>>=◌ : {A B : Type 0} → Action S E A → (A → Action S E B) → Action S E B
  ◌>>=◌ m f s = let (r, s') = m s in elim r [ ok a ↦ f a s' | err e ↦ (err e, s') ]

  abbrev pub ◌>>◌ : {A B : Type 0} → Action S E A → Action S E B → Action S E B
  m >> k = m >>= λ _. k
