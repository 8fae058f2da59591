-- ===== src/Workspaces/Rows.antt =====
-- The rows of workspace_members that say `owner`.
use text.Mathlib.Text.{◌==◌ as str_eq}
use brenox_engine.Base.{
  ℕ, ◌≤◌, ◌≡◌, refl, Bool, false, List, [], ◌∷◌, some, select, select_all, update, delete, count,
  arith,
}
use brenox_engine.Db.Org.{WorkspaceMember, Org}
use brenox_engine.Queries.Org.{is_membership}

abbrev pub is_owner_row : WorkspaceMember → Bool
is_owner_row m = str_eq m.role "owner"

-- The owner's rows are those of `T0`, and a user has one row per workspace at most.
pub record OwnersKept (T0 T : Org) : Type 0 where
  pub owners : select_all is_owner_row T.members ≡ select_all is_owner_row T0.members
  pub one_row : (w u : ℕ) → count (is_membership w u) T.members ≤ 1

module _ (p q : WorkspaceMember → Bool) where
  update-none :
      (f : WorkspaceMember → WorkspaceMember) (xs : List WorkspaceMember)
      → count p xs ≡ 0
      → select_all q (update p f xs) ≡ select_all q xs
  update-none f [] h = refl
  update-none f (x ∷ xs) h = ground (arith, update-none f xs)

  delete-none :
      (xs : List WorkspaceMember) → count p xs ≡ 0 → select_all q (delete p xs) ≡ select_all q xs
  delete-none [] h = refl
  delete-none (x ∷ xs) h = ground (arith, delete-none xs)

  -- The only row that is met fits before, or after, or neither: here neither.
  pub update-outside :
      (f : WorkspaceMember → WorkspaceMember) (xs : List WorkspaceMember) (m : WorkspaceMember)
      → count p xs ≤ 1
      → select p xs ≡ some m
      → q m ≡ false
      → ((x : WorkspaceMember) → q (f x) ≡ false)
      → select_all q (update p f xs) ≡ select_all q xs
  update-outside f [] m h k e g = refl
  update-outside f (x ∷ xs) m h k e g = ground (
    arith,
    g x,
    update-none f xs,
    λ (h' : count p xs ≤ 1). λ (k' : select p xs ≡ some m). update-outside f xs m h' k' e g,
  )

  pub delete-outside :
      (xs : List WorkspaceMember) (m : WorkspaceMember)
      → count p xs ≤ 1
      → select p xs ≡ some m
      → q m ≡ false
      → select_all q (delete p xs) ≡ select_all q xs
  delete-outside [] m h k e = refl
  delete-outside (x ∷ xs) m h k e = ground (
    arith,
    delete-none xs,
    λ (h' : count p xs ≤ 1). λ (k' : select p xs ≡ some m). delete-outside xs m h' k' e,
  )
