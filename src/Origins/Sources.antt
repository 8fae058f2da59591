-- ===== src/Origins/Sources.antt =====
-- What stands in a snapshot comes from a row.
use text.Mathlib.Text.{◌==◌ as str_eq}
use brenox_engine.Base.{
  ℕ, ◌≡◌, refl, ◌⊎◌, inl, inr, Bool, true, false, ◌&&◌, ◌||◌, List, [], ◌∷◌, String, ltb, ◌==◌,
  is_some, if◌then◌else◌, select, Bool-cases, arith,
}
use brenox_engine.Base.Map.{value_or, get, put, value-put}
use brenox_engine.Origins.Lists.{OriginLibrary, contains, add_key, add_keys, normalize_stored}
use brenox_engine.Origins.Checker.{OriginRow, Hints, Snapshot, add_sandbox, add_row, add_rows}

-- The app of the row lists the origin.
abbrev pub lists : OriginLibrary → String → OriginRow → Bool
lists lib origin r = contains (normalize_stored lib r.allowed_origins) origin

abbrev pub is_app : ℕ → OriginRow → Bool
is_app app r = r.id == app

abbrev pub is_at : ℕ → OriginRow → Bool
is_at workspace r = r.workspace_id == workspace || r.sandbox_workspace_id == workspace

abbrev pub exists : (OriginRow → Bool) → List OriginRow → Bool
exists p rows = is_some (select p rows)

-- Who may have listed the origin, by what the request says of itself: the app that it names, else
-- the app of the workspace that it names, else, for a preflight, any app.
abbrev pub grants : OriginLibrary → Hints → String → List OriginRow → Bool
grants lib h origin rows =
    if ltb 0 h.app_id
    then exists (λ r. is_app h.app_id r && lists lib origin r) rows
    else if ltb 0 h.workspace_id
    then exists (λ r. is_at h.workspace_id r && lists lib origin r) rows
    else if h.preflight
    then exists (lists lib origin) rows
    else false

contains-add_key :
    (set : List String) (x o : String)
    → contains (add_key set x) o ≡ true
    → (str_eq x o ≡ true) ⊎ (contains set o ≡ true)
unfolding add_key contains
contains-add_key set x o h = elim (Bool-cases (contains set x)) [
  | inl e ↦ inr (rw e at h)
  | inr e ↦ elim (Bool-cases (str_eq x o)) [ inl f ↦ inl f | inr f ↦ inr (rw (e, f) at h) ]
]

contains-add_keys :
    (set xs : List String) (o : String)
    → contains (add_keys set xs) o ≡ true
    → (contains xs o ≡ true) ⊎ (contains set o ≡ true)
unfolding add_keys contains
contains-add_keys set [] o h = inr h
contains-add_keys set (x ∷ xs) o h = elim (contains-add_keys (add_key set x) xs o h) [
  | inl e ↦ inl (ground (arith, e))
  | inr e ↦ elim (contains-add_key set x o e) [ inl f ↦ inl (rw f refl) | inr f ↦ inr f ]
]

module _ (lib : OriginLibrary) (k : ℕ) (o : String) where
  pub app-listed :
      (rows : List OriginRow) (s : Snapshot)
      → contains (value_or [] (get k (add_rows lib rows s).by_app)) o ≡ true
      → (exists (λ r. is_app k r && lists lib o r) rows ≡ true)
        ⊎ (contains (value_or [] (get k s.by_app)) o ≡ true)
  unfolding add_rows add_row
  app-listed [] s h = inr h
  app-listed (r ∷ rows) s h = elim (app-listed rows (add_row lib r s) h) [
    | inl e ↦ inl (ground (arith, e))
    | inr e ↦ elim (Bool-cases (r.id == k)) [
      | inl same ↦
          let mine : lists lib o r ≡ true = rw (value-put, same) at e in inl (rw (same, mine) refl)
      | inr other ↦ inr (rw (value-put, other) at e)
    ]
  ]

  pub workspace-listed :
      (rows : List OriginRow) (s : Snapshot)
      → contains (value_or [] (get k (add_rows lib rows s).by_workspace)) o ≡ true
      → (exists (λ r. is_at k r && lists lib o r) rows ≡ true)
        ⊎ (contains (value_or [] (get k s.by_workspace)) o ≡ true)
  unfolding add_rows add_row add_sandbox
  workspace-listed [] s h = inr h
  workspace-listed (r ∷ rows) s h = elim (workspace-listed rows (add_row lib r s) h) [
    | inl e ↦ inl (ground (arith, e))
    | inr e ↦ elim (at_row e) [ inl f ↦ inl (rw f refl) | inr f ↦ inr f ]
  ]
    where
      origins : List String
      origins = normalize_stored lib r.allowed_origins

      own :
          contains (value_or [] (get k (put r.workspace_id origins s.by_workspace))) o ≡ true
          → (is_at k r && lists lib o r ≡ true)
            ⊎ (contains (value_or [] (get k s.by_workspace)) o ≡ true)
      own e = elim (Bool-cases (r.workspace_id == k)) [
        | inl same ↦
            let mine : lists lib o r ≡ true = rw (value-put, same) at e in
            inl (rw (same, mine) refl)
        | inr other ↦ inr (rw (value-put, other) at e)
      ]

      at_row :
          contains (value_or [] (get k (add_row lib r s).by_workspace)) o ≡ true
          → (is_at k r && lists lib o r ≡ true)
            ⊎ (contains (value_or [] (get k s.by_workspace)) o ≡ true)
      at_row e = elim (Bool-cases (ltb 0 r.sandbox_workspace_id)) [
        | inr without ↦ own (rw without at e)
        | inl sandbox ↦ elim (Bool-cases (r.sandbox_workspace_id == k)) [
          | inl same ↦
              let mine : lists lib o r ≡ true = rw (sandbox, value-put, same) at e in
              inl (ground (arith, same, mine))
          | inr other ↦ own (rw (sandbox, value-put, other) at e)
        ]
      ]

  pub union-listed :
      (rows : List OriginRow) (s : Snapshot)
      → contains (add_rows lib rows s).union o ≡ true
      → (exists (lists lib o) rows ≡ true) ⊎ (contains s.union o ≡ true)
  unfolding add_rows add_row
  union-listed [] s h = inr h
  union-listed (r ∷ rows) s h = elim (union-listed rows (add_row lib r s) h) [
    | inl e ↦ inl (ground (arith, e))
    | inr e ↦ elim (contains-add_keys s.union (normalize_stored lib r.allowed_origins) o e) [
      | inl f ↦ inl (rw f refl)
      | inr f ↦ inr f
    ]
  ]
