-- ===== src/Origins/Isolation.antt =====
-- An origin is let in only for an app that has listed it.
use text.Mathlib.Text.{◌==◌ as str_eq}
use brenox_engine.Base.{
  ℕ, ◌≡◌, refl, ◌⊎◌, inl, inr, Bool, true, false, ◌||◌, List, [], Option, none, some, String, ltb,
  if◌then◌else◌, Bool-cases,
}
use brenox_engine.Base.Map.{value_or, get}
use brenox_engine.Origins.Lists.{OriginLibrary, contains, normalize}
use brenox_engine.Origins.Checker.{
  OriginRow, Hints, Checker, new_checker, empty_snapshot, invalidate, add_rows, is_fresh, refill,
  reload, listed, is_allowed,
}
use brenox_engine.Origins.Sources.{grants, app-listed, workspace-listed, union-listed}

-- The rows that the cache holds after a load was tried.
abbrev pub latest : ℕ → Option (List OriginRow) → Checker → List OriginRow → List OriginRow
latest now answer c rows = if is_fresh now c then rows else value_or rows answer

-- A question to the checker loads nothing if the origin is blank or the platform's own.
abbrev pub is_own : OriginLibrary → List String → String → Bool
is_own lib platform raw = str_eq (normalize lib raw) "" || contains platform (normalize lib raw)

-- The checker after questions and invalidations, with the rows that were loaded last.
pub data CheckerReach (lib : OriginLibrary) (platform : List String)
    : List OriginRow → Checker → Type 0 where
  here : CheckerReach lib platform [] (new_checker platform)
  asks :
      {rows : List OriginRow} {c : Checker}
      → CheckerReach lib platform rows c
      → (now : ℕ) (answer : Option (List OriginRow)) (raw : String) (hints : Hints)
      → CheckerReach lib platform
          (if is_own lib c.platform raw then rows else latest now answer c rows)
          (is_allowed lib now answer raw hints c).1
  invalidates :
      {rows : List OriginRow} {c : Checker}
      → CheckerReach lib platform rows c
      → CheckerReach lib platform rows (invalidate c)

pub record IsCached (lib : OriginLibrary) (platform : List String) (rows : List OriginRow)
    (c : Checker) : Type 0 where
  pub cached : value_or empty_snapshot c.cache ≡ add_rows lib rows empty_snapshot
  pub own : c.platform ≡ platform

module _ (lib : OriginLibrary) (platform : List String) where
  reload-IsCached :
      (now : ℕ) (answer : Option (List OriginRow)) (rows : List OriginRow) (c : Checker)
      → IsCached lib platform rows c
      → IsCached lib platform (latest now answer c rows) (reload lib now answer c)
  unfolding reload refill
  reload-IsCached now answer rows c v = elim (Bool-cases (is_fresh now c)) [
    | inl e ↦ rw e v
    | inr e ↦ rw e (filled answer)
  ]
    where
      filled :
          (a : Option (List OriginRow))
          → IsCached lib platform (value_or rows a) (refill lib now a c)
      filled none = v
      filled (some new) = record { cached = refl; own = v.own }

  CheckerReach-IsCached :
      {rows : List OriginRow} {c : Checker}
      → CheckerReach lib platform rows c
      → IsCached lib platform rows c
  unfolding is_allowed invalidate add_rows
  CheckerReach-IsCached here = record { cached = refl; own = refl }
  CheckerReach-IsCached (asks {rows = rows} {c = c} r now answer raw hints) =
      elim (Bool-cases (is_own lib c.platform raw)) [
        | inl e ↦ rw e (CheckerReach-IsCached r)
        | inr e ↦ rw e (reload-IsCached now answer rows c (CheckerReach-IsCached r))
      ]
  CheckerReach-IsCached (invalidates r) =
      let v = CheckerReach-IsCached r in record { cached = v.cached; own = v.own }

  listed-grants :
      (rows : List OriginRow) (h : Hints) (o : String)
      → listed (add_rows lib rows empty_snapshot) h o ≡ true
      → grants lib h o rows ≡ true
  unfolding listed get contains
  listed-grants rows h o e = elim (Bool-cases (ltb 0 h.app_id)) [
    | inl app ↦ rw app (only (app-listed lib h.app_id o rows empty_snapshot (rw app at e)))
    | inr no_app ↦ rw no_app (elim (Bool-cases (ltb 0 h.workspace_id)) [
      | inl place ↦ rw place (
          only
            (workspace-listed lib h.workspace_id o rows empty_snapshot (rw (no_app, place) at e)))
      | inr no_place ↦ rw no_place (elim (Bool-cases h.preflight) [
        | inl pre ↦
            rw pre
              (only (union-listed lib 0 o rows empty_snapshot (rw (no_app, no_place, pre) at e)))
        | inr no_pre ↦ absurd (let k : false ≡ true = rw (no_app, no_place, no_pre) at e in cc)
      ])
    ])
  ]
    where
      only : {b : Bool} → (b ≡ true) ⊎ (contains [] o ≡ true) → b ≡ true
      only (inl e) = e
      only (inr e) = absurd cc

  -- After any history of the checker, with whatever answers from the database: it lets a web origin
  -- in only if the origin is blank or the platform's own, or if it is listed by the app that the
  -- request names, in the rows that were loaded last; or, if the request names no app, by the app of
  -- the workspace that it names; or, for a preflight that names neither, by some app.
  pub CheckerReach-grants :
      {rows : List OriginRow} {c : Checker}
      → CheckerReach lib platform rows c
      → (now : ℕ) (answer : Option (List OriginRow)) (raw : String) (hints : Hints)
      → (is_allowed lib now answer raw hints c).0 ≡ true
      → is_own lib platform raw || grants lib hints (normalize lib raw) (latest now answer c rows)
        ≡ true
  unfolding is_allowed
  CheckerReach-grants {rows} {c} r now answer raw hints h =
      elim (Bool-cases (is_own lib c.platform raw)) [
        | inl e ↦ let mine : is_own lib platform raw ≡ true = rw before.own at e in rw mine refl
        | inr e ↦
            let k : listed (value_or empty_snapshot (reload lib now answer c).cache) hints
                  (normalize lib raw)
                ≡ true =
              rw e at h in
            rw
              (listed-grants (latest now answer c rows) hints (normalize lib raw)
                (rw after.cached at k))
              (or_true _)
      ]
    where
      before : IsCached lib platform rows c
      before = CheckerReach-IsCached r

      after : IsCached lib platform (latest now answer c rows) (reload lib now answer c)
      after = reload-IsCached now answer rows c before

      or_true : (a : Bool) → a || true ≡ true
      or_true true = refl
      or_true false = refl
