-- ===== src/Origins/Checker.antt =====
-- internal/origins/checker.go: the checker and its cache of the apps' origins. A call is one step:
-- the cache is read and filled under the checker's locks. Times are in microseconds.
use text.Mathlib.Text.{◌==◌ as str_eq}
use brenox_engine.Base.{
  ℕ, ◌-◌, Bool, true, false, ◌&&◌, ◌||◌, List, [], ◌∷◌, Option, none, some, String, ltb, is_some,
  if◌then◌else◌,
}
use brenox_engine.Base.Map.{Map, value_or, get, put}
use brenox_engine.Origins.Lists.{OriginLibrary, contains, add_keys, normalize, normalize_stored}

-- A row of ListAppOriginEntries.
pub record OriginRow : Type 0 where
  pub id : ℕ
  pub workspace_id : ℕ
  pub sandbox_workspace_id : ℕ
  pub allowed_origins : List String

pub record Hints : Type 0 where
  pub app_id : ℕ
  pub workspace_id : ℕ
  pub preflight : Bool

pub record Snapshot : Type 0 where
  pub by_app : Map (List String)
  pub by_workspace : Map (List String)
  pub union : List String

-- `cache` is `none` before the first load, and `loaded_at` is `none` for the zero time.
pub record Checker : Type 0 where
  pub platform : List String
  pub cache : Option Snapshot
  pub loaded_at : Option ℕ

abbrev pub cache_ttl : ℕ
cache_ttl = 60000000

abbrev pub new_checker : List String → Checker
new_checker platform = record { platform = platform; cache = none; loaded_at = none }

abbrev pub empty_snapshot : Snapshot
empty_snapshot = record { by_app = []; by_workspace = []; union = [] }

unfoldable pub invalidate : Checker → Checker
invalidate c = record c { loaded_at = none }

unfoldable pub add_sandbox : ℕ → List String → Map (List String) → Map (List String)
add_sandbox sandbox origins m = if ltb 0 sandbox then put sandbox origins m else m

unfoldable pub add_row : OriginLibrary → OriginRow → Snapshot → Snapshot
add_row lib row s =
    let origins = normalize_stored lib row.allowed_origins in
    record {
      by_app = put row.id origins s.by_app;
      by_workspace =
          add_sandbox row.sandbox_workspace_id origins
            (put row.workspace_id origins s.by_workspace);
      union = add_keys s.union origins;
    }

unfoldable pub add_rows : OriginLibrary → List OriginRow → Snapshot → Snapshot
add_rows lib [] s = s
add_rows lib (row ∷ rows) s = add_rows lib rows (add_row lib row s)

unfoldable pub is_recent : ℕ → Option ℕ → Bool
is_recent now none = false
is_recent now (some t) = ltb (now - t) cache_ttl

unfoldable pub is_fresh : ℕ → Checker → Bool
is_fresh now c = is_recent now c.loaded_at && is_some c.cache

-- `answer` is what the query gives, `none` for an error; a failed load keeps the old cache.
unfoldable pub refill : OriginLibrary → ℕ → Option (List OriginRow) → Checker → Checker
refill lib now none c = c
refill lib now (some rows) c = record c {
  cache = some (add_rows lib rows empty_snapshot);
  loaded_at = some now;
}

unfoldable pub reload : OriginLibrary → ℕ → Option (List OriginRow) → Checker → Checker
reload lib now answer c = if is_fresh now c then c else refill lib now answer c

unfoldable pub listed : Snapshot → Hints → String → Bool
listed s hints origin =
    if ltb 0 hints.app_id
    then contains (value_or [] (get hints.app_id s.by_app)) origin
    else if ltb 0 hints.workspace_id
    then contains (value_or [] (get hints.workspace_id s.by_workspace)) origin
    else if hints.preflight
    then contains s.union origin
    else false

unfoldable pub is_allowed :
    OriginLibrary → ℕ → Option (List OriginRow) → String → Hints → Checker → Bool × Checker
is_allowed lib now answer raw hints c =
    let origin = normalize lib raw in
    let c' = reload lib now answer c in
    if str_eq origin "" || contains c.platform origin
    then (true, c)
    else (listed (value_or empty_snapshot c'.cache) hints origin, c')
