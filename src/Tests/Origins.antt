-- ===== src/Tests/Origins.antt =====
-- Runs of the checker of origins.
use brenox_engine.Base.{◌≡◌, refl, true, false, [], ◌∷◌, none, some, ◌||◌}
use brenox_engine.Origins.Lists.{
  OriginLibrary, contains, normalize, normalize_stored, normalize_list,
}
use brenox_engine.Origins.Checker.{
  OriginRow, Hints, new_checker, is_allowed, listed, reload, is_fresh, is_recent, refill, add_rows,
  add_row,
}
use brenox_engine.Base.Map.{get, put}
use brenox_engine.Origins.Sources.{grants}
use brenox_engine.Origins.Isolation.{is_own, latest, CheckerReach, CheckerReach-grants}
use brenox_engine.Origins.Clean.{Outcome, normalize_list-Outcome}

-- Texts that are clean already; every origin is an https one.
abbrev simple : OriginLibrary
simple = record {
  trim_space = λ s. s;
  to_lower = λ s. s;
  trim_right = λ s cut. s;
  trim_suffix = λ s end. s;
  split = λ s by. s ∷ [];
  parse_url = λ s. some (record {
    scheme = "https";
    host = s;
    hostname = s;
    has_user = false;
    path = "";
    raw_query = "";
    fragment = "";
  });
  parse_addr = λ s. none;
}

abbrev shop : OriginRow
shop = record {
  id = 1;
  workspace_id = 1;
  sandbox_workspace_id = 9;
  allowed_origins = "https://shop" ∷ [];
}

abbrev from_shop : Hints
from_shop = record { app_id = 1; workspace_id = 0; preflight = false }

shop_reaches_app :
    (is_allowed simple 5 (some (shop ∷ [])) "https://shop" from_shop (new_checker [])).0 ≡ true
unfolding is_allowed normalize contains listed get reload is_fresh is_recent refill add_rows add_row
    put normalize_stored
shop_reaches_app = refl

CheckerReach-grants_example :
    is_own simple [] "https://shop"
      || grants simple from_shop
          (normalize simple "https://shop")
          (latest 5 (some (shop ∷ [])) (new_checker []) [])
    ≡ true
CheckerReach-grants_example =
    CheckerReach-grants simple [] CheckerReach.here 5 (some (shop ∷ [])) "https://shop" from_shop
      shop_reaches_app

normalize_list-Outcome_example :
    Outcome simple
      ("https://shop" ∷ "https://shop" ∷ [])
      (normalize_list simple ("https://shop" ∷ "https://shop" ∷ []))
normalize_list-Outcome_example =
    normalize_list-Outcome simple ("https://shop" ∷ "https://shop" ∷ [])
