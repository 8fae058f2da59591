-- ===== src/Origins/Lists.antt =====
-- internal/origins/checker.go: origins as texts, and lists of them. The packages strings, net/url and
-- net/netip are not part of the repository, so their functions are a parameter.
use text.Mathlib.Text.{◌==◌ as str_eq}
use brenox_engine.Base.{
  ℕ, Bool, true, false, not, ◌&&◌, ◌||◌, List, [], ◌∷◌, ◌++◌, Option, none, some, String, ltb,
  length, if◌then◌else◌,
}
use brenox_engine.Base.Monad.{Result, ok, err}

-- What url.Parse yields.
pub record Url : Type 0 where
  pub scheme : String
  pub host : String
  pub hostname : String
  pub has_user : Bool
  pub path : String
  pub raw_query : String
  pub fragment : String

pub record OriginLibrary : Type 0 where
  pub trim_space : String → String
  pub to_lower : String → String
  -- a text, and the characters to cut off at its end
  pub trim_right : String → String → String
  pub trim_suffix : String → String → String
  pub split : String → String → List String
  pub parse_url : String → Option Url
  -- netip.ParseAddr and IsLoopback
  pub parse_addr : String → Option Bool

pub data OriginError : Type 0 where
  origin_required invalid_origin too_many_origins : OriginError

abbrev pub max_origins_per_app : ℕ
max_origins_per_app = 20

unfoldable pub contains : List String → String → Bool
contains [] origin = false
contains (x ∷ xs) origin = if str_eq x origin then true else contains xs origin

-- The keys of a set, each added once.
unfoldable pub add_key : List String → String → List String
add_key set origin = if contains set origin then set else origin ∷ set

unfoldable pub add_keys : List String → List String → List String
add_keys set [] = set
add_keys set (x ∷ xs) = add_keys (add_key set x) xs

unfoldable pub unique_origins : List String → List String
unique_origins xs = add_keys [] xs

unfoldable pub normalize : OriginLibrary → String → String
normalize lib origin = lib.trim_right (lib.trim_space origin) "/"

-- The items that are not blank once they are normalized.
unfoldable pub normalize_stored : OriginLibrary → List String → List String
normalize_stored lib [] = []
normalize_stored lib (x ∷ xs) =
    let rest = normalize_stored lib xs in
    if str_eq (normalize lib x) "" then rest else normalize lib x ∷ rest

unfoldable pub trim_each : OriginLibrary → List String → List String
trim_each lib [] = []
trim_each lib (x ∷ xs) = lib.trim_space x ∷ trim_each lib xs

unfoldable pub parse_list : OriginLibrary → String → List String
parse_list lib raw =
    if str_eq (lib.trim_space raw) "" || str_eq (lib.trim_space raw) "*"
    then []
    else normalize_stored lib (trim_each lib (lib.split (lib.trim_space raw) ","))

-- The values of CORS_ALLOWED_ORIGINS and WS_ALLOWED_ORIGINS.
unfoldable pub load_platform_origins : OriginLibrary → String → String → List String
load_platform_origins lib cors ws = unique_origins (parse_list lib cors ++ parse_list lib ws)

unfoldable pub is_secure_host : OriginLibrary → Url → String → Bool
is_secure_host lib url host =
    if str_eq host ""
    then false
    else if str_eq host "localhost"
    then true
    else elim (lib.parse_addr host) [
      | some is_loopback ↦ is_loopback
      | none ↦ str_eq url.scheme "https"
    ]

unfoldable pub is_secure_public_origin : OriginLibrary → Url → Bool
is_secure_public_origin lib url =
    is_secure_host lib url (lib.trim_suffix (lib.to_lower url.hostname) ".")

unfoldable pub is_acceptable : OriginLibrary → Url → Bool
is_acceptable lib url =
    (str_eq url.scheme "http" || str_eq url.scheme "https")
    && (not (str_eq url.host "")
        && (not url.has_user
            && ((str_eq url.path "" || str_eq url.path "/")
                && ((str_eq url.raw_query "" && str_eq url.fragment "")
                    && is_secure_public_origin lib url))))

unfoldable pub validate_parsed : OriginLibrary → Option Url → Option OriginError
validate_parsed lib none = some invalid_origin
validate_parsed lib (some url) = if is_acceptable lib url then none else some invalid_origin

-- `none` for no error
unfoldable pub validate : OriginLibrary → String → Option OriginError
validate lib origin =
    if str_eq (normalize lib origin) ""
    then some origin_required
    else validate_parsed lib (lib.parse_url (normalize lib origin))

-- The loop of NormalizeList, with what it has put out so far, the latest first.
unfoldable pub normalize_each :
    OriginLibrary → List String → List String → Result OriginError (List String)
normalize_each lib out [] = ok out
normalize_each lib out (x ∷ xs) =
    let skip = normalize_each lib out xs in
    let take = normalize_each lib (normalize lib x ∷ out) xs in
    elim (validate lib (normalize lib x)) [
      | some e ↦ err e
      | none ↦ if contains out (normalize lib x) then skip else take
    ]

unfoldable pub reverse : List String → List String → List String
reverse out [] = out
reverse out (x ∷ xs) = reverse (x ∷ out) xs

unfoldable pub in_order : Result OriginError (List String) → Result OriginError (List String)
in_order (ok out) = ok (reverse [] out)
in_order (err e) = err e

unfoldable pub normalize_list : OriginLibrary → List String → Result OriginError (List String)
normalize_list lib origins =
    if ltb max_origins_per_app (length origins)
    then err too_many_origins
    else in_order (normalize_each lib [] origins)
