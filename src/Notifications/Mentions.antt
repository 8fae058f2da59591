-- ===== src/Notifications/Mentions.antt =====
-- internal/notifications/mentions.go. The regular expressions of Go and the function LOWER of
-- PostgreSQL are not part of the repository, so they are a parameter.
use text.Mathlib.Text.{◌==◌ as str_eq}
use brenox_engine.Base.{Bool, List, [], ◌∷◌, String, is_some, select, if◌then◌else◌}

pub record MentionLibrary : Type 0 where
  -- regexp.FindAllStringSubmatch of a pattern and a text: each match, with its groups after it
  pub find_all_submatches : String → String → List (List String)
  pub lower : String → String

abbrev pub mention_pattern : String
mention_pattern = "@([a-zA-Z0-9_]+)"

abbrev pub is_among : String → List String → Bool
is_among name names = is_some (select (λ s. str_eq s name) names)

-- The first group of each match, but for those that were seen.
unfoldable pub distinct : List String → List (List String) → List String
distinct seen [] = []
distinct seen ([] ∷ ms) = distinct seen ms
distinct seen ((text ∷ []) ∷ ms) = distinct seen ms
distinct seen ((text ∷ username ∷ groups) ∷ ms) =
    let known = is_among username seen in
    let rest = distinct (if known then seen else username ∷ seen) ms in
    if known then rest else username ∷ rest

unfoldable pub parse_mentions : MentionLibrary → String → List String
parse_mentions lib content = distinct [] (lib.find_all_submatches mention_pattern content)
