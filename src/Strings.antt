-- ===== src/Strings.antt =====
-- The functions of Go on strings that the program calls: those of the packages strings and regexp,
-- and `len`, which counts bytes. They are not part of the repository, so they are a parameter of the
-- definitions that use them.
use brenox_engine.Base.{String, ℕ, Bool}

pub record Strings : Type 0 where
  pub trim_space : String → String
  pub to_lower : String → String
  pub byte_length : String → ℕ
  -- a text, a set of characters to cut off at both ends
  pub trim : String → String → String
  -- a text, a part, what takes its place
  pub replace_all : String → String → String → String
  -- a regular expression and a text
  pub matches : String → String → Bool
  -- a regular expression, a text, what takes the place of each match
  pub replace_matches : String → String → String → String
