-- ===== src/Regex.antt =====
-- The `regex` crate, as the program uses it: patterns that compile, and matches. A compiled
-- expression is known by its pattern.
use secure_sudoers_setup.Base.{Bool, Option, none, some, if◌then◌else◌}
use secure_sudoers_setup.Text.{Text}

pub record Regex : Type 0 where
  pub pattern : Text

pub record RegexEngine : Type 0 where
  -- `Regex::new(pattern).is_ok()`
  pub compiles : Text → Bool
  pub is_match : Regex → Text → Bool

-- `Regex::new(pattern).ok()`
unfoldable pub regex_new : RegexEngine → Text → Option Regex
regex_new engine pattern =
    if engine.compiles pattern then some (record { pattern = pattern }) else none
