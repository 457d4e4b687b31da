-- ===== src/Validator/Helpers.antt =====
-- `validator/helpers.rs`. The iterator is the list of arguments not read yet; `out` grows at its
-- end. Both come back with the result.
use secure_sudoers_setup.Base.{
  Bool, false, not, ◌&&◌, List, [], ◌∷◌, ◌++◌, Option, none, some, Result, ok, err, if◌then◌else◌,
  ltb, length,
}
use secure_sudoers_setup.Text.{Text, lit, split_once, starts_with, starts_with_char, byte_len}
use secure_sudoers_setup.Map.{Map}
use secure_sudoers_setup.Error.{Error, validation, system}
use secure_sudoers_setup.Fs.{ValidationContext, positional, delimited_positional}
use secure_sudoers_setup.Regex.{Regex}
use secure_sudoers_setup.Models.{ParameterConfig}

pub record ValidationParams : Type 0 where
  pub tool_name : Text
  pub parameters : Map ParameterConfig
  pub blocked_paths : List Text

pub record PositionalParams : Type 0 where
  pub tool_name : Text
  pub context : ValidationContext
  pub safe_re : Regex
  pub config : Option ParameterConfig
  pub blocked_paths : List Text

abbrev pub dash : Text
dash = b'-' ∷ []

abbrev pub double_dash : Text
double_dash = b'-' ∷ b'-' ∷ []

-- `arg.starts_with('-') && arg.len() > 1`
abbrev pub is_flag_like : Text → Bool
is_flag_like arg = starts_with_char arg b'-' && ltb 1 (byte_len arg)

abbrev pub redacted : Text
redacted = lit "[REDACTED]"

abbrev pub display : Bool → Text → Text
display sensitive val = if sensitive then redacted else val

-- `format!("{a}{b}{c}…")`
abbrev pub format : List Text → Text
format [] = []
format (t ∷ ts) = t ++ format ts

abbrev first_two : Text → Text
first_two [] = []
first_two (a ∷ []) = a ∷ []
first_two (a ∷ b ∷ s) = a ∷ b ∷ []

unfoldable pub sanitize_unknown_flag_for_error : Text → Text
sanitize_unknown_flag_for_error flag = elim (split_once b'=' flag) [
  | some (flag_name, rest) ↦ flag_name
  | none ↦
      if starts_with flag dash && not (starts_with flag double_dash) && ltb 2 (length flag)
      then first_two flag
      else flag
]

abbrev pub not_permitted : Text → Text → Error
not_permitted flag tool_name = validation (
    format (
      lit "Flag '"
      ∷ sanitize_unknown_flag_for_error flag
      ∷ lit "' is not permitted for tool '"
      ∷ tool_name
      ∷ lit "'"
      ∷ []))

unfoldable pub take_flag_value : Text → Option Text → List Text → Result Error (Text × List Text)
take_flag_value flag_name (some value) iter = ok (value, iter)
take_flag_value flag_name none [] =
    err (system (format (lit "Flag '" ∷ flag_name ∷ lit "' requires an argument" ∷ [])))
take_flag_value flag_name none (value ∷ iter) = ok (value, iter)

abbrev pub is_sensitive : Option ParameterConfig → Bool
is_sensitive none = false
is_sensitive (some c) = c.sensitive

-- `ValidationContext`'s `Display`
abbrev pub context_text : ValidationContext → Text
context_text positional = lit "positional"
context_text delimited_positional = lit "delimited positional"
context_text (ValidationContext.flag s) = format (lit "flag '" ∷ s ∷ lit "'" ∷ [])

-- The closures that word the two refusals of a path.
abbrev pub flag_disallowed_msg : Text → Text → Text → Text → Bool → Text
flag_disallowed_msg flag_name val tool_name path sensitive =
    if sensitive
    then format (
        lit "Flag '"
        ∷ flag_name
        ∷ lit "' argument '"
        ∷ redacted
        ∷ lit "' is explicitly disallowed for tool '"
        ∷ tool_name
        ∷ lit "'"
        ∷ [])
    else format (
        lit "Flag '"
        ∷ flag_name
        ∷ lit "' argument '"
        ∷ val
        ∷ lit "' is explicitly disallowed for tool '"
        ∷ tool_name
        ∷ lit "' (resolved to canonical path '"
        ∷ path
        ∷ lit "')"
        ∷ [])

abbrev pub flag_policy_msg : Text → Text → Bool → Text
flag_policy_msg flag_name path sensitive = format (
    lit "Flag '"
    ∷ flag_name
    ∷ lit "' canonical path '"
    ∷ display sensitive path
    ∷ lit "' is not permitted by policy"
    ∷ [])

abbrev pub positional_disallowed_msg : Text → Text → Text → Bool → Text
positional_disallowed_msg display_arg tool_name path sensitive =
    if sensitive
    then format (
        lit "Positional argument '"
        ∷ display_arg
        ∷ lit "' is explicitly disallowed for tool '"
        ∷ tool_name
        ∷ lit "'"
        ∷ [])
    else format (
        lit "Positional argument '"
        ∷ display_arg
        ∷ lit "' is explicitly disallowed for tool '"
        ∷ tool_name
        ∷ lit "' (resolved to canonical path '"
        ∷ path
        ∷ lit "')"
        ∷ [])

abbrev pub positional_policy_msg : Text → Bool → Text
positional_policy_msg path sensitive = format (
    lit "Positional argument canonical path '"
    ∷ display sensitive path
    ∷ lit "' is not permitted by policy"
    ∷ [])

-- `split_once` as the pair of the flag's name and the value behind `=`.
abbrev pub name_and_value : Text → Option (Text × Text) → Text × Option Text
name_and_value flag none = (flag, none)
name_and_value flag (some (name, val)) = (name, some val)

abbrev pub split_flag : Text → Option Text → Text × Option Text
split_flag flag (some val) = (flag, some val)
split_flag flag none = name_and_value flag (split_once b'=' flag)
