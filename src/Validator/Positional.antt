-- ===== src/Validator/Positional.antt =====
-- `validate_path_value` and `push_positional` of `validator/helpers.rs`.
use secure_sudoers_setup.Base.{
  Bool, List, [], ◌∷◌, ◌++◌, Option, none, some, Result, ok, err, ◌>>=◌, map_err, if◌then◌else◌,
}
use secure_sudoers_setup.Text.{Text, lit}
use secure_sudoers_setup.Error.{Error, to_text, validation, security, system}
use secure_sudoers_setup.Fs.{FileSystem, SecurePath, ValidationContext, check_path}
use secure_sudoers_setup.Regex.{RegexEngine}
use secure_sudoers_setup.Models.{
  ParameterConfig, is_path, is_explicitly_disallowed, matches_allowed_or_regex,
}
use secure_sudoers_setup.Validator.Types.{ValidatedArg}
use secure_sudoers_setup.Validator.Helpers.{
  PositionalParams, is_flag_like, display, format, is_sensitive, context_text,
  positional_disallowed_msg, positional_policy_msg,
}

-- The configuration, if it is one of type `path`.
abbrev pub path_config : Option ParameterConfig → Option ParameterConfig
path_config none = none
path_config (some c) = if is_path c.param_type then some c else none

module _ (fs : FileSystem) (engine : RegexEngine) where
  unfoldable pub validate_path_value :
      Text
      → ParameterConfig
      → ValidationContext
      → List Text
      → (Text → Bool → Text)
      → (Text → Bool → Text)
      → Result Error SecurePath
  validate_path_value raw_value c context blocked_paths disallowed_msg policy_msg = do
    secure_path ←
        map_err
          (λ e.
            validation
              (if c.sensitive then lit "Access to a sensitive path was denied" else to_text e))
          (check_path fs raw_value context blocked_paths)
    if is_explicitly_disallowed c secure_path.path
        then err (validation (disallowed_msg secure_path.path c.sensitive))
        else if matches_allowed_or_regex engine c secure_path.path
        then ok secure_path
        else err (Error.config (policy_msg secure_path.path c.sensitive))

  -- The tests of `if let Some(config) = params.config` on an argument that is no path.
  unfoldable pub check_value : Option ParameterConfig → Text → Text → Text → Result Error (Unit {0})
  check_value none arg display_arg tool_name = ok tt
  check_value (some c) arg display_arg tool_name =
      if is_explicitly_disallowed c arg
      then err (
          validation (
            format (
              lit "Positional argument '"
              ∷ display_arg
              ∷ lit "' is explicitly disallowed for tool '"
              ∷ tool_name
              ∷ lit "'"
              ∷ [])))
      else if matches_allowed_or_regex engine c arg
      then ok tt
      else err (
          validation (
            format (
              lit "Positional argument '" ∷ display_arg ∷ lit "' is not permitted by policy" ∷ [])))

  -- The argument itself is shown here, also where the parameter is sensitive.
  unfoldable pub check_not_flag : ValidationContext → Text → Result Error (Unit {0})
  check_not_flag context arg =
      if is_flag_like arg
      then err (
          security (
            format (
              lit "Security failure: illegal flag-like positional argument '"
              ∷ arg
              ∷ lit "' in '"
              ∷ context_text context
              ∷ lit "' context"
              ∷ [])))
      else ok tt

  -- Behind the test of `safe_re`.
  unfoldable pub push_safe :
      Option ParameterConfig
      → Text
      → Text
      → PositionalParams
      → List ValidatedArg
      → Result Error (List ValidatedArg)
  push_safe (some c) arg display_arg params out = do
    secure_path ←
        validate_path_value arg c params.context params.blocked_paths
          (positional_disallowed_msg display_arg params.tool_name) positional_policy_msg
    ok (out ++ ValidatedArg.path secure_path ∷ [])
  push_safe none arg display_arg params out = do
    permitted ← check_value params.config arg display_arg params.tool_name
    plain ← check_not_flag params.context arg
    ok (out ++ ValidatedArg.string arg ∷ [])

  unfoldable pub push_positional :
      Text → PositionalParams → List ValidatedArg → Result Error (List ValidatedArg)
  push_positional arg params out =
      let display_arg = display (is_sensitive params.config) arg in
      if engine.is_match params.safe_re arg
      then push_safe (path_config params.config) arg display_arg params out
      else err (
          system (
            format (
              lit "Positional argument '"
              ∷ display_arg
              ∷ lit "' contains illegal characters"
              ∷ [])))
