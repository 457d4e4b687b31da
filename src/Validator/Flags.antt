-- ===== src/Validator/Flags.antt =====
-- `process_long_flag`, `process_short_flag` and what they call, of `validator/helpers.rs`.
use secure_sudoers_setup.Base.{
  ℕ, true, false, List, [], ◌∷◌, ◌++◌, Option, none, some, Result, ok, err, ◌>>=◌, if◌then◌else◌,
}
use secure_sudoers_setup.Text.{Text, lit}
use secure_sudoers_setup.Map.{get, is_some}
use secure_sudoers_setup.Error.{Error, validation, system}
use secure_sudoers_setup.Fs.{FileSystem, ValidationContext}
use secure_sudoers_setup.Regex.{RegexEngine}
use secure_sudoers_setup.Models.{
  ParameterType, ParameterConfig, is_bool, is_explicitly_disallowed, matches_allowed_or_regex,
}
use secure_sudoers_setup.Validator.Types.{ValidatedArg}
use secure_sudoers_setup.Validator.Helpers.{
  ValidationParams, display, format, not_permitted, take_flag_value, flag_disallowed_msg,
  flag_policy_msg, split_flag,
}
use secure_sudoers_setup.Validator.Positional.{validate_path_value}

-- What a step leaves: the arguments not read yet, and the accepted ones.
pub record Progress : Type 0 where
  pub iter : List Text
  pub out : List ValidatedArg

module _ (fs : FileSystem) (engine : RegexEngine) (params : ValidationParams) where
  unfoldable pub push_string_flag_value :
      Text → Text → ParameterConfig → List ValidatedArg → Result Error (List ValidatedArg)
  push_string_flag_value flag_name val c out =
      let display_val = display c.sensitive val in
      if is_explicitly_disallowed c val
      then err (
          validation (
            format (
              lit "Flag '"
              ∷ flag_name
              ∷ lit "' argument '"
              ∷ display_val
              ∷ lit "' is explicitly disallowed for tool '"
              ∷ params.tool_name
              ∷ lit "'"
              ∷ [])))
      else if matches_allowed_or_regex engine c val
      then ok (out ++ ValidatedArg.string flag_name ∷ ValidatedArg.string val ∷ [])
      else err (
          validation (
            format (
              lit "Flag '"
              ∷ flag_name
              ∷ lit "' argument '"
              ∷ display_val
              ∷ lit "' is not permitted by policy"
              ∷ [])))

  unfoldable pub push_path_flag_value :
      Text → Text → ParameterConfig → List ValidatedArg → Result Error (List ValidatedArg)
  push_path_flag_value flag_name val c out = do
    secure_path ←
        validate_path_value fs engine val c (ValidationContext.flag flag_name) params.blocked_paths
          (flag_disallowed_msg flag_name val params.tool_name) (flag_policy_msg flag_name)
    ok (out ++ ValidatedArg.string flag_name ∷ ValidatedArg.path secure_path ∷ [])

  -- The `match` on the type of the parameter.
  unfoldable pub process_typed :
      ParameterType
      → ParameterConfig
      → Text
      → Option Text
      → List Text
      → List ValidatedArg
      → Result Error Progress
  process_typed ParameterType.bool c flag_name provided iter out =
      if is_some provided
      then err (system (format (lit "Flag '" ∷ flag_name ∷ lit "' does not take an argument" ∷ [])))
      else ok (record { iter = iter; out = out ++ ValidatedArg.string flag_name ∷ [] })
  process_typed ParameterType.string c flag_name provided iter out = do
    (val, iter') ← take_flag_value flag_name provided iter
    out' ← push_string_flag_value flag_name val c out
    ok (record { iter = iter'; out = out' })
  process_typed ParameterType.path c flag_name provided iter out = do
    (val, iter') ← take_flag_value flag_name provided iter
    out' ← push_path_flag_value flag_name val c out
    ok (record { iter = iter'; out = out' })

  -- `none` is the source's `Ok(false)`: the flag is not declared, and nothing has changed.
  unfoldable pub process_known :
      Option ParameterConfig
      → Text
      → Option Text
      → List Text
      → List ValidatedArg
      → Result Error (Option Progress)
  process_known none flag_name provided iter out = ok none
  process_known (some c) flag_name provided iter out = do
    done ← process_typed c.param_type c flag_name provided iter out
    ok (some done)

  unfoldable pub process_flag_with_value :
      Text → Option Text → List Text → List ValidatedArg → Result Error (Option Progress)
  process_flag_with_value flag attached_value iter out =
      let (flag_name, provided) = split_flag flag attached_value in
      process_known (get flag_name params.parameters) flag_name provided iter out

  -- `process_any_flag`
  abbrev pub or_not_permitted : Text → Option Progress → Result Error Progress
  or_not_permitted flag none = err (not_permitted flag params.tool_name)
  or_not_permitted flag (some done) = ok done

  unfoldable pub process_long_flag : Text → List Text → List ValidatedArg → Result Error Progress
  process_long_flag flag iter out = do
    handled ← process_flag_with_value flag none iter out
    or_not_permitted flag handled

  abbrev pub attached : List ℕ → Option Text
  attached [] = none
  attached (c ∷ cs) = some (c ∷ cs)

  -- The flag of one character.
  abbrev pub short_flag : ℕ → Text
  short_flag c = b'-' ∷ c ∷ []

  -- `process_flag_with_value(&s, attached_value, …)?; return Ok(())`: the flag is known here.
  abbrev pub or_unchanged : List Text → List ValidatedArg → Option Progress → Progress
  or_unchanged iter out none = record { iter = iter; out = out }
  or_unchanged iter out (some done) = done

  -- The loop over the characters of a cluster.
  unfoldable pub process_cluster : List ℕ → List Text → List ValidatedArg → Result Error Progress
  process_cluster [] iter out = ok (record { iter = iter; out = out })
  process_cluster (c ∷ cs) iter out = elim (get (short_flag c) params.parameters) [
    | none ↦ err (not_permitted (short_flag c) params.tool_name)
    | some config ↦ elim (is_bool config.param_type) [
      | true ↦ process_cluster cs iter (out ++ ValidatedArg.string (short_flag c) ∷ [])
      | false ↦ do
        handled ← process_flag_with_value (short_flag c) (attached cs) iter out
        ok (or_unchanged iter out handled)
    ]
  ]

  abbrev pub drop_first : Text → List ℕ
  drop_first [] = []
  drop_first (c ∷ cs) = cs

  abbrev pub or_cluster :
      Text → List Text → List ValidatedArg → Option Progress → Result Error Progress
  or_cluster arg iter out none = process_cluster (drop_first arg) iter out
  or_cluster arg iter out (some done) = ok done

  unfoldable pub process_short_flag : Text → List Text → List ValidatedArg → Result Error Progress
  process_short_flag arg iter out = do
    handled ← process_flag_with_value arg none iter out
    or_cluster arg iter out handled
