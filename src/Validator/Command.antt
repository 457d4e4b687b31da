-- ===== src/Validator/Command.antt =====
-- `validate_command` of `validator.rs`.
use secure_sudoers_setup.Base.{
  ℕ, zero, suc, true, false, List, [], ◌∷◌, ◌++◌, Option, none, some, Result, ok, err, ◌>>=◌,
  map_err, ok_or, if◌then◌else◌, length,
}
use secure_sudoers_setup.Text.{Text, lit, text_eq, contains, starts_with}
use secure_sudoers_setup.Map.{get}
use secure_sudoers_setup.Error.{Error, to_text}
use secure_sudoers_setup.Fs.{
  FileSystem, positional, delimited_positional, check_path, SecurePath, ValidationContext,
}
use secure_sudoers_setup.Regex.{Regex, RegexEngine, regex_new}
use secure_sudoers_setup.Models.{ToolPolicy, SecureSudoersPolicy, default_isolation_settings}
use secure_sudoers_setup.Validator.Types.{
  ValidatedArg, ValidationResult, ValidationDenial, denial, with_rule,
}
use secure_sudoers_setup.Validator.Helpers.{
  ValidationParams, PositionalParams, double_dash, is_flag_like, format,
}
use secure_sudoers_setup.Validator.Positional.{push_positional}
use secure_sudoers_setup.Validator.Flags.{Progress, process_long_flag, process_short_flag}

-- `telemetry::denial_reason`
abbrev pub missing_tool : Text
missing_tool = lit "missing_tool"

abbrev pub blocked_path : Text
blocked_path = lit "blocked_path"

abbrev pub blocked_argument : Text
blocked_argument = lit "blocked_argument"

abbrev pub missing_verb : Text
missing_verb = lit "missing_verb"

abbrev pub unknown_verb : Text
unknown_verb = lit "unknown_verb"

abbrev pub unknown_flag : Text
unknown_flag = lit "unknown_flag"

abbrev pub policy_error : Text
policy_error = lit "policy_error"

-- `.map_err(|e| ValidationDenial::new(e.to_string(), slug).with_rule(&rule_id))`
abbrev pub denied_as : Text → Text → Error → ValidationDenial
denied_as slug rule_id e = with_rule (denial (to_text e) slug) rule_id

abbrev pub unwrap_or {ℓ} : {A : Type ℓ} → Option A → A → A
unwrap_or none d = d
unwrap_or (some a) d = a

abbrev or_else {ℓ} : {A : Type ℓ} → Option A → Option A → Option A
or_else none o = o
or_else (some a) o = some a

-- `seen.insert(key)` and the push, for every key of the two whitelists in turn.
unfoldable pub merge_env : List Text → List Text → List Text
merge_env merged [] = merged
merge_env merged (key ∷ keys) =
    merge_env (if contains merged key then merged else merged ++ key ∷ []) keys

-- The test of the verb: the arguments behind it, and the accepted ones.
unfoldable pub take_verb :
    Text → Text → List Text → List Text → Result ValidationDenial (List Text × List ValidatedArg)
take_verb tool_name rule_id [] raw_args = ok (raw_args, [])
take_verb tool_name rule_id (v ∷ verbs) [] = err (
    with_rule
      (denial (format (lit "Tool '" ∷ tool_name ∷ lit "' requires a verb" ∷ [])) missing_verb)
      rule_id)
take_verb tool_name rule_id (v ∷ verbs) (verb ∷ iter) =
    if contains (v ∷ verbs) verb
    then ok (iter, ValidatedArg.string verb ∷ [])
    else err (
        with_rule
          (denial
            (format (
              lit "Verb '" ∷ verb ∷ lit "' is not permitted for tool '" ∷ tool_name ∷ lit "'" ∷ []))
            unknown_verb)
          rule_id)

module _ (fs : FileSystem) (engine : RegexEngine) (rule_id : Text)
    (v_params : ValidationParams) where
  -- `for rem in iter`, behind `--`.
  unfoldable pub push_delimited :
      PositionalParams → List Text → List ValidatedArg → Result ValidationDenial (List ValidatedArg)
  push_delimited p_params [] out = ok out
  push_delimited p_params (rem ∷ iter) out = do
    out' ← map_err (denied_as blocked_argument rule_id) (push_positional fs engine rem p_params out)
    push_delimited p_params iter out'

  -- One round of the loop on an argument that is not `--`.
  unfoldable pub process_arg :
      PositionalParams → Text → List Text → List ValidatedArg → Result ValidationDenial Progress
  process_arg p_params arg iter out =
      if starts_with arg double_dash
      then map_err (denied_as unknown_flag rule_id)
          (process_long_flag fs engine v_params arg iter out)
      else if is_flag_like arg
      then map_err (denied_as unknown_flag rule_id)
          (process_short_flag fs engine v_params arg iter out)
      else (do
        out' ←
            map_err (denied_as blocked_argument rule_id)
              (push_positional fs engine arg p_params out)
        ok (record { iter = iter; out = out' }))

  -- The loop, with fuel: `none` if it runs out. Each round reads at least one argument.
  unfoldable pub validate_args :
      ℕ
      → PositionalParams
      → PositionalParams
      → List Text
      → List ValidatedArg
      → Option (Result ValidationDenial (List ValidatedArg))
  validate_args fuel before behind [] out = some (ok out)
  validate_args zero before behind (arg ∷ iter) out = none
  validate_args (suc fuel) before behind (arg ∷ iter) out = elim (text_eq arg double_dash) [
    | true ↦ some (push_delimited behind iter out)
    | false ↦ elim (process_arg before arg iter out) [
      | err d ↦ some (err d)
      | ok done ↦ validate_args fuel before behind done.iter done.out
    ]
  ]

-- What is settled before the loop over the arguments.
pub record Prepared : Type 0 where
  pub tool : ToolPolicy
  pub rule_id : Text
  pub binary : SecurePath
  pub safe_re : Regex
  pub iter : List Text
  pub out : List ValidatedArg

module _ (fs : FileSystem) (engine : RegexEngine) (policy : SecureSudoersPolicy)
    (tool_name : Text) where
  unfoldable pub prepare_tool : ToolPolicy → List Text → Result ValidationDenial Prepared
  prepare_tool tool raw_args = do
    let rule_id = unwrap_or tool.id tool_name
    binary ←
        map_err (denied_as blocked_path rule_id)
          (check_path fs tool.real_binary positional policy.global_settings.blocked_paths)
    safe_re ←
        ok_or (regex_new engine policy.global_settings.safe_arg_regex)
          (with_rule (denial (lit "Policy contains invalid safe_arg_regex") policy_error) rule_id)
    (iter, out) ← take_verb tool_name rule_id tool.verbs raw_args
    ok (record {
      tool = tool;
      rule_id = rule_id;
      binary = binary;
      safe_re = safe_re;
      iter = iter;
      out = out;
    })

  unfoldable pub prepare : List Text → Result ValidationDenial Prepared
  unfolding prepare_tool
  prepare raw_args = do
    tool ← ok_or (get tool_name policy.tools) (
        denial (format (lit "Tool '" ∷ tool_name ∷ lit "' is not permitted by policy" ∷ []))
          missing_tool)
    prepare_tool tool raw_args

  abbrev pub flag_params : ToolPolicy → ValidationParams
  flag_params tool = record {
    tool_name = tool_name;
    parameters = tool.parameters;
    blocked_paths = policy.global_settings.blocked_paths;
  }

  abbrev pub positional_params : ToolPolicy → Regex → ValidationContext → PositionalParams
  positional_params tool safe_re context = record {
    tool_name = tool_name;
    context = context;
    safe_re = safe_re;
    config = tool.positional;
    blocked_paths = policy.global_settings.blocked_paths;
  }

  unfoldable pub assemble : Prepared → List ValidatedArg → ValidationResult
  assemble p out = record {
    command = record {
      binary = p.binary;
      args = out;
      isolation =
          unwrap_or (or_else p.tool.isolation policy.global_settings.default_isolation)
            default_isolation_settings;
      env_whitelist =
          merge_env [] (policy.global_settings.common_env_whitelist ++ p.tool.env_whitelist);
    };
    rule_id = p.rule_id;
  }

  abbrev pub finish_with :
      Prepared
      → Option (Result ValidationDenial (List ValidatedArg))
      → Option (Result ValidationDenial ValidationResult)
  finish_with p none = none
  finish_with p (some (ok out)) = some (ok (assemble p out))
  finish_with p (some (err d)) = some (err d)

  unfoldable pub run_args : Prepared → Option (Result ValidationDenial (List ValidatedArg))
  run_args p =
      validate_args fs engine p.rule_id (flag_params p.tool) (length p.iter)
        (positional_params p.tool p.safe_re positional)
        (positional_params p.tool p.safe_re delimited_positional) p.iter p.out

  abbrev pub run_prepared :
      Result ValidationDenial Prepared → Option (Result ValidationDenial ValidationResult)
  run_prepared (err d) = some (err d)
  run_prepared (ok p) = finish_with p (run_args p)

  unfoldable pub validate_command : List Text → Option (Result ValidationDenial ValidationResult)
  validate_command raw_args = run_prepared (prepare raw_args)
