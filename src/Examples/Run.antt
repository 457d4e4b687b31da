-- ===== src/Examples/Run.antt =====
-- The whole program in one world.
use secure_sudoers_setup.Base.{
  ◌++◌, err, List, [], ◌∷◌, some, ok, ◌≡◌, refl, In, here, there, Result,
}
use secure_sudoers_setup.Text.{
  Text, lit, text_eq, contains, starts_with, has_char, split_once, utf8_len, byte_len,
  is_whitespace, trim_start, trim, split,
}
use secure_sudoers_setup.Map.{get, contains_key}
use secure_sudoers_setup.Path.{components, path_starts_with, last_component, file_name}
use secure_sudoers_setup.Fs.{is_blocked, check_blocked, check_path}
use secure_sudoers_setup.Regex.{regex_new}
use secure_sudoers_setup.Validator.Command.{
  validate_command, prepare, prepare_tool, take_verb, validate_args, run_args, assemble, merge_env,
  process_arg, push_delimited,
}
use secure_sudoers_setup.Validator.Types.{ValidationResult, ValidationDenial}
use secure_sudoers_setup.Validator.Flags.{
  process_long_flag, process_flag_with_value, process_known, process_typed,
}
use secure_sudoers_setup.Validator.Progress.{validate_command_total}
use secure_sudoers_setup.Validator.Sound.{IsGranted, validate_command-IsGranted}
use secure_sudoers_setup.Main.{
  supervise, main, load_and_invoke, invoke, decide, bind_and_approve, hash_and_approve, approve,
}
use secure_sudoers_setup.Policy.{
  load_policy, load_policy_with_pubkey, read_verifying_key, read_signature,
}
use secure_sudoers_setup.Policy.Pem.{
  read_pem_bytes, read_file_to_string_securely, absolute_path, decode_section, pem_section,
  joined_until, behind_line, lines,
}
use secure_sudoers_setup.Models.Validate.{
  validate, canonicalize_blocked, validate_tools, validate_tool, is_valid_tool_name,
  validate_parameters, validate_config, compile_parameter_regex,
  canonicalize_path_list_config_entries,
}
use secure_sudoers_setup.Kernel.{parse_kernel_release, ensure_minimum_kernel_version_for_release}
use secure_sudoers_setup.Invocation.{
  decode_chunks, read_argv, agree, parse_proc_self_cmdline_bytes, parse_invocation_internal,
}
use secure_sudoers_setup.Binding.{
  verify_token, compare_identities, executable_identity_from_path, executable_identity_from_fd,
  verify_sudo_command_binding_internal,
}
use secure_sudoers_setup.Redaction.{
  redact_args, redact_loop, redact_step, redact_flag, redact_plain, find_attached,
  is_known_flag_argument,
}
use secure_sudoers_setup.SudoCommand.{
  delegated_command_token_from_sudo_command, split_sudo_command_prefix_tokens, read_token, consume,
  basename,
}
use secure_sudoers_setup.Validator.Env.{KeepsListed, validate_command-KeepsListed}
use secure_sudoers_setup.Validator.Denied.{IsTraced, validate_command-IsTraced}
use secure_sudoers_setup.Validator.Helpers.{ValidationParams}
use secure_sudoers_setup.Validator.Forms.{process_long_flag_forms}
use secure_sudoers_setup.Main.Cleared.{IsCleared, main-IsCleared}
use secure_sudoers_setup.Examples.Data.{secret, apt, open_fs, engine, policy, command, world}

abbrev words : List Text
unfolding lit
words = lit "update" ∷ lit "--quiet" ∷ []

abbrev name : Text
unfolding lit
name = lit "apt"

abbrev result : ValidationResult
unfolding lit
result = record { command = command; rule_id = lit "apt-rule" }

validates : validate_command open_fs engine policy name words ≡ some (ok result)
unfolding validate_command prepare prepare_tool take_verb validate_args run_args assemble merge_env
    process_arg push_delimited process_long_flag process_flag_with_value process_known process_typed
    lit text_eq contains starts_with has_char split_once byte_len get check_path check_blocked
    is_blocked regex_new components path_starts_with split
validates = refl

validate_command-IsGranted_example : IsGranted open_fs engine policy name result
validate_command-IsGranted_example =
    validate_command-IsGranted open_fs engine policy name words result validates

validate_command_total_example :
    (r : Result ValidationDenial ValidationResult) × (validate_command open_fs engine policy name
        words
      ≡ some r)
validate_command_total_example = validate_command_total open_fs engine policy name words

runs : In (supervise command) (main world)
unfolding main load_and_invoke invoke decide bind_and_approve hash_and_approve approve load_policy
    load_policy_with_pubkey read_verifying_key read_signature read_pem_bytes
    read_file_to_string_securely absolute_path decode_section pem_section joined_until behind_line
    lines canonicalize_blocked validate_tools validate_tool is_valid_tool_name validate_parameters
    validate_config compile_parameter_regex canonicalize_path_list_config_entries validate
    ensure_minimum_kernel_version_for_release parse_kernel_release trim
    parse_proc_self_cmdline_bytes decode_chunks parse_invocation_internal read_argv agree
    delegated_command_token_from_sudo_command split_sudo_command_prefix_tokens read_token consume
    basename file_name last_component is_whitespace trim_start verify_sudo_command_binding_internal
    verify_token compare_identities executable_identity_from_path executable_identity_from_fd
    redact_args redact_loop redact_step redact_flag redact_plain find_attached
    is_known_flag_argument contains_key validate_command prepare prepare_tool take_verb
    validate_args run_args assemble merge_env process_arg push_delimited process_long_flag
    process_flag_with_value process_known process_typed lit text_eq contains starts_with has_char
    split_once byte_len utf8_len get check_path check_blocked is_blocked regex_new components
    path_starts_with split
runs = there here

main-IsCleared_example : IsCleared world command
main-IsCleared_example = main-IsCleared world command runs

finds_tool : get name policy.tools ≡ some apt
unfolding get lit text_eq
finds_tool = refl

validate_command-KeepsListed_example : KeepsListed open_fs engine policy name apt result
validate_command-KeepsListed_example =
    validate_command-KeepsListed open_fs engine policy name apt words result validates finds_tool

abbrev denied : ValidationDenial
unfolding lit
denied = record {
  reason = lit "Verb 'remove' is not permitted for tool 'apt'";
  reason_slug = lit "unknown_verb";
  rule_id = some (lit "apt-rule");
}

denies : validate_command open_fs engine policy name (lit "remove" ∷ []) ≡ some (err denied)
unfolding validate_command prepare prepare_tool take_verb run_args lit text_eq contains has_char get
    check_path check_blocked is_blocked regex_new components path_starts_with split
denies = refl

validate_command-IsTraced_example : IsTraced open_fs engine policy name denied
validate_command-IsTraced_example =
    validate_command-IsTraced open_fs engine policy name (lit "remove" ∷ []) denied denies

abbrev parameters : ValidationParams
parameters = record { tool_name = name; parameters = apt.parameters; blocked_paths = [] }

finds_token : get (lit "--token") parameters.parameters ≡ some secret
unfolding get lit text_eq
finds_token = refl

process_long_flag_forms_example :
    process_long_flag open_fs engine parameters (lit "--token" ++ b'=' ∷ lit "abc") [] []
    ≡ process_long_flag open_fs engine parameters (lit "--token") (lit "abc" ∷ []) []
unfolding lit has_char
process_long_flag_forms_example =
    process_long_flag_forms open_fs engine parameters (lit "--token") (lit "abc") [] [] secret refl
      finds_token refl
