-- ===== src/Examples/Policies.antt =====
-- The policy of the other examples, loaded and validated.
use secure_sudoers_setup.Base.{
  ℕ, ◌<◌, ◌≤◌, true, [], ◌∷◌, ◌++◌, some, ok, ◌≡◌, ◌⊎◌, ◌↔◌, refl, arith, map,
}
use secure_sudoers_setup.Text.{Text, lit, text_eq, split, has_char, trim, is_whitespace}
use secure_sudoers_setup.Map.{get}
use secure_sudoers_setup.Path.{components}
use secure_sudoers_setup.Fs.{check_path, check_blocked, is_blocked}
use secure_sudoers_setup.Regex.{regex_new}
use secure_sudoers_setup.Models.{ParameterConfig, ToolPolicy, SecureSudoersPolicy, matches}
use secure_sudoers_setup.Models.Parameter.{Listed, Permits, matches_iff}
use secure_sudoers_setup.Models.Validate.{
  concat, validate, canonicalize_blocked, validate_tools, validate_tool, is_valid_tool_name,
  validate_parameters, validate_config, compile_parameter_regex,
  canonicalize_path_list_config_entries,
}
use secure_sudoers_setup.Models.Validated.{
  IsReady, PatternPermits, validate-IsReady, validated_matches_iff,
}
use secure_sudoers_setup.Policy.{
  load_policy_with_pubkey, read_verifying_key, read_signature, public_key_path,
}
use secure_sudoers_setup.Policy.Pem.{
  read_pem_bytes, read_file_to_string_securely, absolute_path, decode_section, pem_section,
  joined_until, behind_line, lines, begin_line, end_line, pem_section-append,
}
use secure_sudoers_setup.Policy.Authentic.{IsAuthentic, load_policy-IsAuthentic}
use secure_sudoers_setup.Kernel.{
  leading_digits, ensure_minimum_kernel_version_for_release, parse_kernel_release,
}
use secure_sudoers_setup.Kernel.Release.{
  release_text, ensure_minimum_kernel_version_iff, parse_kernel_release-show,
}
use secure_sudoers_setup.Examples.Data.{
  open_fs, engine, no_files, pem_files, codecs, read, policy, apt, switch, secret,
}

abbrev ready_secret : ParameterConfig
unfolding lit
ready_secret = record secret { compiled_regex = some (record { pattern = lit "^[a-z]+$" }) }

abbrev ready_apt : ToolPolicy
unfolding lit
ready_apt = record apt {
  parameters =
      (lit "--quiet", switch) ∷ (lit "--token", ready_secret) ∷ (lit "-p", ready_secret) ∷ [];
  positional = some ready_secret;
}

abbrev ready_policy : SecureSudoersPolicy
unfolding lit
ready_policy = record policy { tools = (lit "apt", ready_apt) ∷ [] }

validates : validate engine no_files policy ≡ ok ready_policy
unfolding validate canonicalize_blocked validate_tools validate_tool is_valid_tool_name
    validate_parameters validate_config compile_parameter_regex
    canonicalize_path_list_config_entries regex_new lit text_eq has_char
validates = refl

validate-IsReady_example : IsReady engine no_files policy ready_policy
validate-IsReady_example = validate-IsReady engine no_files policy ready_policy validates

finds_tool : get (lit "apt") ready_policy.tools ≡ some ready_apt
unfolding get lit text_eq
finds_tool = refl

finds_parameter : get (lit "--token") ready_apt.parameters ≡ some ready_secret
unfolding get lit text_eq
finds_parameter = refl

validated_matches_iff_example : (matches engine ready_secret (lit "alice") ≡ true) ↔ (
    (¬ Listed ready_secret.disallowed (lit "alice"))
    × PatternPermits engine no_files ready_secret (lit "alice"))
validated_matches_iff_example =
    validated_matches_iff engine no_files policy ready_policy (lit "apt") (lit "--token") ready_apt
      ready_secret (lit "alice") validates finds_tool finds_parameter

matches_iff_example :
    (matches engine ready_secret (lit "root") ≡ true)
    ↔ ((¬ Listed ready_secret.disallowed (lit "root")) × Permits engine ready_secret (lit "root"))
matches_iff_example = matches_iff engine ready_secret (lit "root")

abbrev policy_path : Text
unfolding lit
policy_path = lit "/etc/secure-sudoers/policy.json"

loads :
    load_policy_with_pubkey open_fs engine no_files pem_files codecs read policy_path
      public_key_path
    ≡ ok ready_policy
unfolding load_policy_with_pubkey read_verifying_key read_signature read_pem_bytes
    read_file_to_string_securely absolute_path decode_section pem_section joined_until behind_line
    lines validate canonicalize_blocked validate_tools validate_tool is_valid_tool_name
    validate_parameters validate_config compile_parameter_regex
    canonicalize_path_list_config_entries regex_new lit text_eq has_char split check_path
    check_blocked is_blocked components trim
loads = refl

load_policy-IsAuthentic_example :
    IsAuthentic open_fs engine no_files pem_files codecs read policy_path public_key_path
      ready_policy
load_policy-IsAuthentic_example =
    load_policy-IsAuthentic open_fs engine no_files pem_files codecs read policy_path
      public_key_path ready_policy loads

pem_section-append_example :
    pem_section (lit "KEY") (
      (lit "text" ∷ [])
      ++ begin_line (lit "KEY") ∷ ((lit " AA" ∷ lit "BB" ∷ []) ++ end_line (lit "KEY") ∷ []))
    ≡ concat (map trim (lit " AA" ∷ lit "BB" ∷ []))
unfolding lit text_eq
pem_section-append_example =
    pem_section-append (lit "KEY") (lit "text" ∷ []) (lit " AA" ∷ lit "BB" ∷ []) [] (refl, tt)
      (refl, (refl, tt))

parse_kernel_release-show_example :
    parse_kernel_release (release_text 5 15 (lit ".0-91")) ≡ ok (5, 15)
unfolding lit is_whitespace leading_digits
parse_kernel_release-show_example =
    parse_kernel_release-show 5 15 (lit ".0-91") (omega arith) (omega arith)
      (refl, (refl, (refl, (refl, (refl, tt))))) refl

ensure_minimum_kernel_version_iff_example :
    (ensure_minimum_kernel_version_for_release (release_text 4 18 (lit ".20")) ≡ ok tt)
    ↔ ((4 < 4) ⊎ ((◌≡◌ {A = ℕ} 4 4) × (19 ≤ 18)))
unfolding lit is_whitespace leading_digits
ensure_minimum_kernel_version_iff_example =
    ensure_minimum_kernel_version_iff 4 18 (lit ".20") (omega arith) (omega arith)
      (refl, (refl, (refl, tt))) refl
