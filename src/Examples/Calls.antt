-- ===== src/Examples/Calls.antt =====
-- Invocations, directly and under sudo.
use secure_sudoers_setup.Base.{
  List, [], ◌∷◌, Option, none, some, ok, err, ◌≡◌, ◌≢◌, ◌↔◌, refl, arith, All, take, map,
}
use secure_sudoers_setup.Text.{Text, lit, text_eq, split, has_char, trim_start, is_whitespace}
use secure_sudoers_setup.Path.{components, file_name, last_component}
use secure_sudoers_setup.Fs.{SecurePath}
use secure_sudoers_setup.SudoCommand.{
  split_sudo_command_prefix_tokens, read_token, consume, basename,
  delegated_command_token_from_sudo_command,
}
use secure_sudoers_setup.SudoCommand.Words.{
  escape_words, delegated_word, split-escape_words, split-take, delegated-escape_words,
}
use secure_sudoers_setup.Invocation.{
  parse_proc_self_cmdline_bytes, parse_invocation_internal, read_argv, agree, missing_token_error,
}
use secure_sudoers_setup.Invocation.Cmdline.{cmdline, parse-cmdline}
use secure_sudoers_setup.Invocation.Agreement.{
  Agrees, IsSpoofing, parse_invocation-Agrees, parse_invocation-IsSpoofing,
}
use secure_sudoers_setup.Binding.{verify_sudo_command_binding_internal}
use secure_sudoers_setup.Binding.Identity.{IsBound, verify_sudo_command_binding_iff}
use secure_sudoers_setup.Examples.Data.{kernel, sudo_env}

abbrev words : List Text
unfolding lit
words = lit "/usr/bin/apt" ∷ lit "a b" ∷ []

words-ne-nil : All (λ (w : Text). w ≢ []) words
unfolding lit
words-ne-nil = (λ e. cc, (λ e. cc, tt))

split-escape_words_example :
    split_sudo_command_prefix_tokens 1 (escape_words words) ≡ some (take 1 words)
split-escape_words_example = split-escape_words 1 words words-ne-nil

delegated-escape_words_example :
    delegated_command_token_from_sudo_command (escape_words words) ≡ delegated_word words
delegated-escape_words_example = delegated-escape_words words words-ne-nil

abbrev quoted : Text
unfolding lit
quoted = lit "'/opt/my tool' x"

splits : split_sudo_command_prefix_tokens 2 quoted ≡ some (lit "/opt/my tool" ∷ lit "x" ∷ [])
unfolding split_sudo_command_prefix_tokens read_token consume trim_start is_whitespace lit
splits = refl

split-take_example :
    split_sudo_command_prefix_tokens 1 quoted ≡ some (take 1 (lit "/opt/my tool" ∷ lit "x" ∷ []))
split-take_example = split-take 1 2 quoted (lit "/opt/my tool" ∷ lit "x" ∷ []) (omega arith) splits

-- `'/opt/my tool` leaves its quote open.
open_quote : split_sudo_command_prefix_tokens 1 (lit "'/opt/my tool") ≡ none
unfolding split_sudo_command_prefix_tokens read_token consume trim_start is_whitespace lit
open_quote = refl

abbrev argv : List Text
unfolding lit
argv = lit "apt" ∷ lit "update" ∷ []

argv-ne-nil : argv ≢ []
unfolding lit
argv-ne-nil e = cc

parses : parse_invocation_internal argv sudo_env ≡ ok (lit "apt", lit "update" ∷ [])
unfolding parse_invocation_internal read_argv agree delegated_command_token_from_sudo_command
    split_sudo_command_prefix_tokens read_token consume basename file_name last_component components
    split text_eq trim_start is_whitespace lit
parses = refl

under_sudo : sudo_env (lit "SUDO_COMMAND") ≡ some (lit "/usr/bin/apt update --quiet")
unfolding lit
under_sudo = refl

parse_invocation-Agrees_example :
    Agrees (lit "/usr/bin/apt update --quiet") argv (lit "apt") (lit "update" ∷ [])
parse_invocation-Agrees_example =
    parse_invocation-Agrees argv sudo_env (lit "/usr/bin/apt update --quiet") (lit "apt")
      (lit "update" ∷ []) argv-ne-nil under_sudo parses

abbrev empty_env : Text → Option Text
empty_env name = some []

refuses : parse_invocation_internal argv empty_env ≡ err missing_token_error
unfolding parse_invocation_internal read_argv agree delegated_command_token_from_sudo_command
    split_sudo_command_prefix_tokens basename file_name last_component components split text_eq
    trim_start is_whitespace lit
refuses = refl

parse_invocation-IsSpoofing_example :
    IsSpoofing missing_token_error × (empty_env (lit "SUDO_COMMAND") ≢ none)
parse_invocation-IsSpoofing_example =
    parse_invocation-IsSpoofing argv empty_env missing_token_error refuses

parse-cmdline_example :
    parse_proc_self_cmdline_bytes (λ bytes. some bytes) (cmdline (map (λ (t : Text). t) argv))
    ≡ ok argv
unfolding has_char lit
parse-cmdline_example =
    parse-cmdline (λ bytes. some bytes) (λ t. t) (lit "apt") (lit "update" ∷ []) (λ t. refl)
      (refl, (refl, tt))

abbrev binary : SecurePath
unfolding lit
binary = record { path = lit "/usr/bin/apt"; fd = 6 }

verify_sudo_command_binding_iff_example :
    (verify_sudo_command_binding_internal kernel (lit "apt") binary sudo_env ≡ ok tt)
    ↔ IsBound kernel binary (lit "apt") (lit "/usr/bin/apt update --quiet")
verify_sudo_command_binding_iff_example =
    verify_sudo_command_binding_iff kernel binary (lit "apt") (lit "/usr/bin/apt update --quiet")
      sudo_env under_sudo
