-- ===== src/Binding.antt =====
-- `crates/secure-sudoers/src/helpers/binding.rs`: the file that sudo was asked for is the binary that
-- was validated. Log lines are left out.
pub mod Identity
use secure_sudoers_setup.Base.{
  ℕ, Bool, true, false, not, ◌&&◌, ◌==◌, List, [], ◌∷◌, ◌++◌, Option, none, some, Result, ok, err,
  ◌>>=◌, map_err, if◌then◌else◌, is_empty,
}
use secure_sudoers_setup.Text.{Text, lit, text_eq, has_char}
use secure_sudoers_setup.Error.{Error, IoError, io_context, validation, system, to_text}
use secure_sudoers_setup.Fs.{Fd, SecurePath}
use secure_sudoers_setup.SudoCommand.{
  SudoCommandTokenError, invalid_prefix, missing_delegated_command, basename,
  delegated_command_token_from_sudo_command,
}

pub record ExecutableIdentity : Type 0 where
  pub dev : ℕ
  pub ino : ℕ

-- `#[derive(PartialEq)]`
abbrev pub same_identity : ExecutableIdentity → ExecutableIdentity → Bool
same_identity a b = a.dev == b.dev && a.ino == b.ino

pub record SudoBindingError : Type 0 where
  pub message : Text
  pub observed_sudo_path : Option Text

-- `SudoBindingError::new`
abbrev pub binding_error : Text → Option Text → SudoBindingError
binding_error message observed = record { message = message; observed_sudo_path = observed }

-- The kernel's answers.
pub record Kernel : Type 0 where
  -- `open(path, O_PATH | O_CLOEXEC)`
  pub open_path : Text → Result IoError Fd
  -- `fstat(fd)`
  pub fstat : Fd → Result IoError ExecutableIdentity

abbrev invalid_prefix_message : Text
invalid_prefix_message = lit "Spoofing attempt detected: invalid SUDO_COMMAND command prefix"

abbrev missing_token_message : Text
missing_token_message =
    lit "Spoofing attempt detected: SUDO_COMMAND is missing delegated command token"

abbrev unverifiable_message : Text
unverifiable_message = lit "Spoofing attempt detected: unable to verify executable identity"

abbrev pub token_of : Result SudoCommandTokenError Text → Result SudoBindingError Text
token_of (ok token) = ok token
token_of (err invalid_prefix) = err (binding_error invalid_prefix_message none)
token_of (err missing_delegated_command) = err (binding_error missing_token_message none)

module _ (kernel : Kernel) where
  unfoldable pub executable_identity_from_fd : Fd → Result Error ExecutableIdentity
  executable_identity_from_fd fd = map_err (io_context (lit "fstat failed")) (kernel.fstat fd)

  unfoldable pub executable_identity_from_path : Text → Result Error ExecutableIdentity
  executable_identity_from_path path =
      if has_char 0 path
      then err
          (validation (lit "cannot open executable path '" ++ (path ++ lit "': invalid NUL byte")))
      else (do
        fd ←
            map_err (io_context (lit "cannot open executable path '" ++ (path ++ lit "'")))
              (kernel.open_path path)
        map_err
            (λ e.
              system (lit "cannot stat executable path '" ++ (path ++ (lit "': " ++ to_text e))))
            (executable_identity_from_fd fd))

  -- What is left when the names agree and the token is a path.
  unfoldable pub compare_identities : Text → SecurePath → Text → Result SudoBindingError (Unit {0})
  compare_identities expected_tool expected_binary sudo_tool_token = do
    sudo_identity ←
        map_err (λ _. binding_error unverifiable_message (some sudo_tool_token))
          (executable_identity_from_path sudo_tool_token)
    expected_identity ←
        map_err (λ _. binding_error unverifiable_message (some expected_binary.path))
          (executable_identity_from_fd expected_binary.fd)
    if not (same_identity sudo_identity expected_identity)
        then err (
            binding_error
              (lit "Spoofing attempt detected: executable identity mismatch for command '"
                ++ (expected_tool ++ lit "'"))
              (some sudo_tool_token))
        else ok tt

  unfoldable pub verify_token : Text → SecurePath → Text → Result SudoBindingError (Unit {0})
  verify_token tool_name expected_binary sudo_tool_token =
      let expected_tool = basename tool_name in
      let sudo_tool = basename sudo_tool_token in
      if is_empty sudo_tool_token
      then err (binding_error missing_token_message none)
      else if not (text_eq sudo_tool expected_tool)
      then err (
          binding_error
            (lit "Spoofing attempt detected: command '"
              ++ (expected_tool
                  ++ (lit "' does not match SUDO_COMMAND '" ++ (sudo_tool ++ lit "'"))))
            (if has_char b'/' sudo_tool_token then some sudo_tool_token else none))
      else if not (has_char b'/' sudo_tool_token)
      then ok tt
      else compare_identities expected_tool expected_binary sudo_tool_token

  abbrev verify_env : Text → SecurePath → Option Text → Result SudoBindingError (Unit {0})
  verify_env tool_name expected_binary none = ok tt
  verify_env tool_name expected_binary (some sudo_cmd) = do
    sudo_tool_token ← token_of (delegated_command_token_from_sudo_command sudo_cmd)
    verify_token tool_name expected_binary sudo_tool_token

  -- The environment is a parameter.
  unfoldable pub verify_sudo_command_binding_internal :
      Text → SecurePath → (Text → Option Text) → Result SudoBindingError (Unit {0})
  verify_sudo_command_binding_internal tool_name expected_binary get_env =
      verify_env tool_name expected_binary (get_env (lit "SUDO_COMMAND"))
