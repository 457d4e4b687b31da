-- ===== src/Invocation.antt =====
-- `crates/secure-sudoers/src/helpers/invocation.rs`: the tool and its arguments from `argv` and
-- `SUDO_COMMAND`. Log lines are left out.
pub mod Cmdline
pub mod Agreement
use secure_sudoers_setup.Base.{
  ℕ, Bool, true, false, not, List, [], ◌∷◌, ◌++◌, Option, none, some, Result, ok, err, ◌>>=◌,
  if◌then◌else◌, is_empty, String,
}
use secure_sudoers_setup.Text.{Text, lit, text_eq, split}
use secure_sudoers_setup.Path.{file_name}
use secure_sudoers_setup.Error.{Error, validation, spoofing}
use secure_sudoers_setup.SudoCommand.{
  SudoCommandTokenError, invalid_prefix, missing_delegated_command, basename, is_own_name,
  delegated_command_token_from_sudo_command,
}

abbrev drop_last : List Text → List Text
drop_last [] = []
drop_last (c ∷ []) = if is_empty c then [] else c ∷ []
drop_last (c ∷ d ∷ cs) = c ∷ drop_last (d ∷ cs)

abbrev missing_argv : Error
missing_argv = validation (lit "Cannot parse /proc/self/cmdline: missing argv tokens")

abbrev non_utf8_argv : Error
non_utf8_argv = validation (lit "Cannot parse /proc/self/cmdline: non-UTF8 argv token")

abbrev utf8_or_error : Option Text → Result Error Text
utf8_or_error none = err non_utf8_argv
utf8_or_error (some t) = ok t

-- `std::str::from_utf8` is a parameter.
module _ (from_utf8 : List ℕ → Option Text) where
  unfoldable pub decode_chunks : List (List ℕ) → Result Error (List Text)
  decode_chunks [] = ok []
  decode_chunks (chunk ∷ chunks) = do
    token ← utf8_or_error (from_utf8 chunk)
    argv ← decode_chunks chunks
    ok (token ∷ argv)

  abbrev decode_argv : List (List ℕ) → Result Error (List Text)
  decode_argv [] = err missing_argv
  decode_argv (chunk ∷ chunks) = decode_chunks (chunk ∷ chunks)

  unfoldable pub parse_proc_self_cmdline_bytes : List ℕ → Result Error (List Text)
  parse_proc_self_cmdline_bytes bytes = decode_argv (drop_last (split 0 bytes))

-- How the program was called: the word for the tool, the tool's name, and the arguments.
pub record Called : Type 0 where
  pub token : Text
  pub name : Text
  pub args : List Text

abbrev called_through : List Text → Called
called_through [] = record { token = []; name = []; args = [] }
called_through (t ∷ args) = record { token = t; name = basename t; args = args }

abbrev or_empty : Option Text → Text
or_empty none = []
or_empty (some t) = t

-- The block over `raw_argv`, which is not empty here.
unfoldable pub read_argv : Text → List Text → Called
read_argv argv0 argv =
    let exe_name = or_empty (file_name argv0) in
    if is_own_name exe_name
    then called_through argv
    else record { token = argv0; name = exe_name; args = argv }

abbrev pub invalid_prefix_error : Error
invalid_prefix_error =
    spoofing (lit "Spoofing attempt detected: invalid SUDO_COMMAND command prefix")

abbrev pub missing_token_error : Error
missing_token_error =
    spoofing (lit "Spoofing attempt detected: SUDO_COMMAND is missing delegated command token")

abbrev pub mismatch_error : Text → Text → Error
mismatch_error argv_tool sudo_tool = spoofing (
    lit "Spoofing attempt detected: command '"
    ++ (argv_tool ++ (lit "' does not match SUDO_COMMAND '" ++ (sudo_tool ++ lit "'"))))

abbrev pub token_of : Result SudoCommandTokenError Text → Result Error Text
token_of (ok token) = ok token
token_of (err invalid_prefix) = err invalid_prefix_error
token_of (err missing_delegated_command) = err missing_token_error

unfoldable pub agree : Called → Text → Result Error (Text × List Text)
agree called sudo_tool_token =
    let argv_tool = basename called.token in
    let sudo_tool = basename sudo_tool_token in
    if is_empty sudo_tool_token
    then err missing_token_error
    else if not (text_eq sudo_tool argv_tool)
    then err (mismatch_error argv_tool sudo_tool)
    else ok (sudo_tool, called.args)

abbrev with_sudo_command : Called → Option Text → Result Error (Text × List Text)
with_sudo_command called none = ok (called.name, called.args)
with_sudo_command called (some sudo_cmd) = do
  sudo_tool_token ← token_of (delegated_command_token_from_sudo_command sudo_cmd)
  agree called sudo_tool_token

-- The environment is a parameter.
unfoldable pub parse_invocation_internal :
    List Text → (Text → Option Text) → Result Error (Text × List Text)
parse_invocation_internal [] get_env = ok ([], [])
parse_invocation_internal (argv0 ∷ argv) get_env =
    with_sudo_command (read_argv argv0 argv) (get_env (lit "SUDO_COMMAND"))
