-- ===== src/Main.antt =====
-- `main` of `crates/secure-sudoers/src/main.rs`, in a release build, as the list of what it does in
-- order: what it logs and prints, the command that it hands to the supervisor, and its exit.
pub mod Events
pub mod Run
pub mod Cleared
use secure_sudoers_setup.Base.{
  ℕ, ℤ, pos, Bool, true, false, List, [], ◌∷◌, ◌++◌, Option, none, some, Result, ok, err, ◌>>=◌,
  map_err,
}
use secure_sudoers_setup.Text.{Text, lit, has_char}
use secure_sudoers_setup.Error.{Error, IoError, to_text}
use secure_sudoers_setup.Fs.{Fd, FileSystem, SecurePath}
use secure_sudoers_setup.Regex.{RegexEngine}
use secure_sudoers_setup.Models.{SecureSudoersPolicy}
use secure_sudoers_setup.Models.Validate.{PathInfo}
use secure_sudoers_setup.Kernel.{ensure_minimum_kernel_version_for_release}
use secure_sudoers_setup.Policy.Pem.{PemFiles}
use secure_sudoers_setup.Policy.{Codecs, load_policy}
use secure_sudoers_setup.Invocation.{parse_proc_self_cmdline_bytes, parse_invocation_internal}
use secure_sudoers_setup.Binding.{Kernel, SudoBindingError, verify_sudo_command_binding_internal}
use secure_sudoers_setup.Validator.Types.{ValidatedCommand, ValidationResult, ValidationDenial}
use secure_sudoers_setup.Validator.Command.{validate_command, unwrap_or}
use secure_sudoers_setup.Redaction.{redact_args}
use secure_sudoers_setup.Main.Events.{
  SecurityEvent, IdentityInfo, ContextInfo, PolicyInfo, command_approved, policy_violation,
  identity_spoofing, exec_failure,
}

-- What the process finds when it runs. Clocks, random numbers, the user database, the hash of a file
-- and the supervised run are answers of the world.
pub record World : Type 0 where
  pub fs : FileSystem
  pub engine : RegexEngine
  pub info : PathInfo
  pub files : PemFiles
  pub codecs : Codecs
  pub kernel : Kernel
  pub read : Text → Result IoError (List ℕ)
  pub from_utf8 : List ℕ → Option Text
  pub get_env : Text → Option Text
  -- `std::env::args`
  pub env_args : List Text
  -- `current_kernel_release`
  pub kernel_release : Result Error Text
  -- `generate_txn_id`
  pub txn_id : Result Error Text
  -- `rfc3339_now`
  pub now : Text
  -- `resolve_identity_triad`
  pub identity : IdentityInfo
  -- `hash_binary_fd`
  pub hash_fd : Fd → Result Error Text
  -- `run_supervisor`
  pub run_supervisor : ValidatedCommand → SecureSudoersPolicy → Text → Result Error ℤ

pub data Effect : Type 0 where
  -- a line of the log that is no security event
  log : Text → Effect
  event : SecurityEvent → Effect
  print : Text → Effect
  supervise : ValidatedCommand → Effect
  exit : ℤ → Effect
  panic : Effect

abbrev pub fatal : Text → List Effect
fatal message = print (lit "FATAL: " ++ message) ∷ exit (pos 1) ∷ []

-- What `main` has when the validation starts.
pub record Session : Type 0 where
  pub txn_id : Text
  pub policy : SecureSudoersPolicy
  pub tool_name : Text
  pub raw_args : List Text

module _ (w : World) where
  abbrev pub event_of : Text → Text → ContextInfo → PolicyInfo → List Text → SecurityEvent
  event_of event_id txn_id context policy args = record {
    event_id = event_id;
    txn_id = txn_id;
    timestamp = w.now;
    identity = w.identity;
    context = context;
    policy = policy;
    args = args;
  }

  abbrev pub context_of : Text → Text → Text → ContextInfo
  context_of tool path hash = record { tool = tool; binary_path = path; binary_hash = hash }

  abbrev pub policy_of : Text → Option Text → Option Text → PolicyInfo
  policy_of status rule_id reason = record { status = status; rule_id = rule_id; reason = reason }

  -- `hash_path_for_telemetry(path).unwrap_or_default()`
  abbrev ok_hash : Result Error Text → Text
  ok_hash (ok hash) = hash
  ok_hash (err e) = []

  abbrev hash_opened : Result IoError Fd → Text
  hash_opened (ok fd) = ok_hash (w.hash_fd fd)
  hash_opened (err e) = []

  abbrev observed_hash : Option Text → Text
  observed_hash none = []
  observed_hash (some path) = elim (has_char 0 path) [
    | true ↦ []
    | false ↦ hash_opened (w.kernel.open_path path)
  ]

  abbrev pub denied_event : Session → ValidationDenial → List Text → SecurityEvent
  denied_event s d redacted =
      event_of policy_violation s.txn_id (context_of s.tool_name [] [])
        (policy_of (lit "denied") d.rule_id (some d.reason_slug)) redacted

  abbrev pub approved_event : Session → ValidationResult → Text → List Text → SecurityEvent
  approved_event s r hash redacted =
      event_of command_approved s.txn_id (context_of s.tool_name r.command.binary.path hash)
        (policy_of (lit "allowed") (some r.rule_id) none) redacted

  abbrev pub failed_event : Session → ValidationResult → Text → List Text → SecurityEvent
  failed_event s r hash redacted =
      event_of exec_failure s.txn_id (context_of s.tool_name r.command.binary.path hash)
        (policy_of (lit "error") (some r.rule_id) (some (lit "execution_failure"))) redacted

  abbrev pub spoofed_event : Session → ValidationResult → SudoBindingError → SecurityEvent
  spoofed_event s r e =
      event_of identity_spoofing s.txn_id
        (context_of s.tool_name r.command.binary.path (observed_hash e.observed_sudo_path))
        (policy_of (lit "error") (some r.rule_id) (some (lit "invocation_error"))) []

  -- A panic of `redact_args` ends the process before anything is logged.
  unfoldable pub deny : Session → ValidationDenial → List Effect
  deny s d = elim (redact_args s.raw_args s.policy s.tool_name) [
    | none ↦ panic ∷ []
    | some redacted ↦
        event (denied_event s d redacted)
        ∷ print (lit "Access denied: " ++ d.reason)
        ∷ print s.policy.global_settings.admin_contact
        ∷ exit (pos 1)
        ∷ []
  ]

  unfoldable pub finish_run :
      Session → ValidationResult → Text → List Text → Result Error ℤ → List Effect
  finish_run s r hash redacted (ok code) = exit code ∷ []
  finish_run s r hash redacted (err e) =
      event (failed_event s r hash redacted)
      ∷ print (lit "Execution failed: " ++ to_text e)
      ∷ exit (pos 1)
      ∷ []

  unfoldable pub approve : Session → ValidationResult → Text → List Effect
  unfolding finish_run
  approve s r hash = elim (redact_args s.raw_args s.policy s.tool_name) [
    | none ↦ panic ∷ []
    | some redacted ↦
        event (approved_event s r hash redacted)
        ∷ supervise r.command
        ∷ finish_run s r hash redacted (w.run_supervisor r.command s.policy s.txn_id)
  ]

  unfoldable pub hash_and_approve : Session → ValidationResult → List Effect
  hash_and_approve s r = elim (w.hash_fd r.command.binary.fd) [
    | err e ↦
        log (lit "FATAL: binary hash computation failed — refusing approval")
        ∷ fatal (lit "Cannot compute binary hash: " ++ to_text e)
    | ok hash ↦ approve s r hash
  ]

  unfoldable pub bind_and_approve : Session → ValidationResult → List Effect
  bind_and_approve s r =
      elim (verify_sudo_command_binding_internal w.kernel s.tool_name r.command.binary w.get_env) [
        | err e ↦ event (spoofed_event s r e) ∷ fatal e.message
        | ok _ ↦ hash_and_approve s r
      ]

  -- The `match` on the validation. `none` stands for fuel that has run out.
  unfoldable pub decide : Session → List Effect
  decide s = elim (validate_command w.fs w.engine s.policy s.tool_name s.raw_args) [
    | none ↦ panic ∷ []
    | some (err d) ↦ deny s d
    | some (ok r) ↦ bind_and_approve s r
  ]

  -- `read_proc_self_cmdline`, and `std::env::args` in its place
  abbrev args_or : Result Error (List Text) → List Text
  args_or (ok argv) = argv
  args_or (err e) = w.env_args

  abbrev cmdline : Result IoError (List ℕ) → List Text
  cmdline (ok bytes) = args_or (parse_proc_self_cmdline_bytes w.from_utf8 bytes)
  cmdline (err e) = w.env_args

  abbrev pub argv : List Text
  argv = cmdline (w.read (lit "/proc/self/cmdline"))

  abbrev invocation_event : Text → SecurityEvent
  invocation_event txn_id =
      event_of identity_spoofing txn_id (context_of [] [] [])
        (policy_of (lit "error") none (some (lit "invocation_error"))) []

  unfoldable pub invoke : Text → SecureSudoersPolicy → List Effect
  invoke txn_id policy = elim (parse_invocation_internal argv w.get_env) [
    | err e ↦ event (invocation_event txn_id) ∷ fatal (to_text e)
    | ok call ↦
        decide (record { txn_id = txn_id; policy = policy; tool_name = call.0; raw_args = call.1 })
  ]

  abbrev pub policy_path : Text
  policy_path = lit "/etc/secure-sudoers/policy.json"

  unfoldable pub load_and_invoke : Text → List Effect
  load_and_invoke txn_id =
      elim (load_policy w.fs w.engine w.info w.files w.codecs w.read policy_path) [
        | err e ↦
            log (lit "FATAL: policy load failed — possible configuration tampering or DoS")
            ∷ fatal (lit "Cannot load policy: " ++ to_text e)
        | ok policy ↦ invoke txn_id policy
      ]

  abbrev pub with_txn_id : Result Error Text → List Effect
  with_txn_id (err e) = fatal (to_text e)
  with_txn_id (ok txn_id) = load_and_invoke txn_id

  unfoldable pub main : List Effect
  main = elim (w.kernel_release >>= ensure_minimum_kernel_version_for_release) [
    | err e ↦ fatal (to_text e)
    | ok _ ↦ with_txn_id w.txn_id
  ]
