-- ===== src/Exec.antt =====
-- `crates/secure-sudoers/src/exec.rs`: running the validated command in its isolation.
-- `hash_binary_fd` is a parameter of `main`.
pub mod Pins
pub mod Strings
pub mod Passed
pub mod Chain
pub mod Ordered
use secure_sudoers_setup.Base.{
  ℕ, zero, suc, ◌+◌, ℤ, pos, Bool, true, false, not, ◌==◌, List, [], ◌∷◌, ◌++◌, Option, none, some,
  Result, ok, err, if◌then◌else◌,
}
use secure_sudoers_setup.Text.{Text, lit, show, utf8_len, contains}
use secure_sudoers_setup.Error.{Error, IoError, io_context, system, execution}
use secure_sudoers_setup.Path.{file_name}
use secure_sudoers_setup.Fs.{Fd, SecurePath}
use secure_sudoers_setup.Models.{SecureSudoersPolicy}
use secure_sudoers_setup.Models.Validate.{concat}
use secure_sudoers_setup.Validator.Types.{ValidatedArg, ValidatedCommand, as_str}
use secure_sudoers_setup.Capabilities.Drop.{drop_capabilities}
use secure_sudoers_setup.Steps.{
  Step, ◌>>=◌, ◌>>◌, pure, fail, answer, attempt, or_error, continue, handled, renamed,
}
use secure_sudoers_setup.Calls.{
  Machine, History, call, ppid_of, dup, fork, set_pdeathsig, sigaction_default, signal_ignore,
  fexecve, write_stage, WaitStatus, exited, signaled, stopped, continued, interrupted, failed,
  other, wait_for,
}
use secure_sudoers_setup.Signals.{
  is_job_control_stop_signal, suspend_self_for_job_control, send_sigcont_to_current_group,
}
use secure_sudoers_setup.Isolation.{setup_isolation}
use secure_sudoers_setup.Exec.Pins.{pin_validated_path_arguments}

abbrev pub keep_listed : List Text → Text × Text → List (Text × Text) → List (Text × Text)
keep_listed whitelist (k, v) rest = if contains whitelist k then (k, v) ∷ rest else rest

-- The variables of the process are a parameter; their names and values are UTF-8, as on any other
-- `std::env::vars` panics.
unfoldable pub build_scrubbed_env : List (Text × Text) → List Text → List (Text × Text)
build_scrubbed_env [] whitelist = []
build_scrubbed_env (e ∷ vars) whitelist =
    keep_listed whitelist e (build_scrubbed_env vars whitelist)

-- The place in bytes of the first NUL byte.
unfoldable pub nul_position : ℕ → Text → Option ℕ
nul_position at [] = none
nul_position at (c ∷ t) =
    let later = nul_position (at + utf8_len c) t in if c == 0 then some at else later

abbrev pub without_nul : Text → Text → Option ℕ → Result Error Text
without_nul context t none = ok t
without_nul context t (some at) = err (
    system
      (concat (context ∷ lit ": nul byte found in provided data at position: " ∷ show at ∷ [])))

-- `CString::new` succeeds on a text without a NUL byte.
abbrev pub c_string : Text → Text → Result Error Text
c_string context t = without_nul context t (nul_position 0 t)

abbrev pub push : {A : Type 0} → Result Error A → Result Error (List A) → Result Error (List A)
push (err e) rest = err e
push (ok a) (err e) = err e
push (ok a) (ok rest) = ok (a ∷ rest)

abbrev pub bad_arg : ℕ → Text
bad_arg n = concat (lit "Command argument index " ∷ show n ∷ lit " contains NUL byte" ∷ [])

unfoldable pub c_args : ℕ → List ValidatedArg → Result Error (List Text)
c_args n [] = ok []
c_args n (arg ∷ args) = push (c_string (bad_arg n) (as_str arg)) (c_args (n + 1) args)

abbrev pub env_pair : Text × Text → Text
env_pair (k, v) = k ++ (b'=' ∷ v)

abbrev pub bad_env : Text × Text → Text
bad_env (k, v) = concat (lit "Env var '" ∷ k ∷ lit "' contains NUL byte" ∷ [])

abbrev pub as_pair : Text × Text → Result Error Text → Result Error (Text × Text)
as_pair e (ok t) = ok e
as_pair e (err failure) = err failure

unfoldable pub c_env : List (Text × Text) → Result Error (List (Text × Text))
c_env [] = ok []
c_env (e ∷ env) = push (as_pair e (c_string (bad_env e) (env_pair e))) (c_env env)

abbrev name_or : Text → Option Text → Text
name_or path none = path
name_or path (some name) = name

-- `argv[0]`
abbrev pub binary_name : SecurePath → Text
binary_name binary = name_or binary.path (file_name binary.path)

unfoldable pub build_argv : ValidatedCommand → Result Error (List Text)
unfolding c_args
build_argv cmd =
    push (c_string (lit "Binary name contains NUL byte") (binary_name cmd.binary))
      (c_args 0 cmd.args)

-- The signals whose disposition is reset: INT, QUIT, PIPE, TERM, HUP, TSTP, TTIN, TTOU, WINCH.
abbrev pub reset_signals : List ℕ
reset_signals = 2 ∷ 3 ∷ 13 ∷ 15 ∷ 1 ∷ 20 ∷ 21 ∷ 22 ∷ 28 ∷ []

-- What is passed to the delegated process.
pub record ExecInput : Type 0 where
  pub binary_fd : ℕ
  pub argv : List Text
  pub envp : List (Text × Text)

-- The exit of the process, or its return from `execute_securely`: the child of the fork sees 0.
pub data Ended : Type 0 where
  waits : Ended
  exits : ℕ → Ended

module _ (m : Machine) where
  -- The stage is written to the supervisor's pipe, if there is one; short and failed writes end it.
  abbrev pub mark_exec_failure : {A : Type 0} → Option Fd → Error → Step History Error A
  mark_exec_failure none e h = (err e, h)
  mark_exec_failure (some fd) e h = (err e, h ++ write_stage ∷ [])

  abbrev pub unmarked : {A : Type 0} → Option Fd → Result Error A → Step History Error A
  unmarked stage_fd (ok a) = pure a
  unmarked stage_fd (err e) = mark_exec_failure stage_fd e

  -- `inspect_err(|_| mark_exec_failure(fd))`
  abbrev pub marked : {A : Type 0} → Option Fd → Step History Error A → Step History Error A
  marked stage_fd step = attempt step (unmarked stage_fd)

  unfoldable pub set_exec_parent_death_signal : ℕ → Step History Error (Unit {0})
  set_exec_parent_death_signal expected_parent = do
    set ←
        or_error (io_context (lit "prctl(PR_SET_PDEATHSIG, SIGKILL) failed"))
          (call m (set_pdeathsig 9))
    parent ← ppid_of m
    if parent == expected_parent
        then pure tt
        else fail (execution (lit "delegated exec wrapper parent changed before fexecve"))

  -- `sigemptyset`, which fails for no mask that is there, is left out.
  unfoldable pub reset_signal_list : List ℕ → Step History Error (Unit {0})
  reset_signal_list [] = pure tt
  reset_signal_list (signal ∷ signals) = do
    reset ←
        or_error
          (io_context (concat (lit "sigaction(" ∷ show signal ∷ lit ", SIG_DFL) failed" ∷ [])))
          (call m (sigaction_default signal))
    reset_signal_list signals

  unfoldable pub reset_exec_signal_defaults : Step History Error (Unit {0})
  unfolding reset_signal_list
  reset_exec_signal_defaults = reset_signal_list reset_signals

  unfoldable pub prepare_exec :
      ValidatedCommand
      → SecureSudoersPolicy
      → List (Text × Text)
      → Option Fd
      → Step History Error ExecInput
  prepare_exec cmd policy vars stage_fd = do
    binary_fd ← marked stage_fd (
        or_error (io_context (lit "failed to duplicate binary file descriptor"))
          (call m (dup cmd.binary.fd)))
    marked stage_fd (setup_isolation m cmd.isolation policy.global_settings.blocked_paths)
    marked stage_fd (pin_validated_path_arguments m cmd)
    marked stage_fd (drop_capabilities m)
    argv ← marked stage_fd (answer (build_argv cmd))
    envp ← marked stage_fd (answer (c_env (build_scrubbed_env vars cmd.env_whitelist)))
    pure (record { binary_fd = binary_fd; argv = argv; envp = envp })

  -- The child of the last `fork`; it returns only with an error.
  unfoldable pub run_delegated : ℕ → ExecInput → Option Fd → Step History Error ℕ
  run_delegated wrapper_pid p stage_fd = do
    marked stage_fd (set_exec_parent_death_signal wrapper_pid)
    marked stage_fd reset_exec_signal_defaults
    marked stage_fd
        (or_error (io_context (lit "fexecve failed")) (call m (fexecve p.binary_fd p.argv p.envp)))

  -- The wrapper's loop: an exit code, or nothing if it still waits after these rounds.
  abbrev pub exit_marked : Option Fd → Step History Error (Option ℕ)
  exit_marked none h = (ok (some 1), h)
  exit_marked (some fd) h = (ok (some 1), h ++ write_stage ∷ [])

  abbrev pub goes_on :
      Option Fd
      → Step History Error (Option ℕ)
      → Result Error (Unit {0})
      → Step History Error (Option ℕ)
  goes_on stage_fd later (err e) = exit_marked stage_fd
  goes_on stage_fd later (ok done) = later

  abbrev pub wrapper_round :
      Option Fd → Step History Error (Option ℕ) → WaitStatus → Step History Error (Option ℕ)
  wrapper_round stage_fd later (exited code) = pure (some code)
  wrapper_round stage_fd later (signaled sig) = pure (some (128 + sig))
  wrapper_round stage_fd later (stopped sig) =
      if not (is_job_control_stop_signal sig)
      then exit_marked stage_fd
      else attempt (suspend_self_for_job_control m sig >> send_sigcont_to_current_group m)
          (goes_on stage_fd later)
  wrapper_round stage_fd later continued = later
  wrapper_round stage_fd later interrupted = later
  wrapper_round stage_fd later (failed e) = exit_marked stage_fd
  wrapper_round stage_fd later (other text) = exit_marked stage_fd

  unfoldable pub wrapper_loop : ℕ → Option Fd → ℤ → Step History Error (Option ℕ)
  wrapper_loop zero stage_fd child = pure none
  wrapper_loop (suc rounds) stage_fd child =
      wait_for m child >>= wrapper_round stage_fd (wrapper_loop rounds stage_fd child)

  abbrev ended_of : Option ℕ → Ended
  ended_of none = waits
  ended_of (some code) = exits code

  -- The result of `signal` is not looked at.
  abbrev pub ignored : ℕ → Step History Error (Unit {0})
  ignored sig h = (ok tt, h ++ signal_ignore sig ∷ [])

  abbrev pub behind_fork : ℕ → ℕ → ExecInput → Option Fd → ℕ → Step History Error Ended
  behind_fork rounds wrapper_pid p stage_fd zero =
      run_delegated wrapper_pid p stage_fd >>= (λ n. pure waits)
  behind_fork rounds wrapper_pid p stage_fd (suc n) =
      ignored 2
      >> ignored 3
      >> wrapper_loop rounds stage_fd (pos (suc n))
      >>= (λ code. pure (ended_of code))

  unfoldable pub execute_securely :
      ℕ
      → ℕ
      → ValidatedCommand
      → SecureSudoersPolicy
      → List (Text × Text)
      → Option Fd
      → Step History Error Ended
  execute_securely rounds wrapper_pid cmd policy vars stage_fd = do
    p ← prepare_exec cmd policy vars stage_fd
    pid ← marked stage_fd (or_error (io_context (lit "fork failed")) (call m fork))
    behind_fork rounds wrapper_pid p stage_fd pid
