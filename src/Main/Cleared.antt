-- ===== src/Main/Cleared.antt =====
-- About `main` (main.rs): what has passed before a command is handed to the supervisor.
use secure_sudoers_setup.Base.{
  List, ◌∷◌, some, Result, ok, err, ◌>>=◌, ◌≡◌, refl, In, >>=-eq-ok, ap, ◌∙◌,
}
use secure_sudoers_setup.Text.{Text, lit}
use secure_sudoers_setup.Error.{Error}
use secure_sudoers_setup.Kernel.{ensure_minimum_kernel_version_for_release}
use secure_sudoers_setup.Models.{SecureSudoersPolicy}
use secure_sudoers_setup.Policy.{load_policy, public_key_path}
use secure_sudoers_setup.Policy.Authentic.{IsAuthentic, load_policy-IsAuthentic}
use secure_sudoers_setup.Invocation.{parse_invocation_internal}
use secure_sudoers_setup.Binding.Identity.{IsBound, verify_sudo_command_binding_iff}
use secure_sudoers_setup.Validator.Types.{ValidatedCommand, ValidationResult}
use secure_sudoers_setup.Validator.Command.{validate_command}
use secure_sudoers_setup.Validator.Sound.{IsGranted, validate_command-IsGranted}
use secure_sudoers_setup.Redaction.{redact_args}
use secure_sudoers_setup.Main.Run.{IsQuiet-not-In, IsRun, decide-IsRun}
use secure_sudoers_setup.Main.{
  World, Effect, event, supervise, Session, approved_event, finish_run, decide, argv, invoke,
  policy_path, load_and_invoke, with_txn_id, main,
}

module _ (w : World) where
  -- What has passed before the command runs, and what is done then.
  pub record IsCleared (command : ValidatedCommand) : Type 0 where
    pub session : Session
    pub result : ValidationResult
    pub hash : Text
    pub redacted : List Text
    pub release : Text
    pub released : w.kernel_release ≡ ok release
    pub supported : ensure_minimum_kernel_version_for_release release ≡ ok tt
    pub numbered : w.txn_id ≡ ok session.txn_id
    pub authentic :
        IsAuthentic w.fs w.engine w.info w.files w.codecs w.read
          (policy_path w)
          public_key_path
          session.policy
    pub invoked :
        parse_invocation_internal (argv w) w.get_env ≡ ok (session.tool_name, session.raw_args)
    pub valid :
        validate_command w.fs w.engine session.policy session.tool_name session.raw_args
        ≡ some (ok result)
    pub granted : IsGranted w.fs w.engine session.policy session.tool_name result
    pub bound :
        (sudo_cmd : Text)
        → w.get_env (lit "SUDO_COMMAND") ≡ some sudo_cmd
        → IsBound w.kernel result.command.binary session.tool_name sudo_cmd
    pub hashed : w.hash_fd result.command.binary.fd ≡ ok hash
    pub shown : redact_args session.raw_args session.policy session.tool_name ≡ some redacted
    pub same : result.command ≡ command
    pub trace :
        main w
        ≡ event (approved_event w session result hash redacted)
          ∷ supervise command
          ∷ finish_run w session result hash redacted
              (w.run_supervisor command session.policy session.txn_id)

  -- What `decide` gives for the session, under the trace of `main`.
  cleared :
      (s : Session) (command : ValidatedCommand) (release : Text) (effects : List Effect)
      → w.kernel_release ≡ ok release
      → ensure_minimum_kernel_version_for_release release ≡ ok tt
      → w.txn_id ≡ ok s.txn_id
      → load_policy w.fs w.engine w.info w.files w.codecs w.read (policy_path w) ≡ ok s.policy
      → parse_invocation_internal (argv w) w.get_env ≡ ok (s.tool_name, s.raw_args)
      → IsRun w s effects command
      → main w ≡ effects
      → IsCleared command
  unfolding load_policy
  cleared s command release effects released supported numbered loaded invoked run trace = record {
    session = s;
    result = run.result;
    hash = run.hash;
    redacted = run.redacted;
    release = release;
    released = released;
    supported = supported;
    numbered = numbered;
    authentic =
        load_policy-IsAuthentic w.fs w.engine w.info w.files w.codecs w.read _ _ s.policy loaded;
    invoked = invoked;
    valid = run.valid;
    granted =
        validate_command-IsGranted w.fs w.engine s.policy s.tool_name s.raw_args run.result
          run.valid;
    bound = λ sudo_cmd under.
        (verify_sudo_command_binding_iff w.kernel run.result.command.binary s.tool_name sudo_cmd
            w.get_env under).0
          run.bound;
    hashed = run.hashed;
    shown = run.shown;
    same = run.same;
    trace =
        trace
        ∙ run.trace
        ∙ ap
            (λ (c : ValidatedCommand).
              event (approved_event w s run.result run.hash run.redacted)
              ∷ supervise c
              ∷ finish_run w s run.result run.hash run.redacted
                  (w.run_supervisor c s.policy s.txn_id))
            run.same;
  }

  -- A command is handed to the supervisor only after these checks have passed: the kernel is
  -- supported, the policy is signed and validated, the invocation is read, and its arguments, validated
  -- against that policy, give this very command, which the policy grants; where `SUDO_COMMAND` is set,
  -- it delegates to a word with the tool's file name, and if that word holds a slash, the path opens
  -- the file, by device and inode, behind the descriptor of the validated binary (of a word without a
  -- slash only the name is compared); and the binary's hash is known. The approval is logged first,
  -- with the arguments redacted, nothing else is run, and the run's result ends the program.
  pub main-IsCleared :
      (command : ValidatedCommand) → In (supervise command) (main w) → IsCleared command
  unfolding main load_and_invoke invoke
  main-IsCleared command m =
      by_kernel (w.kernel_release >>= ensure_minimum_kernel_version_for_release) refl
    where
      by_call :
          (txn_id release : Text) (policy : SecureSudoersPolicy)
          (r : Result Error (Text × List Text))
          → w.kernel_release ≡ ok release
          → ensure_minimum_kernel_version_for_release release ≡ ok tt
          → w.txn_id ≡ ok txn_id
          → load_policy w.fs w.engine w.info w.files w.codecs w.read (policy_path w) ≡ ok policy
          → parse_invocation_internal (argv w) w.get_env ≡ r
          → main w ≡ invoke w txn_id policy
          → IsCleared command
      by_call txn_id release policy (err e) k1 k2 t l i trace =
          absurd (
            IsQuiet-not-In command (main w) (rw trace (rw (i, invoke) (refl, (refl, (refl, tt)))))
              m)
      by_call txn_id release policy (ok call) k1 k2 t l i trace =
          let s : Session = record {
            txn_id = txn_id;
            policy = policy;
            tool_name = call.0;
            raw_args = call.1;
          } in
          let to_session : main w ≡ decide w s = trace ∙ rw (i, invoke) refl in
          cleared s command release (decide w s) k1 k2 t l i
            (decide-IsRun w s command (rw to_session at m)) to_session

      by_policy :
          (txn_id release : Text) (r : Result Error SecureSudoersPolicy)
          → w.kernel_release ≡ ok release
          → ensure_minimum_kernel_version_for_release release ≡ ok tt
          → w.txn_id ≡ ok txn_id
          → load_policy w.fs w.engine w.info w.files w.codecs w.read (policy_path w) ≡ r
          → main w ≡ load_and_invoke w txn_id
          → IsCleared command
      by_policy txn_id release (err e) k1 k2 t l trace = absurd (
          IsQuiet-not-In command (main w)
            (rw trace (rw (l, load_and_invoke) (refl, (refl, (refl, tt))))) m)
      by_policy txn_id release (ok policy) k1 k2 t l trace =
          by_call txn_id release policy (parse_invocation_internal (argv w) w.get_env) k1 k2 t l
            refl (trace ∙ rw (l, load_and_invoke) refl)

      by_txn :
          (release : Text) (r : Result Error Text)
          → w.kernel_release ≡ ok release
          → ensure_minimum_kernel_version_for_release release ≡ ok tt
          → w.txn_id ≡ r
          → main w ≡ with_txn_id w w.txn_id
          → IsCleared command
      by_txn release (err e) k1 k2 t trace =
          absurd (
            IsQuiet-not-In command (main w) (rw (trace ∙ ap (with_txn_id w) t) (refl, (refl, tt)))
              m)
      by_txn release (ok txn_id) k1 k2 t trace =
          by_policy txn_id release _ k1 k2 t refl (trace ∙ ap (with_txn_id w) t)

      by_kernel :
          (r : Result Error (Unit {0}))
          → (w.kernel_release >>= ensure_minimum_kernel_version_for_release) ≡ r
          → IsCleared command
      by_kernel (err e) k =
          absurd (IsQuiet-not-In command (main w) (rw (k, main) (refl, (refl, tt))) m)
      by_kernel (ok done) k =
          let (release, k1, k2) =
            >>=-eq-ok w.kernel_release ensure_minimum_kernel_version_for_release k in
          by_txn release w.txn_id k1 k2 refl (rw (k, main) refl)
