-- ===== src/Main/Run.antt =====
-- The part of `main` behind the invocation: one session.
use secure_sudoers_setup.Base.{
  ℤ, Bool, true, false, List, [], ◌∷◌, Option, none, some, Result, ok, err, ◌≡◌, inl, inr, refl, In,
  All, here, there, Result-cases, Option-cases,
}
use secure_sudoers_setup.Text.{Text}
use secure_sudoers_setup.Error.{Error}
use secure_sudoers_setup.Binding.{verify_sudo_command_binding_internal}
use secure_sudoers_setup.Validator.Types.{ValidatedCommand, ValidationResult, ValidationDenial}
use secure_sudoers_setup.Validator.Command.{validate_command}
use secure_sudoers_setup.Redaction.{redact_args}
use secure_sudoers_setup.Main.Events.{SecurityEvent}
use secure_sudoers_setup.Main.{
  World, Effect, event, supervise, Session, approved_event, deny, finish_run, approve,
  hash_and_approve, bind_and_approve, decide,
}

abbrev pub is_supervise : Effect → Bool
is_supervise (supervise command) = true
is_supervise _ = false

-- Nothing is run.
abbrev pub IsQuiet : List Effect → Type 0
IsQuiet effects = All (λ (e : Effect). is_supervise e ≡ false) effects

pub IsQuiet-not-In :
    (command : ValidatedCommand) (effects : List Effect)
    → IsQuiet effects
    → ¬ In (supervise command) effects
IsQuiet-not-In command [] q m = elim m [ ]
IsQuiet-not-In command (e ∷ es) q here = cc (q.0)
IsQuiet-not-In command (e ∷ es) q (there m) = IsQuiet-not-In command es q.1 m

-- Of two lists of effects the first of which holds one run, the run is that one.
In-supervise :
    (e : SecurityEvent) (c command : ValidatedCommand) (effects : List Effect)
    → IsQuiet effects
    → In (supervise command) (event e ∷ supervise c ∷ effects)
    → c ≡ command
In-supervise e c command effects q m = second (event e) (supervise c) m refl refl
  where
    third : (x : Effect) → In (supervise command) (x ∷ effects) → x ≡ supervise c → c ≡ command
    third x here f = cc
    third x (there m) f = absurd (IsQuiet-not-In command effects q m)

    second :
        (x y : Effect)
        → In (supervise command) (x ∷ y ∷ effects)
        → x ≡ event e
        → y ≡ supervise c
        → c ≡ command
    second x y here f g = cc
    second x y (there m) f g = third y m g

module _ (w : World) where
  -- The run of a session: what was checked, and what was done in which order.
  pub record IsRun (s : Session) (effects : List Effect) (command : ValidatedCommand) : Type 0 where
    pub result : ValidationResult
    pub hash : Text
    pub redacted : List Text
    pub valid : validate_command w.fs w.engine s.policy s.tool_name s.raw_args ≡ some (ok result)
    pub bound :
        verify_sudo_command_binding_internal w.kernel s.tool_name result.command.binary w.get_env
        ≡ ok tt
    pub hashed : w.hash_fd result.command.binary.fd ≡ ok hash
    pub shown : redact_args s.raw_args s.policy s.tool_name ≡ some redacted
    pub same : result.command ≡ command
    pub trace :
        effects
        ≡ event (approved_event w s result hash redacted)
          ∷ supervise result.command
          ∷ finish_run w s result hash redacted (w.run_supervisor result.command s.policy s.txn_id)

  finish_run-IsQuiet :
      (s : Session) (r : ValidationResult) (hash : Text) (redacted : List Text) (o : Result Error ℤ)
      → IsQuiet (finish_run w s r hash redacted o)
  unfolding finish_run
  finish_run-IsQuiet s r hash redacted (ok code) = (refl, tt)
  finish_run-IsQuiet s r hash redacted (err e) = (refl, (refl, (refl, tt)))

  deny-IsQuiet : (s : Session) (d : ValidationDenial) → IsQuiet (deny w s d)
  unfolding deny
  deny-IsQuiet s d = elim (Option-cases (redact_args s.raw_args s.policy s.tool_name)) [
    | inl e ↦ rw (e, deny) (refl, tt)
    | inr (redacted, e) ↦ rw (e, deny) (refl, (refl, (refl, (refl, tt))))
  ]

  module _ (s : Session) (command : ValidatedCommand) where
    approve-IsRun :
        (r : ValidationResult) (hash : Text)
        → validate_command w.fs w.engine s.policy s.tool_name s.raw_args ≡ some (ok r)
        → verify_sudo_command_binding_internal w.kernel s.tool_name r.command.binary w.get_env
          ≡ ok tt
        → w.hash_fd r.command.binary.fd ≡ ok hash
        → In (supervise command) (approve w s r hash)
        → IsRun s (approve w s r hash) command
    unfolding approve
    approve-IsRun r hash valid bound hashed m =
        elim (Option-cases (redact_args s.raw_args s.policy s.tool_name)) [
          | inl e ↦ absurd (IsQuiet-not-In command _ (rw (e, approve) (refl, tt)) m)
          | inr (redacted, e) ↦ record {
            result = r;
            hash = hash;
            redacted = redacted;
            valid = valid;
            bound = bound;
            hashed = hashed;
            shown = e;
            same =
                In-supervise _ r.command command _ (finish_run-IsQuiet s r hash redacted _)
                  (rw (e, approve) at m);
            trace = rw (e, approve) refl;
          }
        ]

    hash-IsRun :
        (r : ValidationResult)
        → validate_command w.fs w.engine s.policy s.tool_name s.raw_args ≡ some (ok r)
        → verify_sudo_command_binding_internal w.kernel s.tool_name r.command.binary w.get_env
          ≡ ok tt
        → In (supervise command) (hash_and_approve w s r)
        → IsRun s (hash_and_approve w s r) command
    unfolding hash_and_approve
    hash-IsRun r valid bound m = elim (Result-cases (w.hash_fd r.command.binary.fd)) [
      | inl (hash, e) ↦
          rw (e, hash_and_approve)
            (approve-IsRun r hash valid bound e (rw (e, hash_and_approve) at m))
      | inr (bad, e) ↦
          absurd (IsQuiet-not-In command _ (rw (e, hash_and_approve) (refl, (refl, (refl, tt)))) m)
    ]

    bind-IsRun :
        (r : ValidationResult)
        → validate_command w.fs w.engine s.policy s.tool_name s.raw_args ≡ some (ok r)
        → In (supervise command) (bind_and_approve w s r)
        → IsRun s (bind_and_approve w s r) command
    unfolding bind_and_approve
    bind-IsRun r valid m =
        elim (Result-cases
          (verify_sudo_command_binding_internal w.kernel s.tool_name r.command.binary w.get_env)) [
            | inl (tt, e) ↦
                rw (e, bind_and_approve) (hash-IsRun r valid e (rw (e, bind_and_approve) at m))
            | inr (bad, e) ↦
                absurd
                  (IsQuiet-not-In command _ (rw (e, bind_and_approve) (refl, (refl, (refl, tt)))) m)
          ]

    pub decide-IsRun : In (supervise command) (decide w s) → IsRun s (decide w s) command
    unfolding decide
    decide-IsRun m = by_answer (validate_command w.fs w.engine s.policy s.tool_name s.raw_args) refl
      where
        by_answer :
            (o : Option (Result ValidationDenial ValidationResult))
            → validate_command w.fs w.engine s.policy s.tool_name s.raw_args ≡ o
            → IsRun s (decide w s) command
        by_answer none e = absurd (IsQuiet-not-In command _ (rw (e, decide) (refl, tt)) m)
        by_answer (some (err d)) e =
            absurd (IsQuiet-not-In command _ (rw (e, decide) (deny-IsQuiet s d)) m)
        by_answer (some (ok r)) e = rw (e, decide) (bind-IsRun r e (rw (e, decide) at m))
