-- ===== src/Signals.antt =====
-- `crates/secure-sudoers/src/signal_utils.rs`, and `send_sigcont_to_current_group` of exec.rs. The
-- numbers of signals are those of Linux.
use secure_sudoers_setup.Base.{
  ℕ, ◌==◌, ℤ, pos, negsuc, Bool, false, ◌||◌, [], ◌∷◌, ◌++◌, Option, none, some, Result, ok, err,
  if◌then◌else◌, ◌-◌,
}
use secure_sudoers_setup.Text.{lit, show, show_int}
use secure_sudoers_setup.Error.{Error, IoError, io_context, system}
use secure_sudoers_setup.Models.Validate.{concat}
use secure_sudoers_setup.Steps.{Step, ◌>>=◌, pure, fail, attempt, or_error}
use secure_sudoers_setup.Calls.{
  Machine, History, call, sigaction_default, sigaction_restore, raise, kill,
}

-- STOP, TSTP, TTIN and TTOU.
abbrev pub is_job_control_stop_signal : ℕ → Bool
is_job_control_stop_signal sig = sig == 19 || sig == 20 || sig == 21 || sig == 22

-- `ESRCH`
abbrev pub no_such_process : Option ℕ → Bool
no_such_process none = false
no_such_process (some code) = code == 3

-- The number of a process group in `kill`.
abbrev pub group : ℕ → ℤ
group n = if n == 0 then pos 0 else negsuc (n - 1)

-- `errno` behind a call that failed and one more.
abbrev pub last_error : IoError → Result IoError ℕ → IoError
last_error e (ok n) = e
last_error e (err later) = later

module _ (m : Machine) where
  abbrev raise_failure : ℕ → IoError → Error
  raise_failure sig e = io_context (lit "failed to propagate stop signal " ++ show sig) e

  abbrev pub put_back_on : ℕ → Result IoError ℕ → Step History Error (Unit {0})
  put_back_on sig (ok n) =
      or_error (io_context (concat (lit "sigaction(" ∷ show sig ∷ lit ", restore) failed" ∷ [])))
        (call m (sigaction_restore sig))
      >>= (λ n. pure tt)
  put_back_on sig (err e) =
      attempt (call m (sigaction_restore sig)) (λ r. fail (raise_failure sig (last_error e r)))

  -- A stop that can be caught is raised under its default disposition.
  unfoldable pub suspend_self_for_job_control : ℕ → Step History Error (Unit {0})
  suspend_self_for_job_control sig =
      if sig == 19
      then or_error (raise_failure sig) (call m (raise sig)) >>= (λ n. pure tt)
      else (do
        set ←
            or_error
              (io_context (concat (lit "sigaction(" ∷ show sig ∷ lit ", SIG_DFL) failed" ∷ [])))
              (call m (sigaction_default sig))
        attempt (call m (raise sig)) (put_back_on sig))

  abbrev pub continued_or : ℕ → Result IoError ℕ → Step History Error (Unit {0})
  continued_or pgid (ok n) = pure tt
  continued_or pgid (err e) =
      if no_such_process e.raw_os_error
      then pure tt
      else fail (io_context (concat (lit "kill(-" ∷ show pgid ∷ lit ", SIGCONT) failed" ∷ [])) e)

  abbrev bad_group : ℤ → Error
  bad_group pgid =
      system (lit "invalid current process group id while propagating SIGCONT: " ++ show_int pgid)

  abbrev pub continue_group : ℤ → Step History Error (Unit {0})
  continue_group (pos n) =
      if n == 0
      then fail (bad_group (pos n))
      else attempt (call m (kill (group n) 18)) (continued_or n)
  continue_group (negsuc n) = fail (bad_group (negsuc n))

  unfoldable pub send_sigcont_to_current_group : Step History Error (Unit {0})
  send_sigcont_to_current_group h = continue_group (m.getpgrp h) h
