-- ===== src/Update/Install.antt =====
-- `crates/secure-sudoers-utils/src/modules/network.rs`: replacing the policy file and its signature,
-- and putting the signature back when the policy cannot be replaced.
use secure_sudoers_setup.Base.{
  ℕ, ◌+◌, ◌%◌, Bool, false, ltb, List, [], ◌∷◌, ◌++◌, Option, none, some, Result, ok, err, ok_or,
  if◌then◌else◌, is_empty, length,
}
use secure_sudoers_setup.Text.{Text, lit, show}
use secure_sudoers_setup.Error.{Error, IoError, ErrorKind, io_context, system, to_text}
use secure_sudoers_setup.Path.{file_name}
use secure_sudoers_setup.Fs.{Fd, FileSystem}
use secure_sudoers_setup.Models.Validate.{concat, is_not_found}
use secure_sudoers_setup.PathSecurity.{Owners, secure_parent_directory}
use secure_sudoers_setup.Steps.{Step, ◌>>=◌, ◌>>◌, pure, fail, answer, attempt, or_error}
use secure_sudoers_setup.Disk.{Disk}
use secure_sudoers_setup.Disk.Laws.{has_immutable, has_no_flags}
use secure_sudoers_setup.Immutable.{chattr_op}

abbrev pub default_policy_mode : ℕ
default_policy_mode = 384

abbrev pub max_rollback_signature_bytes : ℕ
max_rollback_signature_bytes = 1024

-- `previous.or(Some(DEFAULT_POLICY_MODE))`
abbrev pub mode_or : Option ℕ → Option ℕ
mode_or none = some default_policy_mode
mode_or (some m) = some m

-- `unwrap_or(false)`
abbrev pub or_false : Option Bool → Bool
or_false none = false
or_false (some b) = b

-- `std::io::Error::other`
abbrev pub other_error : Text → IoError
other_error message = record { kind = ErrorKind.other; raw_os_error = none; message = message }

abbrev pub join_lines : Text → List Text → Text
join_lines separator [] = []
join_lines separator (t ∷ []) = t
join_lines separator (t ∷ u ∷ ts) = t ++ (separator ++ join_lines separator (u ∷ ts))

abbrev pub named : Text → Option Text → Result Error Text
named path name = ok_or name (
    system
      (concat (lit "Invalid policy destination path " ∷ path ∷ lit ": missing file name" ∷ [])))

abbrev pub targets_of : Text → Text → Bool → Bool → List Text
targets_of sig_path policy_path sig_was_immutable policy_was_immutable =
    let later = if policy_was_immutable then policy_path ∷ [] else [] in
    if sig_was_immutable then sig_path ∷ later else later

module _ (disk : Disk) where
  -- `None` if there is no such file.
  abbrev pub opened :
      {A : Type 0}
      → (disk.Handle → Step disk.State IoError (Option A))
      → Result IoError disk.Handle
      → Step disk.State IoError (Option A)
  opened use_file (ok h) = use_file h
  opened use_file (err e) = if is_not_found e.kind then pure none else fail e

  abbrev pub checked_signature : List ℕ → Step disk.State IoError (Option (List ℕ))
  checked_signature bytes =
      if ltb max_rollback_signature_bytes (length bytes)
      then fail (
          other_error (
            concat (
              lit "existing signature exceeds "
              ∷ show max_rollback_signature_bytes
              ∷ lit " bytes"
              ∷ [])))
      else pure (some bytes)

  unfoldable pub read_existing_signature_for_rollback :
      Fd → Text → Step disk.State IoError (Option (List ℕ))
  read_existing_signature_for_rollback dir name =
      attempt (disk.open_read dir name)
        (opened (λ h. disk.read_up_to h (max_rollback_signature_bytes + 1) >>= checked_signature))

  unfoldable pub read_existing_mode : Fd → Text → Step disk.State IoError (Option ℕ)
  read_existing_mode dir name =
      attempt (disk.open_read dir name) (opened (λ h. disk.mode h >>= (λ m. pure (some (m % 512)))))

  abbrev pub immutable_from : Result IoError ℕ → Step disk.State IoError (Option Bool)
  immutable_from (ok flags) = pure (some (has_immutable flags))
  immutable_from (err e) = if has_no_flags e.raw_os_error then pure (some false) else fail e

  unfoldable pub read_existing_immutable : Fd → Text → Step disk.State IoError (Option Bool)
  read_existing_immutable dir name =
      attempt (disk.open_read dir name) (opened (λ h. attempt (disk.get_flags h) immutable_from))

  unfoldable pub apply_mode_if_present : disk.Temp → Option ℕ → Step disk.State IoError (Unit {0})
  apply_mode_if_present tmp none = pure tt
  apply_mode_if_present tmp (some mode) = disk.set_permissions tmp mode

  -- A temporary file with these bytes and this mode; `what` names it in errors.
  unfoldable pub write_temp : Fd → Text → Text → List ℕ → Option ℕ → Step disk.State Error disk.Temp
  write_temp dir what where_to bytes mode = do
    tmp ←
        or_error
          (io_context (concat (lit "Cannot create temp " ∷ what ∷ lit " file in " ∷ where_to ∷ [])))
          (disk.new_in dir)
    or_error (io_context (concat (lit "Failed to write temp " ∷ what ∷ lit " file" ∷ [])))
        (disk.write_all tmp bytes)
    or_error (io_context (concat (lit "Failed to sync temp " ∷ what ∷ lit " file" ∷ [])))
        (disk.sync_all tmp)
    or_error
        (io_context (concat (lit "Failed to set permissions on temp " ∷ what ∷ lit " file" ∷ [])))
        (apply_mode_if_present tmp mode)
    pure tmp

-- What is known of a file before it is replaced.
pub record Previous : Type 0 where
  pub bytes : Option (List ℕ)
  pub mode : Option ℕ
  pub immutable : Bool

abbrev pub reading : Text → Text → IoError → Error
reading what path e = io_context (what ++ path) e

module _ (disk : Disk) where
  unfoldable pub read_previous_signature : Text → Fd → Text → Step disk.State Error Previous
  read_previous_signature sig_path dir name = do
    previous_sig ←
        or_error (reading (lit "Failed to read existing signature at ") sig_path)
          (read_existing_signature_for_rollback disk dir name)
    sig_mode ←
        or_error (reading (lit "Cannot read metadata for ") sig_path)
          (read_existing_mode disk dir name)
    sig_immutable ←
        or_error (reading (lit "Cannot inspect immutable flag for ") sig_path)
          (read_existing_immutable disk dir name)
    pure (record { bytes = previous_sig; mode = sig_mode; immutable = or_false sig_immutable })

  unfoldable pub read_previous_policy : Text → Fd → Text → Step disk.State Error Previous
  read_previous_policy policy_path dir name = do
    policy_mode ←
        or_error (reading (lit "Cannot read metadata for ") policy_path)
          (read_existing_mode disk dir name)
    policy_immutable ←
        or_error (reading (lit "Cannot inspect immutable flag for ") policy_path)
          (read_existing_immutable disk dir name)
    pure (record { bytes = none; mode = policy_mode; immutable = or_false policy_immutable })

module _ (fs : FileSystem) (owners : Owners) (disk : Disk) where
  abbrev pub outcome_of :
      {E : Type 0} → (List Text → E) → List Text × disk.State → Result E (Unit {0}) × disk.State
  outcome_of failure ([], s) = (ok tt, s)
  outcome_of failure (e ∷ errors, s) = (err (failure (e ∷ errors)), s)

  abbrev pub lock_failure : List Text → Error
  lock_failure errors = system (
      lit "Failed to restore immutable attribute (+i) on updated file(s):\n"
      ++ join_lines (lit "\n") errors)

  abbrev pub signature_lock_failure : List Text → IoError
  signature_lock_failure errors =
      other_error
        (lit "failed to restore immutable attribute (+i): " ++ join_lines (lit "; ") errors)

  unfoldable pub restore_immutable_if_needed :
      Text → Text → Bool → Bool → Step disk.State Error (Unit {0})
  restore_immutable_if_needed sig_path policy_path sig_was_immutable policy_was_immutable s =
      let targets = targets_of sig_path policy_path sig_was_immutable policy_was_immutable in
      if is_empty targets
      then (ok tt, s)
      else outcome_of lock_failure (chattr_op fs disk (lit "+i") targets s)

  abbrev pub lock_again : Text → Bool → Step disk.State IoError (Unit {0})
  lock_again sig_path was_immutable s =
      if was_immutable
      then outcome_of signature_lock_failure (chattr_op fs disk (lit "+i") (sig_path ∷ []) s)
      else (ok tt, s)

  abbrev pub removed : Result IoError (Unit {0}) → Step disk.State IoError (Unit {0})
  removed (ok done) = pure tt
  removed (err e) = if is_not_found e.kind then pure tt else fail e

  unfoldable pub put_back :
      Text → Fd → Text → Previous → Option (List ℕ) → Step disk.State IoError (Unit {0})
  put_back sig_path dir name previous (some bytes) = do
    tmp ← disk.new_in dir
    disk.write_all tmp bytes
    apply_mode_if_present disk tmp (mode_or previous.mode)
    disk.sync_all tmp
    disk.persist tmp dir name
    lock_again sig_path previous.immutable
  put_back sig_path dir name previous none = attempt (disk.remove_file dir name) removed

  abbrev io_other : Error → IoError
  io_other e = other_error (to_text e)

  abbrev missing_name : Text → IoError
  missing_name sig_path = other_error (
      concat
        (lit "Invalid signature destination path " ∷ sig_path ∷ lit ": missing file name" ∷ []))

  unfoldable pub restore_signature : Text → Previous → Step disk.State IoError (Unit {0})
  restore_signature sig_path previous = do
    secure_sig_parent ← or_error io_other (
        answer (
          secure_parent_directory fs owners sig_path
            (lit "signature destination parent directory")))
    sig_file_name ← answer (ok_or (file_name sig_path) (missing_name sig_path))
    put_back sig_path secure_sig_parent.fd sig_file_name previous previous.bytes

  abbrev pub rollback_failure : Text → Error → IoError → Error
  rollback_failure sig_path e rollback_err = system (
      concat (
        lit "Policy update failed ("
        ∷ to_text e
        ∷ lit "); signature rollback also failed at "
        ∷ sig_path
        ∷ lit ": "
        ∷ rollback_err.message
        ∷ []))

  abbrev pub rolled_back :
      Text → Error → Result IoError (Unit {0}) → Step disk.State Error (Unit {0})
  rolled_back sig_path e (ok done) = fail e
  rolled_back sig_path e (err rollback_err) = fail (rollback_failure sig_path e rollback_err)

  abbrev pub settled : Text → Previous → Result Error (Unit {0}) → Step disk.State Error (Unit {0})
  settled sig_path previous (ok done) = pure tt
  settled sig_path previous (err e) =
      attempt (restore_signature sig_path previous) (rolled_back sig_path e)

  unfoldable pub run_with_signature_rollback :
      Text → Previous → Step disk.State Error (Unit {0}) → Step disk.State Error (Unit {0})
  run_with_signature_rollback sig_path previous policy_step =
      attempt policy_step (settled sig_path previous)

  -- The renames, the signature first.
  unfoldable pub replace_both :
      Text → Fd → Text → Text → Previous → disk.Temp → disk.Temp → Step disk.State Error (Unit {0})
  replace_both sig_path dir sig_name policy_name previous tmp_sig tmp_policy = do
    or_error (io_context (lit "Atomic rename of signature failed"))
        (disk.persist tmp_sig dir sig_name)
    run_with_signature_rollback sig_path previous (
        or_error (io_context (lit "Atomic rename of policy failed"))
          (disk.persist tmp_policy dir policy_name))

  unfoldable pub install_in : Text → List ℕ → List ℕ → Fd → Text → Step disk.State Error (Unit {0})
  install_in policy_path policy_bytes sig_bytes dir policy_name = do
    let sig_path = policy_path ++ lit ".sig"
    let sig_name = policy_name ++ lit ".sig"
    let where_to = lit "/proc/self/fd/" ++ show dir
    sig ← read_previous_signature disk sig_path dir sig_name
    policy ← read_previous_policy disk policy_path dir policy_name
    tmp_sig ← write_temp disk dir (lit "sig") where_to sig_bytes (mode_or sig.mode)
    tmp_policy ← write_temp disk dir (lit "policy") where_to policy_bytes (mode_or policy.mode)
    replace_both sig_path dir sig_name policy_name sig tmp_sig tmp_policy
    restore_immutable_if_needed sig_path policy_path sig.immutable policy.immutable

  unfoldable pub install_update : Text → List ℕ → List ℕ → Step disk.State Error (Unit {0})
  install_update policy_path policy_bytes sig_bytes = do
    secure_policy_parent ←
        answer (
          secure_parent_directory fs owners policy_path (lit "policy destination parent directory"))
    policy_file_name ← answer (named policy_path (file_name policy_path))
    install_in policy_path policy_bytes sig_bytes secure_policy_parent.fd policy_file_name
