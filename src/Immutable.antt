-- ===== src/Immutable.antt =====
-- `crates/secure-sudoers-utils/src/modules/installer/immutable.rs`: the immutable flag of files.
pub mod Target
pub mod Locked
pub mod Marked
use secure_sudoers_setup.Base.{
  ℕ, ◌+◌, ◌-◌, ◌/◌, ◌%◌, Bool, true, false, not, ◌&&◌, ◌==◌, List, [], ◌∷◌, ◌++◌, Option, none,
  some, Result, ok, err, map_err, ok_or, if◌then◌else◌, is_empty,
}
use secure_sudoers_setup.Text.{Text, lit, text_eq, has_char}
use secure_sudoers_setup.Error.{Error, IoError, io, io_context, to_text}
use secure_sudoers_setup.Path.{is_absolute, parent, file_name}
use secure_sudoers_setup.Fs.{Fd, FileSystem, SecurePath, positional, check_path}
use secure_sudoers_setup.Models.Validate.{concat}
use secure_sudoers_setup.Immutable.Target.{
  ImmutableOpError, from_io_context, open_failure, locate, immutable_action_for_flag,
  with_immutable_bit, has_code,
}
use secure_sudoers_setup.Steps.{
  Step, ◌>>=◌, ◌>>◌, pure, fail, answer, attempt, or_error, continue, handled, renamed,
}
use secure_sudoers_setup.Disk.{Disk}

module _ (fs : FileSystem) (disk : Disk) where
  -- Flags that are right already are not written.
  abbrev pub write_flags :
      Text → disk.Handle → Bool → ℕ → Step disk.State ImmutableOpError (Unit {0})
  write_flags path target set_immutable current_flags =
      let updated_flags = with_immutable_bit current_flags set_immutable in
      if updated_flags == current_flags
      then pure tt
      else or_error
          (from_io_context
            (lit "Cannot write inode flags for " ++ (path ++ lit " via ioctl(FS_IOC_SETFLAGS)")))
          (disk.set_flags target updated_flags)

  unfoldable pub open_verified_target : Text → Step disk.State ImmutableOpError disk.Handle
  open_verified_target path = do
    place ← answer (locate fs path)
    or_error (open_failure path) (disk.open_read place.0 place.1)

  unfoldable pub apply_immutable_flag : Text → Bool → Step disk.State ImmutableOpError (Unit {0})
  apply_immutable_flag path set_immutable = do
    target ← open_verified_target path
    current_flags ←
        or_error
          (from_io_context
            (lit "Cannot read inode flags for " ++ (path ++ lit " via ioctl(FS_IOC_GETFLAGS)")))
          (disk.get_flags target)
    write_flags path target set_immutable current_flags

  -- `ENOENT` is 2: a file that is missing needs no unlocking.
  abbrev pub noted : Bool → Result ImmutableOpError (Unit {0}) → List Text → List Text
  noted set_immutable (ok done) later = later
  noted set_immutable (err e) later =
      if not set_immutable && has_code 2 e.raw_os_error then later else e.message ∷ later

  -- The loop, with the errors in order.
  unfoldable pub chattr_each : Bool → List Text → disk.State → List Text × disk.State
  chattr_each set_immutable [] s = ([], s)
  chattr_each set_immutable (path ∷ paths) s =
      let (r, t) = apply_immutable_flag path set_immutable s in
      let (errors, u) = chattr_each set_immutable paths t in (noted set_immutable r errors, u)

  abbrev act_on : Result Text Bool → List Text → disk.State → List Text × disk.State
  act_on (ok set_immutable) paths s = chattr_each set_immutable paths s
  act_on (err e) paths s = (e ∷ [], s)

  unfoldable pub chattr_op : Text → List Text → disk.State → List Text × disk.State
  unfolding chattr_each
  chattr_op flag paths s =
      if is_empty paths then ([], s) else act_on (immutable_action_for_flag flag) paths s
