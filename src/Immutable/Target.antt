-- ===== src/Immutable/Target.antt =====
-- `crates/secure-sudoers-utils/src/modules/installer/immutable.rs`: errors, flags and targets.
use secure_sudoers_setup.Base.{
  ℕ, ◌+◌, ◌-◌, ◌/◌, ◌%◌, Bool, true, false, ◌==◌, [], ◌∷◌, ◌++◌, Option, none, some, Result, ok,
  err, ◌>>=◌, map_err, ok_or, if◌then◌else◌,
}
use secure_sudoers_setup.Text.{Text, lit, text_eq, has_char}
use secure_sudoers_setup.Error.{Error, IoError, io, io_context, to_text}
use secure_sudoers_setup.Path.{is_absolute, parent, file_name}
use secure_sudoers_setup.Fs.{Fd, FileSystem, positional, check_path}
use secure_sudoers_setup.Models.Validate.{concat}

pub record ImmutableOpError : Type 0 where
  pub message : Text
  pub raw_os_error : Option ℕ

-- `ImmutableOpError::new`
abbrev pub op_error : Text → Option ℕ → ImmutableOpError
op_error message code = record { message = message; raw_os_error = code }

-- `ImmutableOpError::from_io_context`
abbrev pub from_io_context : Text → IoError → ImmutableOpError
from_io_context context e = record {
  message = context ++ (lit ": " ++ e.message);
  raw_os_error = e.raw_os_error;
}

abbrev raw_os_error_of : Error → Option ℕ
raw_os_error_of (io e) = e.raw_os_error
raw_os_error_of (io_context context e) = e.raw_os_error
raw_os_error_of _ = none

-- `ImmutableOpError::from_common_context`
abbrev pub from_common_context : Text → Error → ImmutableOpError
from_common_context context e = record {
  message = context ++ (lit ": " ++ to_text e);
  raw_os_error = raw_os_error_of e;
}

abbrev pub immutable_action_for_flag : Text → Result Text Bool
immutable_action_for_flag flag =
    if text_eq flag (lit "+i")
    then ok true
    else if text_eq flag (lit "-i")
    then ok false
    else err (lit "Unsupported immutable operation flag: " ++ flag)

-- The flags with the bit 0x10 set or cleared.
abbrev pub with_immutable_bit : ℕ → Bool → ℕ
with_immutable_bit flags true = if flags / 16 % 2 == 1 then flags else flags + 16
with_immutable_bit flags false = if flags / 16 % 2 == 1 then flags - 16 else flags

-- `errno` is the one given.
abbrev pub has_code : ℕ → Option ℕ → Bool
has_code n none = false
has_code n (some code) = code == n

-- `ELOOP` is 40: the name is a symbolic link.
abbrev pub open_failure : Text → IoError → ImmutableOpError
open_failure path e =
    if has_code 40 e.raw_os_error
    then op_error (lit "Refusing immutable operation on symbolic link target " ++ path) (some 40)
    else from_io_context
        (lit "Cannot open secure target " ++ (path ++ lit " for immutable operation")) e

-- The directory and the name of an absolute path.
unfoldable pub locate : FileSystem → Text → Result ImmutableOpError (Fd × Text)
locate fs path = do
  absolute ←
      if is_absolute path
      then ok tt
      else err (op_error (lit "Immutable operation requires an absolute path: " ++ path) none)
  dir ←
      ok_or (parent path)
        (op_error (lit "Cannot determine parent directory for immutable target " ++ path) none)
  secure_parent ←
      map_err
        (from_common_context (
          concat (
            lit "Cannot securely resolve parent directory of "
            ∷ path
            ∷ lit " before immutable operation"
            ∷ [])))
        (check_path fs dir positional [])
  basename ←
      ok_or (file_name path)
        (op_error (lit "Immutable operation requires a concrete target path, got: " ++ path) none)
  if has_char 0 basename
      then err (op_error (lit "Immutable target contains an interior NUL byte: " ++ path) none)
      else ok (secure_parent.fd, basename)
