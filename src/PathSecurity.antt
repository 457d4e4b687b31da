-- ===== src/PathSecurity.antt =====
-- `crates/secure-sudoers-utils/src/modules/path_security.rs`: directories that only root can change.
use secure_sudoers_setup.Base.{
  ℕ, ◌+◌, ◌/◌, ◌%◌, Bool, not, ◌||◌, ◌==◌, [], ◌∷◌, ◌++◌, Result, ok, ◌>>=◌, ◌>>◌, map_err, ok_or,
  if◌then◌else◌,
}
use secure_sudoers_setup.Text.{Text, lit, show}
use secure_sudoers_setup.Error.{Error, IoError, io_context, security, system}
use secure_sudoers_setup.Path.{parent}
use secure_sudoers_setup.Fs.{Fd, FileSystem, SecurePath, positional, check_path}
use secure_sudoers_setup.Models.Validate.{concat, guard}

pub record Stat : Type 0 where
  pub st_mode : ℕ
  pub st_uid : ℕ

-- The kernel's answers.
pub record Owners : Type 0 where
  pub fstat : Fd → Result IoError Stat
  pub geteuid : ℕ

-- `mode & S_IFMT == S_IFDIR`
abbrev pub is_directory : ℕ → Bool
is_directory mode = mode / 4096 % 16 == 4

-- `mode & 0o022 != 0`
abbrev pub writable_by_others : ℕ → Bool
writable_by_others mode = mode / 16 % 2 == 1 || mode / 2 % 2 == 1

-- `format!("{:03o}")` of a number below 512
abbrev octal : ℕ → Text
octal mode = (b'0' + mode / 64) ∷ (b'0' + mode / 8 % 8) ∷ (b'0' + mode % 8) ∷ []

abbrev violation : Text → Text → Text → Error
violation label path what =
    security (concat (lit "Security violation: " ∷ label ∷ lit " " ∷ path ∷ what ∷ []))

abbrev owner_error : Text → Text → Stat → Error
owner_error label path stat =
    violation label path (lit " must be owned by root (uid 0), found uid " ++ show stat.st_uid)

abbrev pub mode_error : Text → Text → Stat → Error
mode_error label path stat = violation label path (
    concat (
      lit " must not be writable by group/others (mode "
      ∷ octal (stat.st_mode % 512)
      ∷ lit ")"
      ∷ []))

-- The tests that only a process of root makes.
abbrev pub ensure_owned : Text → Text → Stat → Result Error (Unit {0})
ensure_owned label path stat = do
  guard (stat.st_uid == 0) (owner_error label path stat)
  guard (not (writable_by_others (stat.st_mode % 512))) (mode_error label path stat)

module _ (owners : Owners) where
  unfoldable pub ensure_directory_is_hardened : SecurePath → Text → Result Error (Unit {0})
  ensure_directory_is_hardened secure_dir label = do
    stat ←
        map_err
          (io_context (
            concat
              (lit "Cannot inspect " ∷ label ∷ lit " " ∷ secure_dir.path ∷ lit " with fstat" ∷ [])))
          (owners.fstat secure_dir.fd)
    guard (is_directory stat.st_mode) (violation label secure_dir.path (lit " is not a directory"))
    if owners.geteuid == 0 then ensure_owned label secure_dir.path stat else ok tt

module _ (fs : FileSystem) (owners : Owners) where
  unfoldable pub secure_directory : Text → Text → Result Error SecurePath
  secure_directory path label = do
    secure_dir ← check_path fs path positional []
    ensure_directory_is_hardened owners secure_dir label
    ok secure_dir

  unfoldable pub secure_parent_directory : Text → Text → Result Error SecurePath
  secure_parent_directory target label = do
    dir ← ok_or (parent target) (
        system (
          concat
            (lit "Cannot validate " ∷ label ∷ lit ": missing parent directory for " ∷ target ∷ [])))
    secure_directory dir label
