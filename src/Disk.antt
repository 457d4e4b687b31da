-- ===== src/Disk.antt =====
-- The files that the utilities read and replace. The calls of the file system and of the crate
-- `tempfile` are parameters, as steps on a state that is not looked into.
pub mod Laws
pub mod Inodes
pub mod Memory
use secure_sudoers_setup.Base.{ℕ, Bool, List}
use secure_sudoers_setup.Text.{Text}
use secure_sudoers_setup.Error.{IoError}
use secure_sudoers_setup.Fs.{Fd}
use secure_sudoers_setup.Steps.{Step}

-- A name is read in the directory behind a descriptor: `/proc/self/fd/{fd}/{name}`.
pub record Disk : Type 1 where
  pub State : Type 0
  -- a file that is open
  pub Handle : Type 0
  -- a `NamedTempFile`
  pub Temp : Type 0
  -- `open(O_RDONLY | O_CLOEXEC | O_NOFOLLOW)`
  pub open_read : Fd → Text → Step State IoError Handle
  -- `file.take(n).read_to_end`
  pub read_up_to : Handle → ℕ → Step State IoError (List ℕ)
  -- `file.metadata()?.permissions().mode()`
  pub mode : Handle → Step State IoError ℕ
  -- `ioctl(FS_IOC_GETFLAGS)`
  pub get_flags : Handle → Step State IoError ℕ
  -- `ioctl(FS_IOC_SETFLAGS)`
  pub set_flags : Handle → ℕ → Step State IoError (Unit {0})
  -- `NamedTempFile::new_in`
  pub new_in : Fd → Step State IoError Temp
  pub write_all : Temp → List ℕ → Step State IoError (Unit {0})
  pub sync_all : Temp → Step State IoError (Unit {0})
  pub set_permissions : Temp → ℕ → Step State IoError (Unit {0})
  -- `tmp.persist`: a rename over the name
  pub persist : Temp → Fd → Text → Step State IoError (Unit {0})
  pub remove_file : Fd → Text → Step State IoError (Unit {0})
  -- `std::fs::read_to_string`
  pub read_to_string : Text → Step State IoError Text
