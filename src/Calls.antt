-- ===== src/Calls.antt =====
-- The system calls of the processes that isolate, run and supervise a command. The kernel is a
-- parameter: it answers each call, and may look at all the calls before it. The state of a process is
-- the list of its calls, the first one first.
pub mod Selected
use secure_sudoers_setup.Base.{ℕ, ℤ, Bool, List, [], ◌∷◌, ◌++◌, Option, Result, ok, err}
use secure_sudoers_setup.Text.{Text}
use secure_sudoers_setup.Error.{Error, IoError}
use secure_sudoers_setup.Fs.{Fd}
use secure_sudoers_setup.Steps.{Step}

pub data MountFlag : Type 0 where
  ms_bind ms_rec ms_private ms_remount ms_rdonly : MountFlag

pub record Mount : Type 0 where
  pub source : Option Text
  pub target : Text
  pub fstype : Option Text
  pub flags : List MountFlag

pub data Namespace : Type 0 where
  newns newnet newpid newipc newuts : Namespace

pub data Call : Type 0 where
  -- `open("/", O_PATH | O_DIRECTORY | O_NOFOLLOW | O_CLOEXEC)`
  open_root : Call
  -- `openat(fd, name, O_PATH | O_NOFOLLOW | O_CLOEXEC)`
  openat : Fd → Text → Call
  -- `openat(fd, name, O_WRONLY | O_CREAT | O_EXCL | …, 0)`, and the `close` behind it
  create : Fd → Text → Call
  mkdirat : Fd → Text → Call
  fstat : Fd → Call
  mount : Mount → Call
  unshare : List Namespace → Call
  -- `fcntl(fd, F_DUPFD_CLOEXEC, 0)`
  dup : Fd → Call
  -- `prctl(PR_CAPBSET_DROP, cap)`
  drop_bounding : ℕ → Call
  -- `capset` of empty sets
  capset : Call
  fork : Call
  -- `prctl(PR_SET_PDEATHSIG, signal)`
  set_pdeathsig : ℕ → Call
  getppid : Call
  -- `sigaction(signal, SIG_DFL)`
  sigaction_default : ℕ → Call
  -- `sigaction(signal, old)`
  sigaction_restore : ℕ → Call
  fexecve : Fd → List Text → List (Text × Text) → Call
  -- the stage that is written to the supervisor's pipe
  write_stage : Call
  -- `signal(signal, SIG_IGN)`
  signal_ignore : ℕ → Call
  kill : ℤ → ℕ → Call
  raise : ℕ → Call
  waitpid : ℤ → Call
  -- `waitpid(-1, WNOHANG)` until no child that has ended is left
  reap_all : Call
  sleep_50_ms : Call

-- What `fstat` says of a file, as far as it is read.
pub record FileStat : Type 0 where
  pub dev : ℕ
  pub ino : ℕ
  pub st_mode : ℕ

pub data WaitStatus : Type 0 where
  exited : ℕ → WaitStatus
  signaled : ℕ → WaitStatus
  stopped : ℕ → WaitStatus
  continued : WaitStatus
  interrupted : WaitStatus
  -- any other error
  failed : IoError → WaitStatus
  -- any other status, by its text
  other : Text → WaitStatus

abbrev pub History : Type 0
History = List Call

pub record Machine : Type 0 where
  -- the number that a call returns, or its error
  pub answer : History → Call → Result IoError ℕ
  pub stat : History → Fd → Result IoError FileStat
  -- `read_to_string("/proc/sys/kernel/cap_last_cap")`
  pub cap_last_cap : Result IoError Text
  pub getppid : History → ℕ
  pub getpgrp : History → ℤ
  pub wait : History → ℤ → WaitStatus

module _ (m : Machine) where
  abbrev pub call : Call → Step History IoError ℕ
  call c h = (m.answer h c, h ++ c ∷ [])

  abbrev pub stat_of : Fd → Step History IoError FileStat
  stat_of fd h = (m.stat h fd, h ++ fstat fd ∷ [])

  abbrev pub wait_for : {E : Type 0} → ℤ → Step History E WaitStatus
  wait_for pid h = (ok (m.wait h pid), h ++ waitpid pid ∷ [])

  abbrev pub ppid_of : {E : Type 0} → Step History E ℕ
  ppid_of h = (ok (m.getppid h), h ++ getppid ∷ [])
