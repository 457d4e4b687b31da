-- ===== src/Lib.antt =====
-- secure-sudoers: a gatekeeper between sudo and the tools that a signed policy grants.
--
-- An invocation passes through `main` (crates/secure-sudoers/src/main.rs): the kernel's release is
-- tested, the policy is loaded and its signature verified, the tool and its arguments are read from
-- `argv` and `SUDO_COMMAND`, the arguments are validated against the policy, the executable is bound to
-- the file that sudo was asked for, its hash is taken, the event is logged with the arguments
-- redacted, and the command goes to the supervisor.
--
-- Modules, and the code that they model (paths below crates/):
--   Fs         secure-sudoers-common/src/fs.rs: `check_path` and its walk over descriptors
--   Models     secure-sudoers-common/src/models.rs: the policy, tests on one parameter; Models/Validate
--              has `validate` and `lint`
--   Validator  secure-sudoers-common/src/validator.rs and validator/helpers.rs: `validate_command`
--   Redaction  secure-sudoers/src/helpers/redaction.rs: `redact_args`
--   SudoCommand, Invocation, Binding
--              secure-sudoers/src/helpers/sudo_command.rs, invocation.rs, binding.rs
--   Kernel     secure-sudoers-common/src/kernel.rs
--   Policy     secure-sudoers/src/helpers/policy.rs, and Policy/Pem `read_pem_bytes` of
--              secure-sudoers-common/src/util.rs
--   Main       secure-sudoers/src/main.rs; Main/Events is the data of secure-sudoers-common/src/telemetry.rs
--   Account    `classify_account_type_from_reader` of secure-sudoers/src/main.rs
--   Capabilities
--              secure-sudoers/src/isolation/capabilities.rs: the drop of the bounding set; Capabilities/Drop
--              has `drop_capabilities`
--   Isolation  secure-sudoers/src/isolation.rs: `setup_isolation`; Isolation/Guard is path_guard.rs beside
--              it, and Isolation/Mounts mounts.rs
--   Exec       secure-sudoers/src/exec.rs: `execute_securely` up to `fexecve` and the wrapper that waits;
--              Exec/Pins pins the validated paths and their parents
--   Signals    secure-sudoers/src/signal_utils.rs, and `send_sigcont_to_current_group` of exec.rs
--   Calls      the system calls of these three, as a list of calls and a parameter that answers them
--   Update     secure-sudoers-utils/src/modules/network.rs: Update/Fetch reads from the server, Update/Check
--              tests a download, Update/Install replaces the files and rolls back
--   Immutable  secure-sudoers-utils/src/modules/installer/immutable.rs: `chattr_op`
--   PathSecurity, Keys
--              secure-sudoers-utils/src/modules/path_security.rs and keys.rs (reading keys)
--   Disk       the calls by which files are read and replaced, as parameters, with laws for files of one
--              name (Disk/Laws), an instance in memory (Disk/Memory), and laws for files that may have
--              several names (Disk/Inodes), as the entry points of the tools have
--   Steps      steps on a state that may fail, and postconditions
--   Error      secure-sudoers-common/src/error.rs
--   Text, Path, Map, Regex
--              what the code uses of Rust's `str`, `std::path`, `HashMap` and of the crate `regex`
--   Examples   tests, and the theorems at concrete inputs
-- Functions and types keep their names. A loop body or a `match` that a theorem speaks about is a
-- function of its own, named for what it does. A file below a module proves what its name says.
--
-- State is passed explicitly: iterators are the list of what is left, vectors that grow come back with
-- the result, and `main` is the list of its effects in order. `Result` is a data type, a panic is `none`
-- or the effect `panic`. Texts are lists of code points; byte lengths are those of UTF-8. A `HashMap` is
-- the list of its entries in the order of iteration, and no order is assumed.
--
-- The loop of `validate_command` takes as fuel the number of arguments, of which each round reads one at
-- least. The walk of `check_path` recurs on the links left (32 at first) and on the components. The
-- tokenizer recurs on the tokens still wanted and on the text.
--
-- Parameters: the kernel's answers about files (FileSystem, PathInfo, Kernel, PemFiles, World), the
-- regular expressions (RegexEngine), Ed25519, JSON and base64 (Codecs), the environment, the clock.
-- They answer for one state of the system: changes that others make between two calls are not
-- modelled. The Machine, which answers the system calls of Isolation, Exec and Signals, sees all the
-- calls before and may answer the same call differently each time. `main` takes the identity of the caller, the transaction's id, the kernel's release, the
-- hash of a file and the supervised run as answers of the World.
--
-- Not modelled: deserialisation, which serde derives; most log lines that are no security events; the
-- supervisor, which stands behind `run_supervisor`; the installer but its immutable flags, the
-- generation of keys and the command line of the utilities. Overrides by the environment in debug
-- builds are left out. The wrapper's loop over `waitpid` has a number of rounds as fuel; `none` says
-- that it still waits. The text of an error by `unshare` leaves out its flags.
-- A variable of the environment that is not UTF-8, on which `std::env::vars` panics, and a failure of
-- `sigemptyset` are left out.
pub mod Base
pub mod Text
pub mod Map
pub mod Error
pub mod Path
pub mod Fs
pub mod Regex
pub mod Models
pub mod Validator
pub mod Redaction
pub mod SudoCommand
pub mod Invocation
pub mod Binding
pub mod Kernel
pub mod Policy
pub mod Main
pub mod Account
pub mod Capabilities
pub mod Steps
pub mod PathSecurity
pub mod Disk
pub mod Immutable
pub mod Keys
pub mod Update
pub mod Calls
pub mod Signals
pub mod Isolation
pub mod Exec
pub mod Examples
