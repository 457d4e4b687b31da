-- ===== src/Isolation.antt =====
-- `crates/secure-sudoers/src/isolation.rs`, isolation/mounts.rs and isolation/path_guard.rs: the
-- namespaces and mounts in which a command runs.
pub mod Guard
pub mod Quiet
pub mod Mounted
pub mod Added
pub mod Mounts
pub mod Ordered
use secure_sudoers_setup.Base.{ℕ, List, [], ◌∷◌, ◌++◌, Bool, true, false, if◌then◌else◌}
use secure_sudoers_setup.Text.{Text, lit}
use secure_sudoers_setup.Error.{Error}
use secure_sudoers_setup.Models.{IsolationSettings}
use secure_sudoers_setup.Steps.{Step, ◌>>=◌, ◌>>◌, continue}
use secure_sudoers_setup.Calls.{Machine, History}
use secure_sudoers_setup.Isolation.Mounts.{
  unshare_namespaces, make_root_private, apply_private_mounts, apply_blocked_paths,
  apply_readonly_mounts,
}

module _ (m : Machine) where
  unfoldable pub setup_isolation : IsolationSettings → List Text → Step History Error (Unit {0})
  setup_isolation settings blocked_paths = do
    unshare_namespaces m settings
    make_root_private m
    apply_private_mounts m settings.private_mounts
    apply_blocked_paths m blocked_paths
    apply_readonly_mounts m settings.readonly_mounts
