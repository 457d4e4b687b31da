-- ===== src/Isolation/Ordered.antt =====
-- About `setup_isolation` (isolation.rs): the mounts of a run that succeeds, in their order.
use secure_sudoers_setup.Base.{List, [], ◌∷◌, ◌++◌}
use secure_sudoers_setup.Text.{Text}
use secure_sudoers_setup.Error.{Error}
use secure_sudoers_setup.Models.{IsolationSettings}
use secure_sudoers_setup.Calls.{History, Machine, mount, unshare}
use secure_sudoers_setup.Isolation.Mounts.{root_private, namespaces_of}
use secure_sudoers_setup.Isolation.Mounted.{Each, IsMountedAt, IsPrivate, IsShadowed, IsReadonly}

-- The namespaces are left and, as the next call, the root is made private; then come the private
-- directories, the blocked paths and the read-only ones.
pub data IsInOrder (m : Machine) (settings : IsolationSettings) (blocked_paths : List Text)
    (h t : History) : History → Type 0 where
  in_order :
      {private shadowed readonly : History}
      → IsMountedAt (h ++ unshare (namespaces_of settings) ∷ []) root_private t
      → Each (IsPrivate m t) settings.private_mounts private
      → Each (IsShadowed m t) blocked_paths shadowed
      → Each (IsReadonly m t) settings.readonly_mounts readonly
      → IsInOrder m settings blocked_paths h t
          ((mount root_private ∷ private) ++ (shadowed ++ readonly))
