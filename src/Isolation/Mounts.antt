-- ===== src/Isolation/Mounts.antt =====
-- `crates/secure-sudoers/src/isolation/mounts.rs`.
use secure_sudoers_setup.Base.{Bool, true, false, not, List, [], ◌∷◌, none, some, if◌then◌else◌}
use secure_sudoers_setup.Text.{Text, lit}
use secure_sudoers_setup.Error.{Error, io, io_context, security}
use secure_sudoers_setup.Fs.{Fd}
use secure_sudoers_setup.Models.{IsolationSettings}
use secure_sudoers_setup.Models.Validate.{concat}
use secure_sudoers_setup.Steps.{Step, ◌>>=◌, ◌>>◌, pure, fail, or_error}
use secure_sudoers_setup.Calls.{
  Machine, History, Mount, ms_bind, ms_rec, ms_private, ms_remount, ms_rdonly, Namespace, newns,
  newnet, newpid, newipc, newuts, mount, unshare, call,
}
use secure_sudoers_setup.Isolation.Guard.{
  proc_fd_path, is_dir, same_file, fstat_for_fd, safe_traverse, ensure_path_matches_fd,
  ensure_path_matches_fd_with_stat,
}

-- `tmpfs` on a descriptor.
abbrev pub tmpfs_at : Fd → Mount
tmpfs_at fd = record {
  source = some (lit "tmpfs");
  target = proc_fd_path fd;
  fstype = some (lit "tmpfs");
  flags = [];
}

-- `/dev/null` on a descriptor.
abbrev pub null_at : Fd → Mount
null_at fd = record {
  source = some (lit "/dev/null");
  target = proc_fd_path fd;
  fstype = none;
  flags = ms_bind ∷ [];
}

-- A descriptor on itself.
abbrev pub self_bind : Fd → Mount
self_bind fd = record {
  source = some (proc_fd_path fd);
  target = proc_fd_path fd;
  fstype = none;
  flags = ms_bind ∷ [];
}

abbrev pub parent_bind : Fd → Mount
parent_bind fd = record (self_bind fd) { flags = ms_bind ∷ ms_rec ∷ [] }

abbrev pub readonly_at : Fd → Mount
readonly_at fd = record {
  source = none;
  target = proc_fd_path fd;
  fstype = none;
  flags = ms_remount ∷ ms_bind ∷ ms_rdonly ∷ [];
}

abbrev pub root_private : Mount
root_private = record {
  source = none;
  target = lit "/";
  fstype = none;
  flags = ms_private ∷ ms_rec ∷ [];
}

abbrev pub when : Bool → Namespace → List Namespace → List Namespace
when true n ns = n ∷ ns
when false n ns = ns

abbrev pub namespaces_of : IsolationSettings → List Namespace
namespaces_of settings =
    newns
    ∷ when settings.unshare_network newnet (
        when settings.unshare_pid newpid
          (when settings.unshare_ipc newipc (when settings.unshare_uts newuts [])))

abbrev failure_on : Text → Text → Text → Text
failure_on before path after = concat (before ∷ path ∷ after ∷ [])

module _ (m : Machine) where
  -- The flags in the text of the error are left out.
  unfoldable pub unshare_namespaces : IsolationSettings → Step History Error (Unit {0})
  unshare_namespaces settings =
      or_error (io_context (lit "unshare failed")) (call m (unshare (namespaces_of settings)))
      >>= (λ n. pure tt)

  unfoldable pub make_root_private : Step History Error (Unit {0})
  make_root_private =
      or_error (io_context (lit "remount '/' as MS_PRIVATE|MS_REC failed"))
        (call m (mount root_private))
      >>= (λ n. pure tt)

  unfoldable pub mount_shadow_fd : Fd → Text → Step History Error (Unit {0})
  mount_shadow_fd fd path = do
    st ← fstat_for_fd m fd path
    current ← ensure_path_matches_fd_with_stat m path fd
    if is_dir st
        then or_error
            (io_context (
              failure_on (lit "Security failure: tmpfs mount on blocked dir '") path
                (lit "' failed")))
            (call m (mount (tmpfs_at fd)))
          >>= (λ n. pure tt)
        else or_error
            (io_context (
              failure_on (lit "Security failure: bind mount /dev/null on blocked file '") path
                (lit "' failed")))
            (call m (mount (null_at fd)))
          >>= (λ n. pure tt)

  unfoldable pub mount_blocked : Text → Step History Error (Unit {0})
  unfolding mount_shadow_fd
  mount_blocked path = safe_traverse m path true >>= (λ fd. mount_shadow_fd fd path)

  unfoldable pub apply_blocked_paths : List Text → Step History Error (Unit {0})
  unfolding mount_blocked
  apply_blocked_paths [] = pure tt
  apply_blocked_paths (path ∷ paths) = mount_blocked path >> apply_blocked_paths paths

  unfoldable pub mount_private : Text → Step History Error (Unit {0})
  mount_private path = do
    fd ← safe_traverse m path false
    current ← ensure_path_matches_fd_with_stat m path fd
    or_error io (call m (mount (tmpfs_at fd))) >>= (λ n. pure tt)

  unfoldable pub apply_private_mounts : List Text → Step History Error (Unit {0})
  unfolding mount_private
  apply_private_mounts [] = pure tt
  apply_private_mounts (path ∷ paths) = mount_private path >> apply_private_mounts paths

  abbrev changed : Text → Error
  changed path =
      security (
        failure_on (lit "Security failure: path '") path (lit "' changed between bind and remount"))

  unfoldable pub mount_readonly : Text → Step History Error (Unit {0})
  mount_readonly path = do
    fd ← safe_traverse m path false
    initial_stat ← ensure_path_matches_fd_with_stat m path fd
    bound ← or_error io (call m (mount (self_bind fd)))
    remount_fd ← safe_traverse m path false
    remount_stat ← ensure_path_matches_fd_with_stat m path remount_fd
    if not (same_file initial_stat remount_stat)
        then fail (changed path)
        else or_error io (call m (mount (readonly_at remount_fd))) >>= (λ n. pure tt)

  unfoldable pub apply_readonly_mounts : List Text → Step History Error (Unit {0})
  unfolding mount_readonly
  apply_readonly_mounts [] = pure tt
  apply_readonly_mounts (path ∷ paths) = mount_readonly path >> apply_readonly_mounts paths

  unfoldable pub pin_validated_path_parent : Text → Step History Error (Unit {0})
  pin_validated_path_parent path = do
    fd ← safe_traverse m path false
    or_error
          (io_context (
            failure_on (lit "Security failure: parent mountpoint lock failed for '") path
              (lit "'")))
          (call m (mount (parent_bind fd)))
        >>= (λ n. pure tt)

  abbrev moved : Text → Error
  moved path = security (
      failure_on (lit "Security failure: path '") path
        (lit "' no longer matches the validated argument"))

  unfoldable pub pin_path_at_fd : Fd → Text → Step History Error (Unit {0})
  pin_path_at_fd fd path = do
    source_stat ← fstat_for_fd m fd path
    target_fd ← safe_traverse m path false
    target_stat ← fstat_for_fd m target_fd path
    same ← if not (same_file source_stat target_stat) then fail (moved path) else pure tt
    bound ←
        or_error
          (io_context
            (failure_on (lit "Security failure: bind-mount pinning failed for '") path (lit "'")))
          (call m (mount (self_bind target_fd)))
    ensure_path_matches_fd m path fd
