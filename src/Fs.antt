-- ===== src/Fs.antt =====
-- `crates/secure-sudoers-common/src/fs.rs`: resolving a path component by component over
-- descriptors. The kernel is a parameter: the answers of `open`, `openat`, `fstat`, `readlinkat`
-- and of the magic links in `/proc/self/fd`, for one state of the file system. Changes that other
-- processes make between two calls are not modelled.
pub mod Blocked
use secure_sudoers_setup.Base.{
  ℕ, zero, suc, Bool, true, false, List, [], ◌∷◌, ◌++◌, Option, none, some, Result, ok, err, ◌>>=◌,
  map_err, if◌then◌else◌, ◌==◌, ◌||◌, length,
}
use secure_sudoers_setup.Text.{Text, lit, has_char, show}
use secure_sudoers_setup.Error.{Error, IoError, io_context, validation, security, parse, system}
use secure_sudoers_setup.Path.{
  Component, root_dir, cur_dir, parent_dir, normal, components, is_absolute, path_starts_with,
  skip_first, below_root, pop, render, push_path, push_all, dot_dot,
}

abbrev pub Fd : Type 0
Fd = ℕ

pub record FileSystem : Type 0 where
  -- `open("/", O_PATH | O_DIRECTORY | O_CLOEXEC)`
  pub open_root : Result IoError Fd
  -- `openat(fd, name, O_PATH | O_NOFOLLOW | O_CLOEXEC)`
  pub openat : Fd → Text → Result IoError Fd
  -- `fstat` succeeds and says `S_IFLNK`
  pub is_symlink : Fd → Bool
  -- the bytes that `readlinkat(fd, "", buf, PATH_MAX)` writes
  pub readlinkat : Fd → Result IoError (List ℕ)
  -- `std::str::from_utf8`
  pub from_utf8 : List ℕ → Option Text
  -- `read_link("/proc/self/fd/{fd}")`
  pub proc_fd_link : Fd → Result IoError Text

pub record SecurePath : Type 0 where
  pub path : Text
  pub fd : Fd

pub data ValidationContext : Type 0 where
  positional delimited_positional : ValidationContext
  flag : Text → ValidationContext

abbrev pub max_symlink_depth : ℕ
max_symlink_depth = 32

abbrev path_max : ℕ
path_max = 4096

unfoldable pub is_blocked : List Component → List Text → Bool
is_blocked cp [] = false
is_blocked cp (b ∷ bs) = path_starts_with cp (components b) || is_blocked cp bs

-- Equal paths begin with one another, so the source's `cp == bp` adds nothing to `starts_with`.
unfoldable pub check_blocked : List Text → List Text → Result Error (Unit {0})
unfolding is_blocked
check_blocked canonical blocked_paths =
    if is_blocked (below_root canonical) blocked_paths
    then err
        (validation (lit "Access to blocked path '" ++ (render canonical ++ lit "' is denied")))
    else ok tt

abbrev decode_link : Option Text → Result Error Text
decode_link none = err (parse (lit "Invalid UTF-8 in symlink"))
decode_link (some t) = ok t

abbrev checked_length : List ℕ → Result Error (List ℕ)
checked_length bytes =
    if length bytes == path_max then err (security (lit "Symlink target too long")) else ok bytes

abbrev open_failure : Text → Text → Text
open_failure name path =
    lit "Security failure: cannot open component '" ++ (name ++ (lit "' of '" ++ (path ++ lit "'")))

abbrev magic_link_failure : Fd → Text
magic_link_failure fd =
    lit "Security failure: cannot read magic symlink '"
    ++ (lit "/proc/self/fd/" ++ (show fd ++ lit "' to get canonical path"))

abbrev too_many_symlinks : Error
too_many_symlinks = security (lit "Security failure: too many symlinks")

-- The path that is resolved in place of one that ends in a link, `rest` behind it.
unfoldable pub redirect : List Text → Text → List Component → Text
unfolding push_path push_all render
redirect canonical target rest =
    push_all (if is_absolute target then target else push_path (render canonical) target) rest

module _ (fs : FileSystem) where
  open_root : Result Error Fd
  open_root = map_err (io_context (lit "Cannot open root")) fs.open_root

  read_link_from_fd : Fd → Result Error Text
  read_link_from_fd link = do
    bytes ← map_err (io_context (lit "readlinkat on opened symlink failed")) (fs.readlinkat link)
    short ← checked_length bytes
    decode_link (fs.from_utf8 short)

  -- `CString::new` and `openat` on one component of `path`.
  open_component : Text → Fd → Text → Result Error Fd
  open_component path fd name =
      if has_char 0 name
      then err (system (lit "Nul byte in component"))
      else map_err (io_context (open_failure name path)) (fs.openat fd name)

  finish : Fd → Result Error SecurePath
  finish fd = do
    path ← map_err (io_context (magic_link_failure fd)) (fs.proc_fd_link fd)
    ok (record { path = path; fd = fd })

  -- The loop of `resolve_securely` over the components of `path`. The first argument is what
  -- is left of `MAX_SYMLINK_DEPTH`; a link starts over at the root with the redirected path.
  walk : ℕ → Text → Fd → List Text → List Component → List Text → Result Error SecurePath
  walk left path fd canonical [] blocked_paths = finish fd
  walk left path fd canonical (root_dir ∷ rest) blocked_paths =
      walk left path fd canonical rest blocked_paths
  walk left path fd canonical (cur_dir ∷ rest) blocked_paths =
      walk left path fd canonical rest blocked_paths
  walk left path fd canonical (parent_dir ∷ rest) blocked_paths = do
    next ← open_component path fd dot_dot
    allowed ← check_blocked (pop canonical) blocked_paths
    walk left path next (pop canonical) rest blocked_paths
  walk zero path fd canonical (normal name ∷ rest) blocked_paths = do
    next ← open_component path fd name
    elim (fs.is_symlink next) [
      | true ↦ err too_many_symlinks
      | false ↦ do
        allowed ← check_blocked (canonical ++ name ∷ []) blocked_paths
        walk zero path next (canonical ++ name ∷ []) rest blocked_paths
    ]
  walk (suc left) path fd canonical (normal name ∷ rest) blocked_paths = do
    next ← open_component path fd name
    elim (fs.is_symlink next) [
      | true ↦ do
        target ← read_link_from_fd next
        let new_path = redirect canonical target rest
        root ← open_root
        walk left new_path root [] (skip_first (components new_path)) blocked_paths
      | false ↦ do
        allowed ← check_blocked (canonical ++ name ∷ []) blocked_paths
        walk (suc left) path next (canonical ++ name ∷ []) rest blocked_paths
    ]

  resolve_securely : Text → List Text → ℕ → Result Error SecurePath
  unfolding walk open_component finish open_root read_link_from_fd
  resolve_securely path blocked_paths left = do
    root ← open_root
    walk left path root [] (skip_first (components path)) blocked_paths

  unfoldable pub check_path : Text → ValidationContext → List Text → Result Error SecurePath
  unfolding resolve_securely
  check_path arg context blocked_paths =
      if is_absolute arg
      then resolve_securely arg blocked_paths max_symlink_depth
      else err (security (lit "Security failure: path must be absolute: " ++ arg))
