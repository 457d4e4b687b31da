-- ===== src/Isolation/Guard.antt =====
-- `crates/secure-sudoers/src/isolation/path_guard.rs`: walking a path without following a link, and
-- testing that a path still stands for a descriptor. Descriptors that are closed are left out.
use secure_sudoers_setup.Base.{
  ℕ, ◌/◌, ◌%◌, ◌==◌, Bool, true, false, not, ◌&&◌, ◌||◌, List, [], ◌∷◌, ◌++◌, Option, none, some,
  Result, ok, err, if◌then◌else◌, is_empty,
}
use secure_sudoers_setup.Text.{Text, lit, show, has_char}
use secure_sudoers_setup.Error.{
  Error, IoError, ErrorKind, already_exists, io_context, security, validation,
}
use secure_sudoers_setup.Path.{
  Component, root_dir, components, component_text, is_absolute, needs_separator,
}
use secure_sudoers_setup.Fs.{Fd}
use secure_sudoers_setup.Models.Validate.{concat, is_not_found}
use secure_sudoers_setup.Steps.{Step, ◌>>=◌, ◌>>◌, pure, fail, attempt, or_error}
use secure_sudoers_setup.Calls.{
  Machine, History, FileStat, open_root, openat, create, mkdirat, call, stat_of,
}

-- `format!("/proc/self/fd/{fd}")`
abbrev pub proc_fd_path : Fd → Text
proc_fd_path fd = lit "/proc/self/fd/" ++ show fd

abbrev pub is_already_exists : ErrorKind → Bool
is_already_exists already_exists = true
is_already_exists _ = false

-- `mode & S_IFMT == S_IFLNK`
abbrev pub is_link : FileStat → Bool
is_link st = st.st_mode / 4096 % 16 == 10

-- `mode & S_IFMT == S_IFDIR`
abbrev pub is_dir : FileStat → Bool
is_dir st = st.st_mode / 4096 % 16 == 4

-- The same device and inode.
abbrev pub same_file : FileStat → FileStat → Bool
same_file a b = a.dev == b.dev && a.ino == b.ino

abbrev pub has_code : ℕ → Option ℕ → Bool
has_code n none = false
has_code n (some code) = code == n

-- `path.components()` without the root
abbrev pub without_root : List Component → List Component
without_root (root_dir ∷ cs) = cs
without_root cs = cs

abbrev link_failure : Text → Text → Error
link_failure path name = security (
    concat (
      lit "Security failure: symlink detected during traversal of '"
      ∷ path
      ∷ lit "' at '"
      ∷ name
      ∷ lit "'"
      ∷ []))

abbrev named : Text → Text → Text → Text → Text
named before name between path = concat (before ∷ name ∷ between ∷ path ∷ lit "'" ∷ [])

abbrev pub mask_file_failure : Text → Text
mask_file_failure path =
    concat (lit "Security failure: cannot create mask file '" ∷ path ∷ lit "'" ∷ [])

abbrev pub mask_dir_failure : Text → Text
mask_dir_failure path =
    concat (lit "Security failure: cannot create mask dir '" ∷ path ∷ lit "'" ∷ [])

abbrev pub reopen_failure : Text → Text → IoError → Error
reopen_failure path name e =
    io_context
      (concat (
        lit "Security failure: cannot open component '"
        ∷ name
        ∷ lit "' of '"
        ∷ path
        ∷ lit "' after creation"
        ∷ []))
      e

module _ (m : Machine) where
  unfoldable pub fstat_for_fd : Fd → Text → Step History Error FileStat
  fstat_for_fd fd context_path =
      or_error (io_context (concat (lit "fstat failed on '" ∷ context_path ∷ lit "'" ∷ [])))
        (stat_of m fd)

  -- A component that is there.
  abbrev pub checked : Text → Text → Fd → FileStat → Step History Error Fd
  checked path name fd st = if is_link st then fail (link_failure path name) else pure fd

  abbrev pub made : Text → Result IoError ℕ → Step History Error (Unit {0})
  made context (ok n) = pure tt
  made context (err e) = if is_already_exists e.kind then pure tt else fail (io_context context e)

  -- A missing component is made: a file if it is the last one, and a directory if not.
  unfoldable pub make_component : Text → Fd → Text → Bool → Step History Error (Unit {0})
  make_component path current name is_file =
      if is_file
      then attempt (call m (create current name)) (made (mask_file_failure path))
      else attempt (call m (mkdirat current name)) (made (mask_dir_failure path))

  -- What was made is opened; it is not tested for a link.
  unfoldable pub make_and_open : Text → Fd → Text → Bool → Step History Error Fd
  unfolding make_component
  make_and_open path current name is_file =
      make_component path current name is_file
      >> or_error (reopen_failure path name) (call m (openat current name))

  abbrev pub opened : Text → Fd → Text → Bool → Bool → Result IoError ℕ → Step History Error Fd
  opened path current name create_missing is_file (ok next) = do
    st ←
        or_error
          (io_context
            (named (lit "Security failure: fstat failed on component '") name (lit "' of '") path))
          (stat_of m next)
    checked path name next st
  opened path current name create_missing is_file (err e) =
      if has_code 40 e.raw_os_error
      then fail (link_failure path name)
      else if not (is_not_found e.kind) || not create_missing
      then fail (
          io_context (named (lit "Security failure: error traversing '") path (lit "' at '") name)
            e)
      else make_and_open path current name is_file

  -- The components that are left; a text with a NUL byte is no C string.
  unfoldable pub traverse : Text → Bool → Fd → List Component → Step History Error Fd
  traverse path create_missing current [] = pure current
  traverse path create_missing current (c ∷ cs) =
      let name = component_text c in
      let is_file = is_empty cs && needs_separator path in
      let rest : Fd → Step History Error Fd = λ next. traverse path create_missing next cs in
      if has_char 0 name
      then fail (validation (lit "Nul byte in path component"))
      else attempt (call m (openat current name)) (opened path current name create_missing is_file)
        >>= rest

  unfoldable pub safe_traverse : Text → Bool → Step History Error Fd
  unfolding traverse
  safe_traverse path create_missing =
      if not (is_absolute path)
      then fail
          (security (concat (lit "Security failure: path '" ∷ path ∷ lit "' is not absolute" ∷ [])))
      else or_error (io_context (lit "Security failure: cannot open root")) (call m open_root)
        >>= (λ root. traverse path create_missing root (without_root (components path)))

  abbrev mismatch : Text → Error
  mismatch path = security (
      concat (
        lit "Security failure: path '"
        ∷ path
        ∷ lit "' does not match the expected file descriptor"
        ∷ []))

  unfoldable pub ensure_path_matches_fd_with_stat : Text → Fd → Step History Error FileStat
  ensure_path_matches_fd_with_stat path expected_fd = do
    current_fd ← safe_traverse path false
    expected ← fstat_for_fd expected_fd path
    current ← fstat_for_fd current_fd path
    if not (same_file expected current) then fail (mismatch path) else pure expected

  unfoldable pub ensure_path_matches_fd : Text → Fd → Step History Error (Unit {0})
  ensure_path_matches_fd path expected_fd =
      ensure_path_matches_fd_with_stat path expected_fd >>= (λ st. pure tt)
