-- ===== src/Fs/Blocked.antt =====
-- About `check_path` and `resolve_securely` (fs.rs): blocked paths, and a path against its descriptor.
use secure_sudoers_setup.Base.{
  ℕ, zero, suc, false, List, [], ◌∷◌, ◌++◌, ◌≡◌, ◌⊎◌, inl, inr, refl, ok, All, arith, Bool-cases,
  >>=-eq-ok, map_err-eq-ok, ap, ◌∙◌,
}
use secure_sudoers_setup.Text.{Text, has_char}
use secure_sudoers_setup.Error.{io_context}
use secure_sudoers_setup.Path.{
  Component, root_dir, cur_dir, parent_dir, normal, components, path_starts_with, skip_first,
  below_root, pop, dot_dot, is_absolute,
}
use secure_sudoers_setup.Path.Laws.{IsClean, components-IsClean, skip_first-IsClean}
use secure_sudoers_setup.Fs.{
  Fd, FileSystem, SecurePath, ValidationContext, is_blocked, check_blocked, open_component,
  open_failure, finish, walk, open_root, read_link_from_fd, redirect, resolve_securely, check_path,
  max_symlink_depth,
}

-- Descriptors stand for the directories and files that the kernel's own paths name: the root, a
-- child that is no link, the parent by `..`; the magic link shows that path.
pub record Tracks (fs : FileSystem) (path_of : Fd → List Text) : Type 0 where
  pub at_root : (fd : Fd) → fs.open_root ≡ ok fd → path_of fd ≡ []
  pub child :
      (fd : Fd) (name : Text) (next : Fd)
      → fs.openat fd name ≡ ok next
      → fs.is_symlink next ≡ false
      → IsClean (normal name)
      → path_of next ≡ path_of fd ++ name ∷ []
  pub parent : (fd next : Fd) → fs.openat fd dot_dot ≡ ok next → path_of next ≡ pop (path_of fd)
  pub shown :
      (fd : Fd) (t : Text) → fs.proc_fd_link fd ≡ ok t → components t ≡ below_root (path_of fd)

-- Below none of the blocked paths.
abbrev pub IsOutside : List Text → List Component → Type 0
IsOutside blocked_paths cp = All (λ b. path_starts_with cp (components b) ≡ false) blocked_paths

is_blocked-IsOutside :
    (cp : List Component) (blocked_paths : List Text)
    → is_blocked cp blocked_paths ≡ false
    → IsOutside blocked_paths cp
unfolding is_blocked
is_blocked-IsOutside cp [] h = tt
is_blocked-IsOutside cp (b ∷ bs) h = ground (arith, is_blocked-IsOutside cp bs)

check_blocked-IsOutside :
    (canonical blocked_paths : List Text)
    → check_blocked canonical blocked_paths ≡ ok tt
    → IsOutside blocked_paths (below_root canonical)
unfolding check_blocked
check_blocked-IsOutside canonical blocked_paths h =
    is_blocked-IsOutside _ blocked_paths (ground arith)

module _ (fs : FileSystem) (path_of : Fd → List Text) (tracks : Tracks fs path_of) where
  -- At the root, or outside all blocked paths.
  abbrev IsAllowed : List Text → List Text → Type 0
  IsAllowed blocked_paths names = (names ≡ []) ⊎ IsOutside blocked_paths (below_root names)

  abbrev IsGood : List Text → SecurePath → Type 0
  IsGood blocked_paths sp =
      (components sp.path ≡ below_root (path_of sp.fd)) × IsAllowed blocked_paths (path_of sp.fd)

  opened_by :
      (path : Text) (fd : Fd) (name : Text) (next : Fd)
      → open_component fs path fd name ≡ ok next
      → fs.openat fd name ≡ ok next
  unfolding open_component
  opened_by path fd name next h = elim (Bool-cases (has_char 0 name)) [
    | inl e ↦ cc
    | inr e ↦ map_err-eq-ok (io_context (open_failure name path)) (fs.openat fd name) (rw e at h)
  ]

  finish-IsGood :
      (fd : Fd) (blocked_paths : List Text) (sp : SecurePath)
      → finish fs fd ≡ ok sp
      → IsAllowed blocked_paths (path_of fd)
      → IsGood blocked_paths sp
  unfolding finish
  finish-IsGood fd blocked_paths sp h a =
      let (path, shown, made) = >>=-eq-ok _ _ h in
      let e : record { path = path; fd = fd } ≡ sp = cc in
      rw (← e) (tracks.shown fd path (map_err-eq-ok _ (fs.proc_fd_link fd) shown), a)

  root-path : (root : Fd) → open_root fs ≡ ok root → path_of root ≡ []
  unfolding open_root
  root-path root h = tracks.at_root root (map_err-eq-ok _ fs.open_root h)

  child-path :
      (path : Text) (fd : Fd) (name : Text) (next : Fd) (canonical : List Text)
      → path_of fd ≡ canonical
      → open_component fs path fd name ≡ ok next
      → fs.is_symlink next ≡ false
      → IsClean (normal name)
      → path_of next ≡ canonical ++ name ∷ []
  child-path path fd name next canonical e opened plain clean =
      tracks.child fd name next (opened_by path fd name next opened) plain clean
      ∙ ap (λ c. c ++ name ∷ []) e

  walk-IsGood :
      (left : ℕ) (path : Text) (fd : Fd) (canonical : List Text) (cs : List Component)
      (blocked_paths : List Text) (sp : SecurePath)
      → walk fs left path fd canonical cs blocked_paths ≡ ok sp
      → path_of fd ≡ canonical
      → IsAllowed blocked_paths canonical
      → All IsClean cs
      → IsGood blocked_paths sp
  unfolding walk
  walk-IsGood left path fd canonical [] bs sp h e a cl = finish-IsGood fd bs sp h (rw e a)
  walk-IsGood left path fd canonical (root_dir ∷ cs) bs sp h e a cl =
      walk-IsGood left path fd canonical cs bs sp h e a cl.1
  walk-IsGood left path fd canonical (cur_dir ∷ cs) bs sp h e a cl =
      walk-IsGood left path fd canonical cs bs sp h e a cl.1
  walk-IsGood left path fd canonical (parent_dir ∷ cs) bs sp h e a cl =
      let (next, opened, h') = >>=-eq-ok _ _ h in
      let (_, checked, h'') = >>=-eq-ok _ _ h' in
      walk-IsGood left path next (pop canonical) cs bs sp h''
        (tracks.parent fd next (opened_by path fd dot_dot next opened) ∙ ap pop e)
        (inr (check_blocked-IsOutside _ _ checked)) cl.1
  walk-IsGood zero path fd canonical (normal name ∷ cs) bs sp h e a cl =
      let (next, opened, h') = >>=-eq-ok (open_component fs path fd name) _ h in
      elim (Bool-cases (fs.is_symlink next)) [
        | inl link ↦ let never = rw link at h' in cc
        | inr plain ↦
            let (_, checked, h'') = >>=-eq-ok _ _ (rw plain at h') in
            walk-IsGood zero path next (canonical ++ name ∷ []) cs bs sp h''
              (child-path path fd name next canonical e opened plain cl.0)
              (inr (check_blocked-IsOutside _ _ checked)) cl.1
      ]
  walk-IsGood (suc left) path fd canonical (normal name ∷ cs) bs sp h e a cl =
      let (next, opened, h') = >>=-eq-ok (open_component fs path fd name) _ h in
      elim (Bool-cases (fs.is_symlink next)) [
        | inl link ↦
            let (target, read, h1) = >>=-eq-ok (read_link_from_fd fs next) _ (rw link at h') in
            let (root, rooted, h2) = >>=-eq-ok (open_root fs) _ h1 in
            walk-IsGood left (redirect canonical target cs) root []
              (skip_first (components (redirect canonical target cs))) bs sp h2
              (root-path root rooted) (inl refl)
              (skip_first-IsClean _ (components-IsClean (redirect canonical target cs)))
        | inr plain ↦
            let (_, checked, h'') = >>=-eq-ok _ _ (rw plain at h') in
            walk-IsGood (suc left) path next (canonical ++ name ∷ []) cs bs sp h''
              (child-path path fd name next canonical e opened plain cl.0)
              (inr (check_blocked-IsOutside _ _ checked)) cl.1
      ]

  resolve-IsGood :
      (path : Text) (blocked_paths : List Text) (sp : SecurePath)
      → resolve_securely fs path blocked_paths max_symlink_depth ≡ ok sp
      → IsGood blocked_paths sp
  unfolding resolve_securely
  resolve-IsGood path blocked_paths sp h =
      let (root, rooted, h') = >>=-eq-ok _ _ h in
      walk-IsGood max_symlink_depth path root [] (skip_first (components path)) blocked_paths sp h'
        (root-path root rooted) (inl refl) (skip_first-IsClean _ (components-IsClean path))

  -- Where descriptors and magic links agree with the paths that they stand for, a path that
  -- `check_path` returns is absolute, is the path of the returned descriptor, and lies
  -- below no blocked path, unless it is the root itself.
  pub check_path-IsOutside :
      (arg : Text) (context : ValidationContext) (blocked_paths : List Text) (sp : SecurePath)
      → check_path fs arg context blocked_paths ≡ ok sp
      → (components sp.path ≡ below_root (path_of sp.fd))
        × ((path_of sp.fd ≡ []) ⊎ IsOutside blocked_paths (components sp.path))
  unfolding check_path
  check_path-IsOutside arg context blocked_paths sp h = elim (Bool-cases (is_absolute arg)) [
    | inl absolute ↦
        let (shown, allowed) = resolve-IsGood arg blocked_paths sp (rw absolute at h) in
        (shown, rw shown allowed)
    | inr relative ↦ let never = rw relative at h in cc
  ]
