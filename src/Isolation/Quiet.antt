-- ===== src/Isolation/Quiet.antt =====
-- About the walk over a path (isolation/path_guard.rs): the calls that it makes.
use secure_sudoers_setup.Base.{
  ℕ, Bool, true, false, not, ◌&&◌, ◌||◌, List, [], ◌∷◌, Result, ok, err, ◌≡◌, inl, inr, Bool-cases,
  if◌then◌else◌, is_empty,
}
use secure_sudoers_setup.Text.{Text, lit, has_char}
use secure_sudoers_setup.Error.{IoError, io_context}
use secure_sudoers_setup.Path.{Component, component_text, components, is_absolute, needs_separator}
use secure_sudoers_setup.Fs.{Fd}
use secure_sudoers_setup.Models.Validate.{is_not_found}
use secure_sudoers_setup.Steps.{Step, attempt, or_error}
use secure_sudoers_setup.Calls.{
  Call, History, Machine, open_root, openat, create, mkdirat, fstat, call, stat_of,
}
use secure_sudoers_setup.Calls.Selected.{
  Quiet-refl, Quiet-call, Unselected, bind-Unselected, or_error-Unselected, attempt-Unselected,
}
use secure_sudoers_setup.Isolation.Guard.{
  fstat_for_fd, made, has_code, reopen_failure, make_and_open, mask_file_failure, mask_dir_failure,
  make_component, opened, traverse, safe_traverse, ensure_path_matches_fd_with_stat, without_root,
  is_already_exists, same_file, is_link,
}

-- A kind of calls that the walk does not make.
pub record IsForeign (p : Call → Bool) : Type 0 where
  pub no_open_root : p open_root ≡ false
  pub no_openat : (fd : Fd) (name : Text) → p (openat fd name) ≡ false
  pub no_create : (fd : Fd) (name : Text) → p (create fd name) ≡ false
  pub no_mkdirat : (fd : Fd) (name : Text) → p (mkdirat fd name) ≡ false
  pub no_fstat : (fd : Fd) → p (fstat fd) ≡ false

module _ (m : Machine) (p : Call → Bool) (foreign : IsForeign p) where
  abbrev U : {E A : Type 0} → History → Result E A × History → Type 0
  U h q = Unselected p h q

  pub fstat_for_fd-Unselected :
      (fd : Fd) (path : Text) (h : History) → U h (fstat_for_fd m fd path h)
  unfolding fstat_for_fd
  fstat_for_fd-Unselected fd path h =
      or_error-Unselected p _ (stat_of m fd) h (Quiet-call p h (fstat fd) (foreign.no_fstat fd))

  if-Unselected :
      {E A : Type 0} (b : Bool) (x y : Step History E A) (h : History)
      → U h (x h)
      → U h (y h)
      → U h ((if b then x else y) h)
  if-Unselected true x y h u v = u
  if-Unselected false x y h u v = v

  made-Unselected : (context : Text) (r : Result IoError ℕ) (g : History) → U g (made m context r g)
  made-Unselected context (ok n) g = Quiet-refl p g
  made-Unselected context (err e) g =
      if-Unselected (is_already_exists e.kind) _ _ g (Quiet-refl p g) (Quiet-refl p g)

  make_component-Unselected :
      (path : Text) (current : Fd) (name : Text) (is_file : Bool) (h : History)
      → U h (make_component m path current name is_file h)
  unfolding make_component
  make_component-Unselected path current name is_file h =
      if-Unselected is_file _ _ h
        (attempt-Unselected p (call m (create current name)) (made m (mask_file_failure path)) h
          (Quiet-call p h (create current name) (foreign.no_create current name))
          (made-Unselected (mask_file_failure path)))
        (attempt-Unselected p (call m (mkdirat current name)) (made m (mask_dir_failure path)) h
          (Quiet-call p h (mkdirat current name) (foreign.no_mkdirat current name))
          (made-Unselected (mask_dir_failure path)))

  make_and_open-Unselected :
      (path : Text) (current : Fd) (name : Text) (is_file : Bool) (h : History)
      → U h (make_and_open m path current name is_file h)
  unfolding make_and_open
  make_and_open-Unselected path current name is_file h =
      bind-Unselected p (make_component m path current name is_file)
        (λ made. or_error (reopen_failure path name) (call m (openat current name))) h
        (make_component-Unselected path current name is_file h)
        λ made g.
          or_error-Unselected p (reopen_failure path name) (call m (openat current name)) g
            (Quiet-call p g (openat current name) (foreign.no_openat current name))

  opened-Unselected :
      (path : Text) (current : Fd) (name : Text) (create_missing is_file : Bool)
      (r : Result IoError ℕ) (h : History)
      → U h (opened m path current name create_missing is_file r h)
  opened-Unselected path current name create_missing is_file (ok next) h =
      bind-Unselected p (or_error _ (stat_of m next)) _ h
        (or_error-Unselected p _ (stat_of m next) h
          (Quiet-call p h (fstat next) (foreign.no_fstat next)))
        λ st g. if-Unselected (is_link st) _ _ g (Quiet-refl p g) (Quiet-refl p g)
  opened-Unselected path current name create_missing is_file (err e) h =
      elim (Bool-cases (has_code 40 e.raw_os_error)) [
        | inl is_loop ↦ rw is_loop (Quiet-refl p h)
        | inr other ↦
            rw other (elim (Bool-cases (not (is_not_found e.kind) || not create_missing)) [
              | inl failed ↦ rw failed (Quiet-refl p h)
              | inr missing ↦ rw missing (make_and_open-Unselected path current name is_file h)
            ])
      ]

  traverse-Unselected :
      (path : Text) (create_missing : Bool) (cs : List Component) (current : Fd) (h : History)
      → U h (traverse m path create_missing current cs h)
  unfolding traverse
  traverse-Unselected path create_missing [] current h = Quiet-refl p h
  traverse-Unselected path create_missing (c ∷ cs) current h =
      if-Unselected (has_char 0 (component_text c)) _ _ h (Quiet-refl p h) (
        bind-Unselected p
          (attempt (call m (openat current (component_text c))) (
            opened m path current (component_text c) create_missing
              (is_empty cs && needs_separator path)))
          (λ next. traverse m path create_missing next cs) h
          (attempt-Unselected p (call m (openat current (component_text c)))
            (opened m path current (component_text c) create_missing
              (is_empty cs && needs_separator path))
            h
            (Quiet-call p h (openat current (component_text c))
              (foreign.no_openat current (component_text c)))
            λ r g.
              opened-Unselected path current (component_text c) create_missing
                (is_empty cs && needs_separator path) r g)
          λ next g. traverse-Unselected path create_missing cs next g)

  pub safe_traverse-Unselected :
      (path : Text) (create_missing : Bool) (h : History)
      → U h (safe_traverse m path create_missing h)
  unfolding safe_traverse
  safe_traverse-Unselected path create_missing h =
      if-Unselected (not (is_absolute path)) _ _ h (Quiet-refl p h) (
        bind-Unselected p
          (or_error (io_context (lit "Security failure: cannot open root")) (call m open_root))
          (λ root. traverse m path create_missing root (without_root (components path))) h
          (or_error-Unselected p (io_context (lit "Security failure: cannot open root"))
            (call m open_root) h (Quiet-call p h open_root foreign.no_open_root))
          λ root g. traverse-Unselected path create_missing _ root g)

  pub ensure_with_stat-Unselected :
      (path : Text) (fd : Fd) (h : History) → U h (ensure_path_matches_fd_with_stat m path fd h)
  unfolding ensure_path_matches_fd_with_stat
  ensure_with_stat-Unselected path fd h =
      bind-Unselected p (safe_traverse m path false) _ h (safe_traverse-Unselected path false h)
        λ current g.
          bind-Unselected p (fstat_for_fd m fd path) _ g (fstat_for_fd-Unselected fd path g)
            λ expected k.
              bind-Unselected p (fstat_for_fd m current path) _ k
                (fstat_for_fd-Unselected current path k)
                λ found l.
                  if-Unselected (not (same_file expected found)) _ _ l (Quiet-refl p l)
                    (Quiet-refl p l)
