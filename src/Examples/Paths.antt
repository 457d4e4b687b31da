-- ===== src/Examples/Paths.antt =====
-- A root directory with one entry.
use secure_sudoers_setup.Base.{
  none, false, ◌&&◌, ◌==◌, List, [], ◌∷◌, ok, err, ◌≡◌, ◌⊎◌, inl, inr, refl, arith, Bool-cases,
  if◌then◌else◌,
}
use secure_sudoers_setup.Text.{Text, lit, text_eq, split, has_char}
use secure_sudoers_setup.Text.Laws.{text_eq_iff}
use secure_sudoers_setup.Path.{components, path_starts_with, below_root, pop, dot_dot}
use secure_sudoers_setup.Fs.{
  Fd, FileSystem, SecurePath, positional, check_path, check_blocked, is_blocked,
}
use secure_sudoers_setup.Fs.Blocked.{Tracks, IsOutside, check_path-IsOutside}
use secure_sudoers_setup.Examples.Data.{no_file}

abbrev usr : Text
unfolding lit
usr = lit "usr"

abbrev one_entry : FileSystem
unfolding lit text_eq
one_entry = record {
  open_root = ok 0;
  openat = λ fd name. if fd == 0 && text_eq name (lit "usr") then ok 1 else err no_file;
  is_symlink = λ fd. false;
  readlinkat = λ fd. err no_file;
  from_utf8 = λ bytes. none;
  proc_fd_link = λ fd. if fd == 1 then ok (lit "/usr") else ok (lit "/");
}

abbrev path_of : Fd → List Text
unfolding lit
path_of fd = if fd == 1 then lit "usr" ∷ [] else []

one_entry-Tracks : Tracks one_entry path_of
unfolding lit text_eq pop components split
one_entry-Tracks = record {
  at_root = λ fd h. let same : 0 ≡ fd = cc in rw (← same) refl;
  child = λ fd name next h plain clean. elim (Bool-cases (fd == 0 && text_eq name (lit "usr"))) [
    | inl t ↦
        let h' = rw t at h in
        let next_is : 1 ≡ next = cc in
        let named : name ≡ lit "usr" = (text_eq_iff name (lit "usr")).0 (ground arith) in
        let rooted : fd ≡ 0 = ground arith in rw (← next_is) (rw (rooted, named) refl)
    | inr f ↦ let h' = rw f at h in cc
  ];
  parent = λ fd next h. elim (Bool-cases (fd == 0 && text_eq dot_dot (lit "usr"))) [
    | inl t ↦ ground arith
    | inr f ↦ let h' = rw f at h in cc
  ];
  shown = λ fd t h. elim (Bool-cases (fd == 1)) [
    | inl e ↦ let h' = rw e at h in let same : lit "/usr" ≡ t = cc in rw (← same, e) refl
    | inr e ↦ let h' = rw e at h in let same : lit "/" ≡ t = cc in rw (← same, e) refl
  ];
}

abbrev blocked : List Text
unfolding lit
blocked = lit "/etc/shadow" ∷ []

abbrev found : SecurePath
unfolding lit
found = record { path = lit "/usr"; fd = 1 }

finds : check_path one_entry (lit "/usr") positional blocked ≡ ok found
unfolding lit text_eq check_path components split check_blocked is_blocked has_char path_starts_with
finds = refl

check_path-IsOutside_example :
    (components found.path ≡ below_root (path_of found.fd))
    × ((path_of found.fd ≡ []) ⊎ IsOutside blocked (components found.path))
check_path-IsOutside_example =
    check_path-IsOutside one_entry path_of one_entry-Tracks (lit "/usr") positional blocked found
      finds
