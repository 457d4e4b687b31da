-- ===== src/Isolation/Mounted.antt =====
-- About `setup_isolation` (isolation.rs, isolation/mounts.rs).
use secure_sudoers_setup.Base.{
  ℕ, Bool, true, false, List, [], ◌∷◌, ◌++◌, append_assoc, append-nil, Result, ok, err, ◌≡◌, refl,
  ◌∙◌, sym, ap,
}
use secure_sudoers_setup.Text.{Text}
use secure_sudoers_setup.Error.{Error, IoError, io}
use secure_sudoers_setup.Fs.{Fd}
use secure_sudoers_setup.Steps.{
  Step, Post, good, bad, Post-bind, Post-weaken, or_error, renamed, pure, ◌>>=◌, ◌>>◌, continue,
}
use secure_sudoers_setup.Calls.{Call, History, Machine, FileStat, Mount, mount, call}
use secure_sudoers_setup.Calls.Selected.{
  select, select-take, Extends, Extends-refl, Extends-trans, Quiet, Unselected,
}
use secure_sudoers_setup.Isolation.Guard.{
  is_dir, same_file, fstat_for_fd, safe_traverse, ensure_path_matches_fd_with_stat,
}
use secure_sudoers_setup.Isolation.Quiet.{IsForeign}
use secure_sudoers_setup.Isolation.Mounts.{tmpfs_at, null_at, self_bind, readonly_at}

abbrev pub is_mount : Call → Bool
is_mount (mount x) = true
is_mount _ = false

pub is_mount-IsForeign : IsForeign is_mount
is_mount-IsForeign = record {
  no_open_root = refl;
  no_openat = λ fd name. refl;
  no_create = λ fd name. refl;
  no_mkdirat = λ fd name. refl;
  no_fstat = λ fd. refl;
}

-- One list of mounts for each path, in order.
pub data Each (Shape : Text → History → Type 0) : List Text → History → Type 0 where
  none_left : Each Shape [] []
  next :
      {path : Text} {paths : List Text} {first rest : History}
      → Shape path first
      → Each Shape paths rest
      → Each Shape (path ∷ paths) (first ++ rest)

-- What holds of each in a history holds in a later one.
pub Each-later :
    (Shape : History → Text → History → Type 0) (t u : History)
    → ((path : Text) (new : History) → Shape t path new → Shape u path new)
    → {paths : List Text} {new : History} → Each (Shape t) paths new
    → Each (Shape u) paths new
Each-later Shape t u later none_left = none_left
Each-later Shape t u later (next first rest) =
    next (later _ _ first) (Each-later Shape t u later rest)

-- The history begins with this one, and the call that follows it is the mount.
abbrev pub IsMountedAt : History → Mount → History → Type 0
IsMountedAt before x t = Extends (before ++ mount x ∷ []) t

module _ (m : Machine) where
  -- A tmpfs on a file that the walk found, directly behind the test that the path still leads to it.
  pub data IsPrivate (t : History) (path : Text) : History → Type 0 where
    private :
        (h g k : History) (fd : Fd) (st : FileStat)
        → safe_traverse m path false h ≡ (ok fd, g)
        → ensure_path_matches_fd_with_stat m path fd g ≡ (ok st, k)
        → IsMountedAt k (tmpfs_at fd) t
        → IsPrivate t path (mount (tmpfs_at fd) ∷ [])

  -- Directories get a tmpfs, and all else `/dev/null`; the test comes directly before the mount.
  pub data IsShadowed (t : History) (path : Text) : History → Type 0 where
    directory :
        (h g k l : History) (fd : Fd) (st st' : FileStat)
        → safe_traverse m path true h ≡ (ok fd, g)
        → fstat_for_fd m fd path g ≡ (ok st, k)
        → is_dir st ≡ true
        → ensure_path_matches_fd_with_stat m path fd k ≡ (ok st', l)
        → IsMountedAt l (tmpfs_at fd) t
        → IsShadowed t path (mount (tmpfs_at fd) ∷ [])
    file :
        (h g k l : History) (fd : Fd) (st st' : FileStat)
        → safe_traverse m path true h ≡ (ok fd, g)
        → fstat_for_fd m fd path g ≡ (ok st, k)
        → is_dir st ≡ false
        → ensure_path_matches_fd_with_stat m path fd k ≡ (ok st', l)
        → IsMountedAt l (null_at fd) t
        → IsShadowed t path (mount (null_at fd) ∷ [])

  -- A bind mount directly behind a test, then a second walk and a second test, which find the same
  -- file, and directly behind them the remount.
  pub data IsReadonly (t : History) (path : Text) : History → Type 0 where
    readonly :
        (h g k o q : History) (fd again : Fd) (st st' : FileStat)
        → safe_traverse m path false h ≡ (ok fd, g)
        → ensure_path_matches_fd_with_stat m path fd g ≡ (ok st, k)
        → IsMountedAt k (self_bind fd) t
        → safe_traverse m path false (k ++ mount (self_bind fd) ∷ []) ≡ (ok again, o)
        → ensure_path_matches_fd_with_stat m path again o ≡ (ok st', q)
        → same_file st st' ≡ true
        → IsMountedAt q (readonly_at again) t
        → IsReadonly t path (mount (self_bind fd) ∷ mount (readonly_at again) ∷ [])

  pub later-IsPrivate :
      (t u : History)
      → Extends t u
      → (path : Text) (new : History) → IsPrivate t path new
      → IsPrivate u path new
  later-IsPrivate t u x path _ (private h g k fd st a b y) =
      private h g k fd st a b (Extends-trans _ t u y x)

  pub later-IsShadowed :
      (t u : History)
      → Extends t u
      → (path : Text) (new : History) → IsShadowed t path new
      → IsShadowed u path new
  later-IsShadowed t u x path _ (directory h g k l fd st st' a b c d y) =
      directory h g k l fd st st' a b c d (Extends-trans _ t u y x)
  later-IsShadowed t u x path _ (file h g k l fd st st' a b c d y) =
      file h g k l fd st st' a b c d (Extends-trans _ t u y x)

  pub later-IsReadonly :
      (t u : History)
      → Extends t u
      → (path : Text) (new : History) → IsReadonly t path new
      → IsReadonly u path new
  later-IsReadonly t u x path _ (readonly h g k o q fd again st st' a b z c d e y) =
      readonly h g k o q fd again st st' a b (Extends-trans _ t u z x) c d e
        (Extends-trans _ t u y x)

  -- The mounts that are added, if the step succeeds.
  abbrev pub Adds :
      (History → History → Type 0) → History → Result Error (Unit {0}) × History → Type 0
  Adds Shape h =
      Post
        (λ done t.
          (new : History) × (select is_mount t ≡ select is_mount h ++ new)
          × Shape t new
          × Extends h t)
        (λ e t. Unit)

  pub apply-Each :
      (Shape : History → Text → History → Type 0) (one : Text → Step History Error (Unit {0}))
      (all : List Text → Step History Error (Unit {0}))
      → ((t u : History)
          → Extends t u
          → (path : Text) (new : History) → Shape t path new
          → Shape u path new)
      → ((path : Text) (h : History) → Adds (λ t. Shape t path) h (one path h))
      → ((h : History) → all [] h ≡ pure tt h)
      → ((path : Text) (paths : List Text) (h : History)
          → all (path ∷ paths) h ≡ (one path >> all paths) h)
      → (paths : List Text) (h : History) → Adds (λ t. Each (Shape t) paths) h (all paths h)
  apply-Each Shape one all later each stop go [] h =
      rw (stop h) (good ([], sym (append-nil (select is_mount h)), none_left, Extends-refl h))
  apply-Each Shape one all later each stop go (path ∷ paths) h = rw (go path paths h) (
      Post-bind (one path) (λ done. all paths) h (each path h)
        λ done g (first, e, shape, x).
          Post-weaken (all paths g) (apply-Each Shape one all later each stop go paths g)
            (λ done t (rest, f, shapes, y). (
              first ++ rest,
              f ∙ ap (λ (x : History). x ++ rest) e ∙ append_assoc (select is_mount h) first rest,
              next (later g t y path first shape) shapes,
              Extends-trans h g t x y,
            ))
            (λ e t u. tt))

  pub mount_lem :
      (f : IoError → Error) (x : Mount) (h : History)
      → Post
          (λ done t. t ≡ h ++ mount x ∷ [])
          (λ e t. Unit)
          ((or_error f (call m (mount x)) >>= (λ n. pure tt)) h)
  mount_lem f x h = by_answer (m.answer h (mount x))
    where
      by_answer :
          (r : Result IoError ℕ)
          → Post
              (λ done t. t ≡ h ++ mount x ∷ [])
              (λ e t. Unit)
              (continue (renamed f (r, h ++ mount x ∷ [])) (λ n. pure tt))
      by_answer (ok n) = good refl
      by_answer (err e) = bad tt

  -- A walk, and what follows it.
  pub after :
      {A B : Type 0} {Q : B → History → Type 0} (step : Step History Error A)
      (onwards : A → Step History Error B) (h : History)
      → Unselected is_mount h (step h)
      → ((a : A) (g : History)
          → step h ≡ (ok a, g)
          → Quiet is_mount h g
          → Post Q (λ e t. Unit) (onwards a g))
      → Post Q (λ e t. Unit) ((step >>= onwards) h)
  after {A} {B} {Q} step onwards h same rest = behind (step h) refl same
    where
      behind :
          (q : Result Error A × History)
          → step h ≡ q
          → Unselected is_mount h q
          → Post Q (λ e t. Unit) (continue q onwards)
      behind (ok a, g) e u = rest a g e u
      behind (err x, g) e u = bad tt

  -- A mount, and what follows it.
  pub after_mount :
      {B : Type 0} {Q : B → History → Type 0} (x : Mount) (onwards : ℕ → Step History Error B)
      (h : History)
      → ((n : ℕ) → Post Q (λ e t. Unit) (onwards n (h ++ mount x ∷ [])))
      → Post Q (λ e t. Unit) ((or_error io (call m (mount x)) >>= onwards) h)
  after_mount {B} {Q} x onwards h rest = by_answer (m.answer h (mount x))
    where
      by_answer :
          (r : Result IoError ℕ)
          → Post Q (λ e t. Unit) (continue (renamed io (r, h ++ mount x ∷ [])) onwards)
      by_answer (ok n) = rest n
      by_answer (err e) = bad tt

  -- One mount behind steps that make none.
  pub one_mount :
      (x : Mount) (h k t : History)
      → Quiet is_mount h k
      → t ≡ k ++ mount x ∷ []
      → (select is_mount t ≡ select is_mount h ++ mount x ∷ []) × IsMountedAt k x t × Extends h t
  one_mount x h k t (same, longer) e = (
    rw e (select-take is_mount k (mount x) refl ∙ rw same refl),
    rw e (Extends-refl (k ++ mount x ∷ [])),
    rw e (Extends-trans h k (k ++ mount x ∷ []) longer (mount x ∷ [], refl)),
  )
