-- ===== src/Disk/Inodes.antt =====
-- The documented behaviour of opening files and of their flags, for names that may be hard links: a
-- handle stays with its inode, and so do the flags.
use secure_sudoers_setup.Base.{ℕ, Bool, Option, some, ◌≡◌, refl, ◌∙◌, ◌==◌, if◌then◌else◌}
use secure_sudoers_setup.Text.{Text}
use secure_sudoers_setup.Fs.{Fd}
use secure_sudoers_setup.Steps.{Post}
use secure_sudoers_setup.Disk.{Disk}
use secure_sudoers_setup.Disk.Laws.{File, has_immutable}

pub record Inodes (disk : Disk) : Type 1 where
  -- the inode behind a name
  pub inode : disk.State → Fd → Text → Option ℕ
  pub file : disk.State → ℕ → File
  -- the handle is open on this inode
  pub on : disk.Handle → ℕ → Type 0

module _ {disk : Disk} (view : Inodes disk) where
  abbrev pub SameNames : disk.State → disk.State → Type 0
  SameNames s t = (fd : Fd) (name : Text) → view.inode t fd name ≡ view.inode s fd name

  abbrev pub SameInodes : disk.State → disk.State → Type 0
  SameInodes s t = SameNames s t × ((i : ℕ) → view.file t i ≡ view.file s i)

  -- One inode has another flag.
  abbrev pub Flagged : ℕ → Bool → disk.State → disk.State → Type 0
  Flagged i b s t =
      SameNames s t
      × ((j : ℕ)
          → view.file t j
            ≡ (if j == i then record (view.file s j) { immutable = b } else view.file s j))

  pub SameInodes-refl : (s : disk.State) → SameInodes s s
  SameInodes-refl s = (λ fd name. refl, λ i. refl)

  pub SameInodes-trans : (s t u : disk.State) → SameInodes s t → SameInodes t u → SameInodes s u
  SameInodes-trans s t u p q = (λ fd name. q.0 fd name ∙ p.0 fd name, λ i. q.1 i ∙ p.1 i)

pub record HasFlags {disk : Disk} (view : Inodes disk) : Type 1 where
  pub open_read_lem :
      (fd : Fd) (name : Text) (s : disk.State)
      → Post
          (λ h t. SameInodes view s t × ((i : ℕ) × view.on h i × (view.inode s fd name ≡ some i)))
          (λ e t. SameInodes view s t)
          (disk.open_read fd name s)
  pub get_flags_lem :
      (h : disk.Handle) (i : ℕ) (s : disk.State)
      → view.on h i
      → Post
          (λ flags t. SameInodes view s t × (has_immutable flags ≡ (view.file s i).immutable))
          (λ e t. SameInodes view s t)
          (disk.get_flags h s)
  pub set_flags_lem :
      (h : disk.Handle) (flags i : ℕ) (s : disk.State)
      → view.on h i
      → Post
          (λ done t. Flagged view i (has_immutable flags) s t)
          (λ e t. SameInodes view s t)
          (disk.set_flags h flags s)
