-- ===== src/Immutable/Marked.antt =====
-- About `chattr_op` (installer/immutable.rs) on files that may have several names.
use secure_sudoers_setup.Base.{ℕ, Bool, true, List, [], some, ok, ◌≡◌, ◌⊎◌, In}
use secure_sudoers_setup.Text.{Text}
use secure_sudoers_setup.Fs.{Fd, FileSystem}
use secure_sudoers_setup.Disk.{Disk}
use secure_sudoers_setup.Disk.Laws.{File}
use secure_sudoers_setup.Disk.Inodes.{Inodes, HasFlags, SameNames, Flagged}
use secure_sudoers_setup.Immutable.Target.{locate}

abbrev pub flag : Bool → File → File
flag b f = record f { immutable = b }

module _ (fs : FileSystem) (disk : Disk) (view : Inodes disk) (laws : HasFlags view)
    (b : Bool) where
  -- The path is that of a name, and the name that of a file.
  abbrev pub Leads : disk.State → Text → ℕ → Type 0
  Leads s path i =
      (fd : Fd) × (name : Text) × (locate fs path ≡ ok (fd, name)) × (view.inode s fd name ≡ some i)

  -- One file has the flag.
  abbrev Marks : Text → disk.State → disk.State → Type 0
  Marks path s t = (i : ℕ) × Leads s path i × Flagged view i b s t

  -- What a run over the paths comes to.
  pub record MarksAll (paths : List Text) (s : disk.State) (p : List Text × disk.State)
      : Type 0 where
    pub same_names : SameNames view s p.1
    pub only_targets :
        (i : ℕ)
        → (view.file p.1 i ≡ view.file s i)
          ⊎ ((path : Text) × In path paths
              × Leads s path i
              × (view.file p.1 i ≡ flag b (view.file s i)))
    pub all_marked :
        b ≡ true
        → p.0 ≡ []
        → (path : Text) → In path paths
        → (i : ℕ) × Leads s path i × ((view.file p.1 i).immutable ≡ b)

  -- What one step does to a file.
  abbrev Moves : Text → disk.State → disk.State → Type 0
  Moves path s t =
      (i : ℕ)
      → (view.file t i ≡ view.file s i)
        ⊎ (Leads s path i × (view.file t i ≡ flag b (view.file s i)))
