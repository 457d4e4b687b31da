-- ===== src/Disk/Laws.antt =====
-- What the utilities rely on: the documented behaviour of the calls on a file system that no other
-- process changes meanwhile, and in which no two names stand for one file. The names of temporary
-- files are not seen.
use secure_sudoers_setup.Base.{
  ℕ, ◌/◌, ◌%◌, ◌==◌, Bool, true, false, List, [], ◌++◌, Option, none, some, ◌≡◌, ◌≢◌, ◌<◌, refl,
  ◌∙◌, ap, inl, inr, Bool-cases, if◌then◌else◌, take,
}
use secure_sudoers_setup.Text.{Text, text_eq}
use secure_sudoers_setup.Text.Laws.{text_eq_iff}
use secure_sudoers_setup.Models.Validate.{is_not_found}
use secure_sudoers_setup.Fs.{Fd}
use secure_sudoers_setup.Steps.{Post, Post-weaken}
use secure_sudoers_setup.Disk.{Disk}

pub record File : Type 0 where
  pub content : List ℕ
  -- the permission bits
  pub mode : ℕ
  pub immutable : Bool

-- `flags & FS_IMMUTABLE_FL != 0`
abbrev pub has_immutable : ℕ → Bool
has_immutable flags = flags / 16 % 2 == 1

-- `ENOTTY`, `EOPNOTSUPP` and `EINVAL`: the file system has no flags.
abbrev pub means_no_flags : ℕ → Bool
means_no_flags code =
    if code == 25 then true else if code == 95 then true else if code == 22 then true else false

abbrev pub has_no_flags : Option ℕ → Bool
has_no_flags none = false
has_no_flags (some code) = means_no_flags code

-- The views that a specification has of a disk.
pub record View (disk : Disk) : Type 1 where
  pub Inode : Type 0
  -- the inode behind a name
  pub inode : disk.State → Fd → Text → Option Inode
  -- what a name stands for
  pub file : disk.State → Fd → Text → Option File
  -- what a temporary file holds
  pub draft : disk.State → disk.Temp → File
  pub live : disk.State → disk.Temp → Type 0
  -- the handle is open on the file that this name stands for
  pub at : disk.State → disk.Handle → Fd → Text → Type 0

module _ {disk : Disk} (view : View disk) where
  -- Every name stands for what it stood for.
  abbrev pub SameFiles : disk.State → disk.State → Type 0
  SameFiles s t = (fd : Fd) (name : Text) → view.file t fd name ≡ view.file s fd name

  -- The temporary files but this one are what they were.
  abbrev pub SameDraft : disk.State → disk.State → disk.Temp → Type 0
  SameDraft s t tmp = view.live s tmp → view.live t tmp × (view.draft t tmp ≡ view.draft s tmp)

  abbrev pub SameDrafts : disk.State → disk.State → Type 0
  SameDrafts s t = (tmp : disk.Temp) → SameDraft s t tmp

  abbrev pub Same : disk.State → disk.State → Type 0
  Same s t = SameFiles s t × SameDrafts s t

  -- The names stand for what they stood for, and so do the temporary files but one.
  abbrev pub SameBut : disk.Temp → disk.State → disk.State → Type 0
  SameBut tmp s t = SameFiles s t × ((other : disk.Temp) → other ≢ tmp → SameDraft s t other)

  -- One name stands for something else; the temporary files are left.
  abbrev pub Renamed : Fd → Text → Option File → disk.State → disk.State → Type 0
  Renamed fd name new s t =
      ((n : Text) → view.file t fd n ≡ (if text_eq n name then new else view.file s fd n))
      × SameDrafts s t

  pub Same-refl : (s : disk.State) → Same s s
  Same-refl s = (λ fd name. refl, λ tmp h. (h, refl))

  pub SameDraft-trans :
      {s t u : disk.State} (tmp : disk.Temp)
      → SameDraft s t tmp
      → SameDraft t u tmp
      → SameDraft s u tmp
  SameDraft-trans tmp p q h = let (l, e) = p h in let (m, f) = q l in (m, f ∙ e)

  pub Same-trans : {s t u : disk.State} → Same s t → Same t u → Same s u
  Same-trans p q =
      (λ fd name. q.0 fd name ∙ p.0 fd name, λ tmp. SameDraft-trans tmp (p.1 tmp) (q.1 tmp))

pub record IsLawful {disk : Disk} (view : View disk) : Type 1 where
  -- There are no hard links: the assumption behind all that is said of names.
  pub one_name :
      (fd : Fd) (n name : Text) (f : File) (s : disk.State)
      → view.file s fd name ≡ some f
      → view.inode s fd n ≡ view.inode s fd name
      → n ≡ name
  pub mode_bits :
      (fd : Fd) (name : Text) (f : File) (s : disk.State)
      → view.file s fd name ≡ some f
      → f.mode < 512
  pub open_read_lem :
      (fd : Fd) (name : Text) (s : disk.State)
      → Post
          (λ h t.
            Same view s t × view.at t h fd name × ((f : File) × (view.file s fd name ≡ some f)))
          (λ e t. Same view s t × (is_not_found e.kind ≡ true → view.file s fd name ≡ none))
          (disk.open_read fd name s)
  pub read_up_to_lem :
      (h : disk.Handle) (n : ℕ) (fd : Fd) (name : Text) (f : File) (s : disk.State)
      → view.at s h fd name
      → view.file s fd name ≡ some f
      → Post
          (λ bytes t. Same view s t × (bytes ≡ take n f.content))
          (λ e t. Same view s t)
          (disk.read_up_to h n s)
  pub mode_lem :
      (h : disk.Handle) (fd : Fd) (name : Text) (f : File) (s : disk.State)
      → view.at s h fd name
      → view.file s fd name ≡ some f
      → Post (λ m t. Same view s t × (m % 512 ≡ f.mode)) (λ e t. Same view s t) (disk.mode h s)
  pub get_flags_lem :
      (h : disk.Handle) (fd : Fd) (name : Text) (f : File) (s : disk.State)
      → view.at s h fd name
      → view.file s fd name ≡ some f
      → Post
          (λ flags t. Same view s t × view.at t h fd name × (has_immutable flags ≡ f.immutable))
          (λ e t. Same view s t × (has_no_flags e.raw_os_error ≡ true → f.immutable ≡ false))
          (disk.get_flags h s)
  pub set_flags_lem :
      (h : disk.Handle) (flags : ℕ) (fd : Fd) (name : Text) (f : File) (s : disk.State)
      → view.at s h fd name
      → view.file s fd name ≡ some f
      → Post
          (λ done t.
            ((n : Text)
              → (view.inode s fd n ≡ view.inode s fd name
                  → view.file t fd n ≡ some (record f { immutable = has_immutable flags }))
                × (view.inode s fd n ≢ view.inode s fd name → view.file t fd n ≡ view.file s fd n))
            × SameDrafts view s t)
          (λ e t. Same view s t)
          (disk.set_flags h flags s)
  pub new_in_lem :
      (fd : Fd) (s : disk.State)
      → Post
          (λ tmp t.
            Same view s t
            × ¬ view.live s tmp
            × view.live t tmp
            × (view.draft t tmp ≡ record { content = []; mode = 384; immutable = false }))
          (λ e t. Same view s t)
          (disk.new_in fd s)
  pub write_all_lem :
      (tmp : disk.Temp) (bytes : List ℕ) (s : disk.State)
      → view.live s tmp
      → Post
          (λ done t.
            SameBut view tmp s t
            × view.live t tmp
            × (view.draft t tmp
                ≡ record (view.draft s tmp) { content = (view.draft s tmp).content ++ bytes }))
          (λ e t. SameBut view tmp s t)
          (disk.write_all tmp bytes s)
  pub sync_all_lem :
      (tmp : disk.Temp) (s : disk.State)
      → Post (λ done t. Same view s t) (λ e t. Same view s t) (disk.sync_all tmp s)
  pub set_permissions_lem :
      (tmp : disk.Temp) (m : ℕ) (s : disk.State)
      → view.live s tmp
      → Post
          (λ done t.
            SameBut view tmp s t
            × view.live t tmp
            × (view.draft t tmp ≡ record (view.draft s tmp) { mode = m % 512 }))
          (λ e t. SameBut view tmp s t)
          (disk.set_permissions tmp m s)
  pub persist_lem :
      (tmp : disk.Temp) (fd : Fd) (name : Text) (s : disk.State)
      → view.live s tmp
      → Post
          (λ done t.
            ((n : Text)
              → view.file t fd n
                ≡ (if text_eq n name then some (view.draft s tmp) else view.file s fd n))
            × ((other : disk.Temp) → other ≢ tmp → SameDraft view s t other))
          (λ e t. SameFiles view s t)
          (disk.persist tmp fd name s)
  pub remove_file_lem :
      (fd : Fd) (name : Text) (s : disk.State)
      → Post
          (λ done t. Renamed view fd name none s t)
          (λ e t. Same view s t × (is_not_found e.kind ≡ true → view.file s fd name ≡ none))
          (disk.remove_file fd name s)
  pub read_to_string_lem :
      (path : Text) (s : disk.State)
      → Post (λ src t. Same view s t) (λ e t. Same view s t) (disk.read_to_string path s)

-- As the file has one name, the flags of that name are set and nothing else.
pub set_flags_one_name :
    {disk : Disk} (view : View disk) (lawful : IsLawful view) (h : disk.Handle) (flags : ℕ)
    (fd : Fd) (name : Text) (f : File) (s : disk.State)
    → view.at s h fd name
    → view.file s fd name ≡ some f
    → Post
        (λ done t. Renamed view fd name (some (record f { immutable = has_immutable flags })) s t)
        (λ e t. Same view s t)
        (disk.set_flags h flags s)
set_flags_one_name {disk} view lawful h flags fd name f s at e =
    Post-weaken (disk.set_flags h flags s) (lawful.set_flags_lem h flags fd name f s at e)
      (λ done t (files, drafts). (
        λ n. elim (Bool-cases (text_eq n name)) [
          | inl same ↦
              rw same
                ((files n).0 (ap (λ (m : Text). view.inode s fd m) ((text_eq_iff n name).0 same)))
          | inr other ↦ rw other (
              (files n).1 λ linked.
                let same : text_eq n name ≡ true =
                  (text_eq_iff n name).1 (lawful.one_name fd n name f s e linked) in
                cc)
        ],
        drafts,
      ))
      (λ failure t same. same)
