-- ===== src/Examples/Links.antt =====
-- A disk on which two names stand for one file.
use secure_sudoers_setup.Base.{
  ℕ, Bool, true, false, ◌==◌, ◌||◌, List, [], ◌∷◌, Option, none, some, Result, ok, err, ◌≡◌,
  if◌then◌else◌,
}
use secure_sudoers_setup.Text.{Text, lit, text_eq}
use secure_sudoers_setup.Error.{IoError}
use secure_sudoers_setup.Disk.{Disk}
use secure_sudoers_setup.Disk.Laws.{File, has_immutable}
use secure_sudoers_setup.Disk.Inodes.{Inodes}
use secure_sudoers_setup.Examples.Data.{no_file}

-- The binary and its entry point are inode 1.
abbrev inode_of : Text → Option ℕ
unfolding lit text_eq
inode_of name =
    if text_eq name (lit "secure-sudoers") || text_eq name (lit "apt") then some 1 else none

abbrev opened : {S : Type 0} → Option ℕ → S → Result IoError ℕ × S
opened none s = (err no_file, s)
opened (some i) s = (ok i, s)

abbrev flags_of : Bool → ℕ
flags_of true = 16
flags_of false = 0

abbrev set_flag : ℕ → Bool → (ℕ → File) → ℕ → File
set_flag i b s j = if j == i then record (s j) { immutable = b } else s j

abbrev linked_disk : Disk
linked_disk = record {
  State = ℕ → File;
  Handle = ℕ;
  Temp = ℕ;
  open_read = λ fd name s. opened (inode_of name) s;
  read_up_to = λ h n s. (ok (s h).content, s);
  mode = λ h s. (ok (s h).mode, s);
  get_flags = λ h s. (ok (flags_of (s h).immutable), s);
  set_flags = λ h flags s. (ok tt, set_flag h (has_immutable flags) s);
  new_in = λ fd s. (err no_file, s);
  write_all = λ tmp bytes s. (err no_file, s);
  sync_all = λ tmp s. (err no_file, s);
  set_permissions = λ tmp m s. (err no_file, s);
  persist = λ tmp fd name s. (err no_file, s);
  remove_file = λ fd name s. (err no_file, s);
  read_to_string = λ path s. (err no_file, s);
}

abbrev inodes : Inodes linked_disk
inodes = record { inode = λ s fd name. inode_of name; file = λ s i. s i; on = λ h i. h ≡ i }

abbrev plain_files : ℕ → File
plain_files i = record { content = i ∷ []; mode = 493; immutable = false }

abbrev targets : List Text
unfolding lit
targets = lit "/usr/local/bin/secure-sudoers" ∷ lit "/usr/local/bin/apt" ∷ []
