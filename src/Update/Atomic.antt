-- ===== src/Update/Atomic.antt =====
-- About `install_update` (network.rs).
use secure_sudoers_setup.Base.{
  ℕ, Bool, true, false, List, [], some, Result, ok, err, ◌>>=◌, ◌>>◌, map_err, not, ◌==◌, ◌%◌, ◌≡◌,
  ◌≢◌, refl, ap, inl, inr, if◌then◌else◌, Result-cases, length, length-append, arith,
}
use secure_sudoers_setup.Text.{Text, lit, has_char}
use secure_sudoers_setup.Error.{Error}
use secure_sudoers_setup.Path.{file_name, parent, is_absolute}
use secure_sudoers_setup.Fs.{FileSystem, SecurePath, positional, check_path}
use secure_sudoers_setup.Models.Validate.{guard}
use secure_sudoers_setup.PathSecurity.{
  Owners, Stat, mode_error, secure_parent_directory, secure_directory, ensure_directory_is_hardened,
  is_directory, ensure_owned, writable_by_others,
}
use secure_sudoers_setup.Steps.{Post, bad}
use secure_sudoers_setup.Disk.{Disk}
use secure_sudoers_setup.Disk.Laws.{View, IsLawful}
use secure_sudoers_setup.Immutable.Target.{locate}
use secure_sudoers_setup.Update.Install.{install_update}
use secure_sudoers_setup.Update.Replaced.{with_sig, Installed, Failed, kept}
use secure_sudoers_setup.Update.Installed.{install_in_lem}

-- A path of a file in a directory that can be opened securely.
pub record IsPlaced (fs : FileSystem) (path : Text) (folder : Text) (dir : SecurePath) (name : Text)
    : Type 0 where
  pub absolute : is_absolute path ≡ true
  pub in_folder : parent path ≡ some folder
  pub checked : check_path fs folder positional [] ≡ ok dir
  pub has_name : file_name path ≡ some name
  pub no_nul : has_char 0 name ≡ false

locate-IsPlaced :
    (fs : FileSystem) (path folder : Text) (dir : SecurePath) (name : Text)
    → IsPlaced fs path folder dir name
    → locate fs path ≡ ok (dir.fd, name)
unfolding locate
locate-IsPlaced fs path folder dir name p =
    rw (p.absolute, p.in_folder, p.checked, p.has_name, p.no_nul, locate) refl

-- What succeeds with one error succeeds with another.
guard-any :
    (b : Bool) (e f : Error) (k l : Result Error (Unit {0}))
    → (k ≡ ok tt → l ≡ ok tt)
    → (guard b e >> k) ≡ ok tt
    → (guard b f >> l) ≡ ok tt
guard-any true e f k l later h = later h
guard-any false e f k l later h = cc

map_err-any :
    {E A : Type 0} (r : Result E A) (f g : E → Error) (k l : A → Result Error (Unit {0}))
    → ((a : A) → k a ≡ ok tt → l a ≡ ok tt)
    → (map_err f r >>= k) ≡ ok tt
    → (map_err g r >>= l) ≡ ok tt
map_err-any (ok a) f g k l later h = later a h
map_err-any (err e) f g k l later h = cc

if-any :
    (b : Bool) (k l : Result Error (Unit {0}))
    → (k ≡ ok tt → l ≡ ok tt)
    → (if b then k else ok tt) ≡ ok tt
    → (if b then l else ok tt) ≡ ok tt
if-any true k l later h = later h
if-any false k l later h = refl

ensure_owned_any :
    (label other path : Text) (stat : Stat)
    → ensure_owned label path stat ≡ ok tt
    → ensure_owned other path stat ≡ ok tt
ensure_owned_any label other path stat h =
    guard-any (stat.st_uid == 0) _ _ (tail label) (tail other)
      (λ e. last (not (writable_by_others (stat.st_mode % 512))) _ _ e) h
  where
    tail : Text → Result Error (Unit {0})
    tail l = guard (not (writable_by_others (stat.st_mode % 512))) (mode_error l path stat)

    last : (b : Bool) (e f : Error) → guard b e ≡ ok tt → guard b f ≡ ok tt
    last true e f k = refl
    last false e f k = cc

module _ (owners : Owners) where
  -- The label is only used in errors.
  ensure_hardened_any :
      (label other : Text) (d : SecurePath)
      → ensure_directory_is_hardened owners d label ≡ ok tt
      → ensure_directory_is_hardened owners d other ≡ ok tt
  unfolding ensure_directory_is_hardened
  ensure_hardened_any label other d h =
      map_err-any (owners.fstat d.fd) _ _ _ _
        (λ stat.
          guard-any (is_directory stat.st_mode) _ _ _ _
            (if-any (owners.geteuid == 0) _ _ (ensure_owned_any label other d.path stat)))
        h

with_sig-longer : (name : Text) → with_sig name ≢ name
unfolding lit
with_sig-longer name e =
    let same_length : length (with_sig name) ≡ length name = ap length e in
    omega (arith, length-append name (lit ".sig"), same_length)

module _ (fs : FileSystem) (owners : Owners) where
  secure_parent_lem :
      (path folder : Text) (dir : SecurePath) (name label : Text)
      → IsPlaced fs path folder dir name
      → secure_parent_directory fs owners path label
        ≡ (ensure_directory_is_hardened owners dir label >> ok dir)
  unfolding secure_parent_directory secure_directory
  secure_parent_lem path folder dir name label p =
      rw (p.in_folder, secure_parent_directory) (rw (p.checked, secure_directory) refl)

  -- Where no two names stand for one file (the laws of the disk say so), and the policy and its
  -- signature lie in one directory that can be opened, `install_update`
  -- leaves one of four states, and touches no other name. On success both files are the new ones,
  -- with the modes and the immutable flags of the old ones (mode 0600 and no flag for a new file). On
  -- an error both files are what they were; or the error says that the signature could not be put
  -- back, and the policy is what it was; or it says that a flag could not be set again, and both
  -- files are the new ones.
  pub install_update-IsAtomic :
      (disk : Disk) (view : View disk) (lawful : IsLawful view)
      (policy_path policy_name folder : Text) (dir : SecurePath) (policy_bytes sig_bytes : List ℕ)
      → IsPlaced fs policy_path folder dir policy_name
      → IsPlaced fs (with_sig policy_path) folder dir (with_sig policy_name)
      → (s : disk.State)
      → Post
          (λ done t.
            Installed fs owners disk view lawful dir.fd policy_path policy_name policy_bytes
              sig_bytes s t)
          (λ e t.
            Failed fs owners disk view lawful dir.fd policy_path policy_name policy_bytes sig_bytes
              s e t)
          (install_update fs owners disk policy_path policy_bytes sig_bytes s)
  unfolding install_update
  install_update-IsAtomic disk view lawful policy_path policy_name folder dir policy_bytes sig_bytes
        p q s =
      elim (Result-cases
        (ensure_directory_is_hardened owners dir (lit "policy destination parent directory"))) [
          | inr (e, bad_dir) ↦
              rw
                (
                  secure_parent_lem policy_path folder dir policy_name
                      (lit "policy destination parent directory") p,
                  bad_dir,
                  install_update,
                )
                (bad (kept (λ n. refl)))
          | inl (done, good_dir) ↦
              rw
                (
                  secure_parent_lem policy_path folder dir policy_name
                      (lit "policy destination parent directory") p,
                  good_dir,
                  p.has_name,
                  install_update,
                )
                (install_in_lem fs owners disk view lawful dir.fd policy_path policy_name
                  policy_bytes sig_bytes
                  (locate-IsPlaced fs (with_sig policy_path) folder dir (with_sig policy_name) q)
                  (locate-IsPlaced fs policy_path folder dir policy_name p)
                  (with_sig-longer policy_name) dir refl
                  (rw
                    (
                      secure_parent_lem (with_sig policy_path) folder dir (with_sig policy_name)
                          (lit "signature destination parent directory") q,
                      ensure_hardened_any owners (lit "policy destination parent directory")
                          (lit "signature destination parent directory") dir good_dir,
                    )
                    refl)
                  q.has_name s)
        ]
