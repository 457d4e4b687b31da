-- ===== src/Update/Replaced.antt =====
-- About the renames of `install_update` (network.rs), and the states that it may leave.
use secure_sudoers_setup.Base.{
  ℕ, ◌%◌, Bool, true, false, List, ◌++◌, Option, some, ok, ◌≡◌, ◌≢◌, refl, ◌∙◌, ap, ◌⊎◌, inl, inr,
}
use secure_sudoers_setup.Text.{Text, lit}
use secure_sudoers_setup.Text.Laws.{text_eq_refl, text_eq-false}
use secure_sudoers_setup.Error.{Error, IoError}
use secure_sudoers_setup.Path.{file_name}
use secure_sudoers_setup.Fs.{Fd, FileSystem, SecurePath}
use secure_sudoers_setup.PathSecurity.{Owners, secure_parent_directory}
use secure_sudoers_setup.Steps.{Post, Post-bind, Post-or_error, Post-weaken, or_error}
use secure_sudoers_setup.Disk.{Disk}
use secure_sudoers_setup.Disk.Laws.{File, View, IsLawful, SameFiles}
use secure_sudoers_setup.Immutable.Locked.{Names}
use secure_sudoers_setup.Update.Install.{
  Previous, lock_failure, rollback_failure, replace_both, run_with_signature_rollback,
}
use secure_sudoers_setup.Update.Saved.{content_of, mode_of, immutable_of, Describes}
use secure_sudoers_setup.Update.Drafts.{fresh_file}
use secure_sudoers_setup.Update.Relock.{relocked}
use secure_sudoers_setup.Update.Rollback.{
  mode_number, SameElsewhere, run_with_signature_rollback_lem,
}

-- The file that takes the place of an old one.
abbrev pub new_file : List ℕ → Option File → Bool → File
new_file bytes old flag = record {
  content = bytes;
  mode = mode_number (mode_of old) % 512;
  immutable = flag;
}

-- The name of the signature beside a policy.
abbrev pub with_sig : Text → Text
with_sig name = name ++ lit ".sig"

relocked-fresh :
    (b : Bool) (bytes : List ℕ) (m : ℕ)
    → relocked b (some (fresh_file bytes m))
      ≡ some (record { content = bytes; mode = m; immutable = b })
relocked-fresh true bytes m = refl
relocked-fresh false bytes m = refl

-- A fresh file whose flag is set as it was.
pub relocked-some :
    (b c : Bool) (bytes : List ℕ) (m : ℕ)
    → b ≡ c
    → relocked b (some (fresh_file bytes m))
      ≡ some (record { content = bytes; mode = m; immutable = c })
relocked-some b c bytes m e = rw e (relocked-fresh c bytes m)

module _ (disk : Disk) (view : View disk) (dir : Fd) (sig_name policy_name : Text) where
  -- The two names stand for these files, and the others for what they stood for.
  abbrev pub Both : disk.State → disk.State → File → File → Type 0
  Both s t sig policy =
      (view.file t dir sig_name ≡ some sig)
      × (view.file t dir policy_name ≡ some policy)
      × ((n : Text) → n ≢ sig_name → n ≢ policy_name → view.file t dir n ≡ view.file s dir n)

module _ (fs : FileSystem) (owners : Owners) (disk : Disk) (view : View disk)
    (lawful : IsLawful view) (dir : Fd) (policy_path policy_name : Text)
    (policy_bytes sig_bytes : List ℕ) where
  abbrev sig_path : Text
  sig_path = with_sig policy_path

  abbrev sig_name : Text
  sig_name = with_sig policy_name

  -- The two files are the new ones, with these flags, and no other name is touched.
  pub record Replaced (s t : disk.State) (sig_flag policy_flag : Bool) : Type 0 where
    pub signature :
        view.file t dir sig_name ≡ some (new_file sig_bytes (view.file s dir sig_name) sig_flag)
    pub policy :
        view.file t dir policy_name
        ≡ some (new_file policy_bytes (view.file s dir policy_name) policy_flag)
    pub others : (n : Text) → n ≢ sig_name → n ≢ policy_name → view.file t dir n ≡ view.file s dir n

  abbrev pub Installed : disk.State → disk.State → Type 0
  Installed s t =
      Replaced s t (immutable_of (view.file s dir sig_name))
        (immutable_of (view.file s dir policy_name))

  -- What an error leaves.
  pub data Failed (s : disk.State) (e : Error) (t : disk.State) : Type 0 where
    -- the files of before
    kept : ((n : Text) → view.file t dir n ≡ view.file s dir n) → Failed s e t
    -- a signature that could not be put back, beside the policy of before
    not_rolled_back :
        (inner : Error) (rollback : IoError)
        → e ≡ rollback_failure fs owners disk sig_path inner rollback
        → ((n : Text) → n ≢ sig_name → view.file t dir n ≡ view.file s dir n)
        → Failed s e t
    -- the new files, a flag of which could not be set again
    not_locked :
        (errors : List Text) (sig_flag policy_flag : Bool)
        → e ≡ lock_failure fs owners disk errors
        → Replaced s t sig_flag policy_flag
        → Failed s e t

  module _ (sig_named : Names fs disk view lawful dir true sig_path sig_name)
      (policy_named : Names fs disk view lawful dir true policy_path policy_name)
      (distinct : sig_name ≢ policy_name) (parent_dir : SecurePath) (same_dir : parent_dir.fd ≡ dir)
      (secured : secure_parent_directory fs owners sig_path
          (lit "signature destination parent directory")
        ≡ ok parent_dir)
      (has_name : file_name sig_path ≡ some sig_name) where
    pub replace_both_lem :
        (previous : Previous) (tmp_sig tmp_policy : disk.Temp) (sig policy : File)
        (s t : disk.State)
        → SameFiles view s t
        → previous.bytes ≡ content_of (view.file s dir sig_name)
        → Describes previous (view.file s dir sig_name)
        → view.live t tmp_sig
        → view.draft t tmp_sig ≡ sig
        → view.live t tmp_policy
        → view.draft t tmp_policy ≡ policy
        → tmp_policy ≢ tmp_sig
        → Post
            (λ done u. Both disk view dir sig_name policy_name s u sig policy)
            (λ e u. Failed s e u)
            (replace_both fs owners disk sig_path dir sig_name policy_name previous tmp_sig
              tmp_policy t)
    unfolding replace_both
    replace_both_lem previous tmp_sig tmp_policy sig policy s t same content d live_sig holds_sig
          live_policy holds_policy two =
        Post-bind
          {Q = λ done u.
            (view.file u dir sig_name ≡ some sig)
            × SameElsewhere fs owners disk view lawful dir sig_path sig_name sig_named s u
            × view.live u tmp_policy
            × (view.draft u tmp_policy ≡ policy)}
          (or_error _ (disk.persist tmp_sig dir sig_name)) _ t
          (Post-or_error _ (disk.persist tmp_sig dir sig_name) t
            (Post-weaken (disk.persist tmp_sig dir sig_name t)
              (lawful.persist_lem tmp_sig dir sig_name t live_sig)
              (λ done u (files, drafts).
                let (still, held) = drafts tmp_policy two live_policy in
                (
                  files sig_name ∙ rw (text_eq_refl sig_name) (ap some holds_sig),
                  λ n other. files n ∙ rw (text_eq-false n sig_name other) (same dir n),
                  still,
                  held ∙ holds_policy,
                ))
              (λ e u later. λ n. later dir n ∙ same dir n))
            (λ e u later. kept later))
          λ done u (at_sig, elsewhere, live, holds).
            Post-weaken (run_with_signature_rollback fs owners disk sig_path previous _ u)
              (run_with_signature_rollback_lem fs owners disk view lawful dir sig_path sig_name
                sig_named parent_dir same_dir secured has_name
                (λ v. Both disk view dir sig_name policy_name s v sig policy)
                (or_error _ (disk.persist tmp_policy dir policy_name)) previous s u content d
                (Post-or_error _ (disk.persist tmp_policy dir policy_name) u
                  (Post-weaken (disk.persist tmp_policy dir policy_name u)
                    (lawful.persist_lem tmp_policy dir policy_name u live)
                    (λ done v (files, drafts). (
                      files sig_name ∙ rw (text_eq-false sig_name policy_name distinct) at_sig,
                      files policy_name ∙ rw (text_eq_refl policy_name) (ap some holds),
                      λ n not_sig not_policy.
                          files n
                          ∙ rw (text_eq-false n policy_name not_policy) (elsewhere n not_sig),
                    ))
                    (λ e v later. λ n other. later dir n ∙ elsewhere n other))
                  (λ e v h. h)))
              (λ done v both. both) (λ e v failed. by_kind e v failed)
      where
        by_kind :
            (e : Error) (v : disk.State)
            → ((n : Text) → view.file v dir n ≡ view.file s dir n)
              ⊎ (((inner : Error) × (rollback : IoError) × (e
                      ≡ rollback_failure fs owners disk sig_path inner rollback))
                  × ((n : Text) → n ≢ sig_name → view.file v dir n ≡ view.file s dir n))
            → Failed s e v
        by_kind e v (inl again) = kept again
        by_kind e v (inr ((inner, rollback, is_failure), others)) =
            not_rolled_back inner rollback is_failure others
