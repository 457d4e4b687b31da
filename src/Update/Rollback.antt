-- ===== src/Update/Rollback.antt =====
-- About `restore_signature` and `run_with_signature_rollback` (network.rs).
use secure_sudoers_setup.Base.{
  ℕ, ◌%◌, ◌<◌, Bool, true, false, List, [], Option, none, some, ok, ◌≡◌, ◌≢◌, refl, ◌∙◌, sym, ap,
  ◌⊎◌, inl, inr, Bool-cases, arith,
}
use secure_sudoers_setup.Text.{Text, lit, text_eq}
use secure_sudoers_setup.Text.Laws.{text_eq_refl, text_eq_iff, text_eq-false}
use secure_sudoers_setup.Error.{Error, IoError}
use secure_sudoers_setup.Path.{file_name}
use secure_sudoers_setup.Fs.{Fd, FileSystem, SecurePath}
use secure_sudoers_setup.Models.Validate.{is_not_found}
use secure_sudoers_setup.PathSecurity.{Owners, secure_parent_directory}
use secure_sudoers_setup.Steps.{Step, Post, good, bad, Post-bind, Post-attempt, Post-weaken, ◌>>◌}
use secure_sudoers_setup.Disk.{Disk}
use secure_sudoers_setup.Disk.Laws.{File, View, IsLawful, SameFiles}
use secure_sudoers_setup.Immutable.Locked.{Names}
use secure_sudoers_setup.Update.Install.{
  Previous, mode_or, default_policy_mode, put_back, removed, lock_again, restore_signature,
  run_with_signature_rollback, rollback_failure, rolled_back, settled, apply_mode_if_present,
}
use secure_sudoers_setup.Update.Saved.{content_of, Describes}
use secure_sudoers_setup.Update.Drafts.{
  Drafted, fresh_file, new_in-Drafted, write_all-Drafted, set_permissions-Drafted, sync_all-Drafted,
}
use secure_sudoers_setup.Update.Relock.{relocked, lock_again_lem}

abbrev pub mode_number : Option ℕ → ℕ
mode_number none = default_policy_mode
mode_number (some m) = m

pub mode_or_lem : (m : Option ℕ) → mode_or m ≡ some (mode_number m)
mode_or_lem none = refl
mode_or_lem (some m) = refl

relocked-fresh_file :
    (b : Bool) (bytes : List ℕ) (mode : ℕ) (f : File)
    → bytes ≡ f.content
    → mode ≡ f.mode
    → b ≡ f.immutable
    → relocked b (some (fresh_file bytes mode)) ≡ some f
relocked-fresh_file true bytes mode f p q r =
    rw (p, q) (ap (λ (i : Bool). some (record f { immutable = i })) r)
relocked-fresh_file false bytes mode f p q r =
    rw (p, q) (ap (λ (i : Bool). some (record f { immutable = i })) r)

module _ (fs : FileSystem) (owners : Owners) (disk : Disk) (view : View disk)
    (lawful : IsLawful view) (dir : Fd) (sig_path sig_name : Text)
    (named : Names fs disk view lawful dir true sig_path sig_name) where
  -- Every name but the signature's stands for what it stood for.
  abbrev pub SameElsewhere : disk.State → disk.State → Type 0
  SameElsewhere s t = (n : Text) → n ≢ sig_name → view.file t dir n ≡ view.file s dir n

  -- What the signature was, made again from what was read of it.
  rebuilt :
      (previous : Previous) (old : Option File) (bytes : List ℕ)
      → previous.bytes ≡ some bytes
      → previous.bytes ≡ content_of old
      → Describes previous old
      → ((f : File) → old ≡ some f → f.mode < 512)
      → relocked previous.immutable (some (fresh_file bytes (mode_number previous.mode % 512)))
        ≡ old
  rebuilt previous none bytes e content d small = absurd cc
  rebuilt previous (some f) bytes e content d small =
      relocked-fresh_file previous.immutable bytes (mode_number previous.mode % 512) f (cc)
        same_mode d.immutable_agrees
    where
      reduced : (m : ℕ) → m < 512 → m % 512 ≡ m
      reduced m h = omega arith

      same_mode : mode_number previous.mode % 512 ≡ f.mode
      same_mode = rw d.mode_agrees (reduced f.mode (small f refl))

  put_back-some :
      (previous : Previous) (bytes : List ℕ) (s : disk.State)
      → Post
          (λ done t.
            (view.file t dir sig_name
              ≡ relocked previous.immutable
                  (some (fresh_file bytes (mode_number previous.mode % 512))))
            × SameElsewhere s t)
          (λ e t. SameElsewhere s t)
          (put_back fs owners disk sig_path dir sig_name previous (some bytes) s)
  unfolding put_back
  put_back-some previous bytes s =
      Post-bind {Q = λ tmp t. Drafted disk view lawful s t tmp (fresh_file [] 384)}
        (disk.new_in dir) _ s
        (Post-weaken (disk.new_in dir s) (new_in-Drafted disk view lawful dir s) (λ tmp t h. h)
          (λ e t same. elsewhere same))
        λ tmp t empty.
          Post-bind {Q = λ done u. Drafted disk view lawful s u tmp (fresh_file bytes 384)}
            (disk.write_all tmp bytes) _ t
            (Post-weaken (disk.write_all tmp bytes t)
              (write_all-Drafted disk view lawful s t tmp 384 bytes empty) (λ done u h. h)
              (λ e u same. elsewhere same))
            λ done u written.
              Post-bind {Q = λ done v. Drafted disk view lawful s v tmp (fresh_file bytes mode)}
                (apply_mode_if_present disk tmp (mode_or previous.mode)) _ u
                (rw (mode_or_lem previous.mode) (
                  Post-weaken (apply_mode_if_present disk tmp (some (mode_number previous.mode)) u)
                    (set_permissions-Drafted disk view lawful s u tmp 384
                      (mode_number previous.mode) bytes written)
                    (λ done v h. h) (λ e v same. elsewhere same)))
                λ done v moded.
                  Post-bind {Q = λ done w. Drafted disk view lawful s w tmp (fresh_file bytes mode)}
                    (disk.sync_all tmp) _ v
                    (Post-weaken (disk.sync_all tmp v)
                      (sync_all-Drafted disk view lawful s v tmp (fresh_file bytes mode) moded)
                      (λ done w h. h) (λ e w same. elsewhere same))
                    λ done w synced. put_in_place w tmp synced
    where
      mode : ℕ
      mode = mode_number previous.mode % 512

      elsewhere : {t : disk.State} → SameFiles view s t → SameElsewhere s t
      elsewhere same n other = same dir n

      put_in_place :
          (w : disk.State) (tmp : disk.Temp)
          → Drafted disk view lawful s w tmp (fresh_file bytes (mode_number previous.mode % 512))
          → Post
              (λ done t.
                (view.file t dir sig_name
                  ≡ relocked previous.immutable
                      (some (fresh_file bytes (mode_number previous.mode % 512))))
                × SameElsewhere s t)
              (λ e t. SameElsewhere s t)
              ((disk.persist tmp dir sig_name
                  >> lock_again fs owners disk sig_path previous.immutable)
                w)
      put_in_place w tmp d =
          Post-bind
            {Q = λ done t.
              (view.file t dir sig_name ≡ some (fresh_file bytes (mode_number previous.mode % 512)))
              × SameElsewhere s t}
            (disk.persist tmp dir sig_name) _ w
            (Post-weaken (disk.persist tmp dir sig_name w)
              (lawful.persist_lem tmp dir sig_name w d.live)
              (λ done t (files, drafts). (
                files sig_name ∙ rw (text_eq_refl sig_name) (ap some d.holds),
                λ n other. files n ∙ rw (text_eq-false n sig_name other) (d.same.0 dir n),
              ))
              (λ e t same. λ n other. same dir n ∙ d.same.0 dir n))
            λ done t (new, others).
              Post-weaken (lock_again fs owners disk sig_path previous.immutable t)
                (lock_again_lem fs owners disk view lawful dir sig_path sig_name previous.immutable
                  t named)
                (λ done u (locked, rest). (
                  locked ∙ ap (relocked previous.immutable) new,
                  λ n other. rest n other ∙ others n other,
                ))
                (λ e u rest. λ n other. rest n other ∙ others n other)

  put_back-none :
      (previous : Previous) (s : disk.State)
      → Post
          (λ done t. (view.file t dir sig_name ≡ none) × SameElsewhere s t)
          (λ e t. SameElsewhere s t)
          (put_back fs owners disk sig_path dir sig_name previous none s)
  unfolding put_back
  put_back-none previous s =
      Post-attempt (disk.remove_file dir sig_name) (removed fs owners disk) s
        (lawful.remove_file_lem dir sig_name s)
        (λ done t (files, drafts). good (
          files sig_name ∙ rw (text_eq_refl sig_name) refl,
          λ n other. files n ∙ rw (text_eq-false n sig_name other) refl,
        ))
        λ e t (same, gone). elim (Bool-cases (is_not_found e.kind)) [
          | inl missing ↦
              rw missing (good (same.0 dir sig_name ∙ gone missing, λ n other. same.0 dir n))
          | inr there ↦ rw there (bad (λ n other. same.0 dir n))
        ]

  module _ (parent_dir : SecurePath) (same_dir : parent_dir.fd ≡ dir)
      (secured : secure_parent_directory fs owners sig_path
          (lit "signature destination parent directory")
        ≡ ok parent_dir)
      (has_name : file_name sig_path ≡ some sig_name) where
    -- From a state whose names but the signature's are those of the first one, the signature is put
    -- back.
    pub restore_signature_lem :
        (previous : Previous) (s t : disk.State)
        → previous.bytes ≡ content_of (view.file s dir sig_name)
        → Describes previous (view.file s dir sig_name)
        → SameElsewhere s t
        → Post
            (λ done u. (n : Text) → view.file u dir n ≡ view.file s dir n)
            (λ e u. SameElsewhere s u)
            (restore_signature fs owners disk sig_path previous t)
    unfolding restore_signature
    restore_signature_lem previous s t content d same =
        rw (secured, has_name, restore_signature) (rw same_dir (by_bytes previous.bytes refl))
      where
        everywhere :
            (u : disk.State)
            → view.file u dir sig_name ≡ view.file s dir sig_name
            → SameElsewhere t u
            → (n : Text) → view.file u dir n ≡ view.file s dir n
        everywhere u at_sig others n = elim (Bool-cases (text_eq n sig_name)) [
          | inl is_sig ↦
              let same_name : n ≡ sig_name = (text_eq_iff n sig_name).0 is_sig in
              rw same_name at_sig
          | inr other ↦
              let not_sig : n ≢ sig_name =
                λ e. (let said : text_eq n sig_name ≡ true = (text_eq_iff n sig_name).1 e in cc) in
              others n not_sig ∙ same n not_sig
        ]

        nothing : (old : Option File) → none ≡ content_of old → old ≡ none
        nothing none h = refl
        nothing (some f) h = cc

        by_bytes :
            (bytes : Option (List ℕ))
            → previous.bytes ≡ bytes
            → Post
                (λ done u. (n : Text) → view.file u dir n ≡ view.file s dir n)
                (λ e u. SameElsewhere s u)
                (put_back fs owners disk sig_path dir sig_name previous bytes t)
        by_bytes none e =
            (Post-weaken (put_back fs owners disk sig_path dir sig_name previous none t)
              (put_back-none previous t)
              (λ done u (gone, others).
                everywhere u (gone ∙ sym (nothing (view.file s dir sig_name) (sym e ∙ content)))
                  others)
              (λ failure u others. λ n other. others n other ∙ same n other))
        by_bytes (some bytes) e =
            (Post-weaken (put_back fs owners disk sig_path dir sig_name previous (some bytes) t)
              (put_back-some previous bytes t)
              (λ done u (again, others).
                everywhere u
                  (again
                    ∙ rebuilt previous (view.file s dir sig_name) bytes e content d
                        (λ f. lawful.mode_bits dir sig_name f s))
                  others)
              (λ failure u others. λ n other. others n other ∙ same n other))

    abbrev pub NotRolledBack : disk.State → Error → disk.State → Type 0
    NotRolledBack s e u =
        ((inner : Error) × (rollback : IoError) × (e
            ≡ rollback_failure fs owners disk sig_path inner rollback))
        × SameElsewhere s u

    pub run_with_signature_rollback_lem :
        (Q : disk.State → Type 0) (step : Step disk.State Error (Unit {0})) (previous : Previous)
        (s t : disk.State)
        → previous.bytes ≡ content_of (view.file s dir sig_name)
        → Describes previous (view.file s dir sig_name)
        → Post (λ done u. Q u) (λ e u. SameElsewhere s u) (step t)
        → Post
            (λ done u. Q u)
            (λ e u. ((n : Text) → view.file u dir n ≡ view.file s dir n) ⊎ NotRolledBack s e u)
            (run_with_signature_rollback fs owners disk sig_path previous step t)
    unfolding run_with_signature_rollback
    run_with_signature_rollback_lem Q step previous s t content d first =
        Post-attempt step (settled fs owners disk sig_path previous) t first (λ done u q. good q)
          λ e u same.
            Post-attempt (restore_signature fs owners disk sig_path previous)
              (rolled_back fs owners disk sig_path e) u
              (restore_signature_lem previous s u content d same) (λ done v again. bad (inl again))
              (λ rollback v others. bad (inr ((e, rollback, refl), others)))
