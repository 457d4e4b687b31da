-- ===== src/Update/Installed.antt =====
-- About `install_update` (network.rs) in the directory that it has opened.
use secure_sudoers_setup.Base.{
  ℕ, ◌%◌, Bool, true, List, ◌++◌, some, ok, ◌≡◌, ◌≢◌, ◌∙◌, ap, ◌⊎◌, inl, inr,
}
use secure_sudoers_setup.Text.{Text, lit, show}
use secure_sudoers_setup.Error.{Error}
use secure_sudoers_setup.Path.{file_name}
use secure_sudoers_setup.Fs.{Fd, FileSystem, SecurePath}
use secure_sudoers_setup.PathSecurity.{Owners, secure_parent_directory}
use secure_sudoers_setup.Steps.{Post, Post-bind, Post-weaken, ◌>>=◌, ◌>>◌}
use secure_sudoers_setup.Disk.{Disk}
use secure_sudoers_setup.Disk.Laws.{File, View, IsLawful, Same, Same-trans}
use secure_sudoers_setup.Immutable.Locked.{lock, Names}
use secure_sudoers_setup.Update.Install.{
  Previous, mode_or, replace_both, write_temp, read_previous_signature, read_previous_policy,
  restore_immutable_if_needed, install_in,
}
use secure_sudoers_setup.Update.Saved.{
  content_of, mode_of, Describes, read_previous_signature_lem, read_previous_policy_lem,
}
use secure_sudoers_setup.Update.Drafts.{Drafted, fresh_file, write_temp-Drafted}
use secure_sudoers_setup.Update.Relock.{restore_immutable_lem}
use secure_sudoers_setup.Update.Rollback.{mode_number, mode_or_lem}
use secure_sudoers_setup.Update.Replaced.{
  with_sig, Installed, Failed, kept, not_locked, Both, relocked-some, replace_both_lem,
}

module _ (fs : FileSystem) (owners : Owners) (disk : Disk) (view : View disk)
    (lawful : IsLawful view) (dir : Fd) (policy_path policy_name : Text)
    (policy_bytes sig_bytes : List ℕ) where
  abbrev P : Text
  P = with_sig policy_path

  abbrev S : Text
  S = with_sig policy_name

  abbrev Done : disk.State → disk.State → Type 0
  Done = Installed fs owners disk view lawful dir policy_path policy_name policy_bytes sig_bytes

  abbrev Bad : disk.State → Error → disk.State → Type 0
  Bad = Failed fs owners disk view lawful dir policy_path policy_name policy_bytes sig_bytes

  abbrev fresh_sig : disk.State → File
  fresh_sig s = fresh_file sig_bytes (mode_number (mode_of (view.file s dir S)) % 512)

  abbrev fresh_policy : disk.State → File
  fresh_policy s =
      fresh_file policy_bytes (mode_number (mode_of (view.file s dir policy_name)) % 512)

  module _ (sig_named : Names fs disk view lawful dir true P S)
      (policy_named : Names fs disk view lawful dir true policy_path policy_name)
      (distinct : S ≢ policy_name) where
    some_flag :
        (n : Text) (t u : disk.State) (f : File)
        → view.file t dir n ≡ some f
        → (view.file u dir n ≡ view.file t dir n)
          ⊎ (view.file u dir n ≡ lock true (view.file t dir n))
        → (flag : Bool) × (view.file u dir n ≡ some (record f { immutable = flag }))
    some_flag n t u f e (inl same) = (f.immutable, same ∙ e)
    some_flag n t u f e (inr locked) = (true, locked ∙ ap (lock true) e)

    -- The flags that were there are set again on the new files.
    lock_both_lem :
        (sig policy : Previous) (s t : disk.State)
        → Describes sig (view.file s dir S)
        → Describes policy (view.file s dir policy_name)
        → Both disk view dir S policy_name s t (fresh_sig s) (fresh_policy s)
        → Post
            (λ done u. Done s u)
            (λ e u. Bad s e u)
            (restore_immutable_if_needed fs owners disk P policy_path sig.immutable policy.immutable
              t)
    lock_both_lem sig policy s t d_sig d_policy (at_sig, at_policy, others) =
        Post-weaken
          (restore_immutable_if_needed fs owners disk P policy_path sig.immutable policy.immutable
            t)
          (restore_immutable_lem fs owners disk view lawful dir P policy_path S policy_name
            sig_named policy_named distinct sig.immutable policy.immutable t)
          (λ done u (sig_locked, policy_locked, rest). record {
            signature =
                sig_locked
                ∙ rw at_sig (relocked-some sig.immutable _ sig_bytes _ d_sig.immutable_agrees);
            policy =
                policy_locked
                ∙ rw at_policy
                    (relocked-some policy.immutable _ policy_bytes _ d_policy.immutable_agrees);
            others = λ n p q. rest n p q ∙ others n p q;
          })
          (λ e u ((errors, is_failure), flags, rest).
            let (sig_flag, sig_new) = some_flag S t u (fresh_sig s) at_sig (flags S) in
            let (policy_flag, policy_new) =
              some_flag policy_name t u (fresh_policy s) at_policy (flags policy_name) in
            not_locked errors sig_flag policy_flag is_failure (record {
              signature = sig_new;
              policy = policy_new;
              others = λ n p q. rest n p q ∙ others n p q;
            }))

    module _ (parent_dir : SecurePath) (same_dir : parent_dir.fd ≡ dir)
        (secured : secure_parent_directory fs owners P
            (lit "signature destination parent directory")
          ≡ ok parent_dir)
        (has_name : file_name P ≡ some S) where
      two_drafts :
          (s t u : disk.State) (a b : disk.Temp) (f g : File)
          → Drafted disk view lawful s t a f
          → Drafted disk view lawful t u b g
          → view.live u a × (view.draft u a ≡ f) × (b ≢ a)
      two_drafts s t u a b f g first second =
          let (live, holds) = second.same.1 a first.live in
          (live, holds ∙ first.holds, λ e. second.fresh (rw e first.live))

      pub install_in_lem :
          (s : disk.State)
          → Post
              (λ done u. Done s u)
              (λ e u. Bad s e u)
              (install_in fs owners disk policy_path policy_bytes sig_bytes dir policy_name s)
      unfolding install_in
      install_in_lem s =
          Post-bind
            {Q = λ sig t.
              Same view s t
              × (sig.bytes ≡ content_of (view.file s dir S))
              × Describes sig (view.file s dir S)}
            (read_previous_signature disk P dir S) _ s
            (Post-weaken (read_previous_signature disk P dir S s)
              (read_previous_signature_lem disk view lawful dir S P s) (λ sig t h. h)
              (λ e t same. kept (same.0 dir)))
            λ sig t (same, content, d_sig).
              Post-bind
                {Q = λ policy u. Same view s u × Describes policy (view.file s dir policy_name)}
                (read_previous_policy disk policy_path dir policy_name) _ t
                (Post-weaken (read_previous_policy disk policy_path dir policy_name t)
                  (read_previous_policy_lem disk view lawful dir policy_name policy_path t)
                  (λ policy u (later, d).
                    (Same-trans view same later, rw (← same.0 dir policy_name) d))
                  (λ e u later. kept ((Same-trans view same later).0 dir)))
                λ policy u (all, d_policy). with_drafts sig policy u all content d_sig d_policy
        where
          with_drafts :
              (sig policy : Previous) (u : disk.State)
              → Same view s u
              → sig.bytes ≡ content_of (view.file s dir S)
              → Describes sig (view.file s dir S)
              → Describes policy (view.file s dir policy_name)
              → Post
                  (λ done v. Done s v)
                  (λ e v. Bad s e v)
                  ((write_temp disk dir
                        (lit "sig")
                        (lit "/proc/self/fd/" ++ show dir)
                        sig_bytes
                        (mode_or sig.mode)
                      >>= (λ tmp_sig.
                          write_temp disk dir
                            (lit "policy")
                            (lit "/proc/self/fd/" ++ show dir)
                            policy_bytes
                            (mode_or policy.mode)
                          >>= (λ tmp_policy.
                              replace_both fs owners disk P dir S policy_name sig tmp_sig tmp_policy
                              >> restore_immutable_if_needed fs owners disk P policy_path
                                  sig.immutable policy.immutable)))
                    u)
          with_drafts sig policy u all content d_sig d_policy =
              let moded : mode_or sig.mode ≡ some (mode_number (mode_of (view.file s dir S))) =
                ap mode_or d_sig.mode_agrees ∙ mode_or_lem (mode_of (view.file s dir S)) in
              let moded_policy : mode_or policy.mode
                  ≡ some (mode_number (mode_of (view.file s dir policy_name))) =
                ap mode_or d_policy.mode_agrees
                ∙ mode_or_lem (mode_of (view.file s dir policy_name)) in
              Post-bind {Q = λ tmp v. Drafted disk view lawful u v tmp (fresh_sig s)}
                (write_temp disk dir (lit "sig") (lit "/proc/self/fd/" ++ show dir) sig_bytes
                  (mode_or sig.mode))
                _ u
                (rw moded (
                  Post-weaken _
                    (write_temp-Drafted disk view lawful dir (lit "sig")
                      (lit "/proc/self/fd/" ++ show dir) sig_bytes
                      (mode_number (mode_of (view.file s dir S))) u)
                    (λ tmp v h. h) (λ e v same. kept λ n. same dir n ∙ all.0 dir n)))
                λ tmp_sig v first.
                  Post-bind {Q = λ tmp w. Drafted disk view lawful v w tmp (fresh_policy s)}
                    (write_temp disk dir (lit "policy") (lit "/proc/self/fd/" ++ show dir)
                      policy_bytes (mode_or policy.mode))
                    _ v
                    (rw moded_policy (
                      Post-weaken _
                        (write_temp-Drafted disk view lawful dir (lit "policy")
                          (lit "/proc/self/fd/" ++ show dir) policy_bytes
                          (mode_number (mode_of (view.file s dir policy_name))) v)
                        (λ tmp w h. h)
                        (λ e w same.
                          kept λ n. same dir n ∙ (Same-trans view all first.same).0 dir n)))
                    λ tmp_policy w second.
                      let (live, holds, two) =
                        two_drafts u v w tmp_sig tmp_policy (fresh_sig s) (fresh_policy s) first
                          second in
                      Post-bind
                        (replace_both fs owners disk P dir S policy_name sig tmp_sig tmp_policy) _ w
                        (replace_both_lem fs owners disk view lawful dir policy_path policy_name
                          policy_bytes sig_bytes sig_named policy_named distinct parent_dir same_dir
                          secured has_name sig tmp_sig tmp_policy (fresh_sig s) (fresh_policy s) s w
                          (Same-trans view (Same-trans view all first.same) second.same).0 content
                          d_sig live holds second.live second.holds two)
                        λ done x both. lock_both_lem sig policy s x d_sig d_policy both
