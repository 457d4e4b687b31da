-- ===== src/Isolation/Added.antt =====
-- About the mounts of one path (isolation/mounts.rs).
use secure_sudoers_setup.Base.{
  Bool, true, false, not, [], ◌∷◌, ◌++◌, append_assoc, ◌≡◌, refl, ◌∙◌, inl, inr, Bool-cases,
}
use secure_sudoers_setup.Text.{Text}
use secure_sudoers_setup.Error.{io}
use secure_sudoers_setup.Steps.{bad, Post-weaken}
use secure_sudoers_setup.Calls.{History, Machine, mount}
use secure_sudoers_setup.Calls.Selected.{select, Extends-trans, Quiet, Quiet-trans}
use secure_sudoers_setup.Isolation.Guard.{
  is_dir, same_file, fstat_for_fd, safe_traverse, ensure_path_matches_fd_with_stat,
}
use secure_sudoers_setup.Isolation.Quiet.{
  IsForeign, fstat_for_fd-Unselected, safe_traverse-Unselected, ensure_with_stat-Unselected,
}
use secure_sudoers_setup.Isolation.Mounts.{
  tmpfs_at, null_at, self_bind, readonly_at, mount_shadow_fd, mount_blocked, mount_private,
  mount_readonly,
}
use secure_sudoers_setup.Isolation.Mounted.{
  is_mount, is_mount-IsForeign, Adds, IsPrivate, IsShadowed, IsReadonly, private, directory, file,
  readonly, after, after_mount, mount_lem, one_mount,
}

module _ (m : Machine) where
  F : IsForeign is_mount
  F = is_mount-IsForeign

  pub private_lem :
      (path : Text) (h : History) → Adds m (λ t. IsPrivate m t path) h (mount_private m path h)
  unfolding mount_private
  private_lem path h =
      after m (safe_traverse m path false) _ h (safe_traverse-Unselected m is_mount F path false h)
        λ fd g e same.
          after m (ensure_path_matches_fd_with_stat m path fd) _ g
            (ensure_with_stat-Unselected m is_mount F path fd g)
            λ st k tested same_later.
              Post-weaken _ (mount_lem m io (tmpfs_at fd) k)
                (λ done t f.
                  let (chosen, made, longer) =
                    one_mount m (tmpfs_at fd) h k t (Quiet-trans is_mount h g k same same_later)
                      f in
                  (mount (tmpfs_at fd) ∷ [], chosen, private h g k fd st e tested made, longer))
                (λ e t u. tt)

  pub blocked_lem :
      (path : Text) (h : History) → Adds m (λ t. IsShadowed m t path) h (mount_blocked m path h)
  unfolding mount_blocked mount_shadow_fd
  blocked_lem path h =
      after m (safe_traverse m path true) _ h (safe_traverse-Unselected m is_mount F path true h)
        λ fd g e same.
          after m (fstat_for_fd m fd path) _ g (fstat_for_fd-Unselected m is_mount F fd path g)
            λ st k found same_stat.
              after m (ensure_path_matches_fd_with_stat m path fd) _ k
                (ensure_with_stat-Unselected m is_mount F path fd k)
                λ st' l tested same_later.
                  let quiet : Quiet is_mount h l =
                    Quiet-trans is_mount h g l same
                      (Quiet-trans is_mount g k l same_stat same_later) in
                  elim (Bool-cases (is_dir st)) [
                    | inl dir ↦ rw dir (
                        Post-weaken _ (mount_lem m _ (tmpfs_at fd) l)
                          (λ done t f.
                            let (chosen, made, longer) = one_mount m (tmpfs_at fd) h l t quiet f in
                            (
                              mount (tmpfs_at fd) ∷ [],
                              chosen,
                              directory h g k l fd st st' e found dir tested made,
                              longer,
                            ))
                          (λ e t u. tt))
                    | inr other ↦ rw other (
                        Post-weaken _ (mount_lem m _ (null_at fd) l)
                          (λ done t f.
                            let (chosen, made, longer) = one_mount m (null_at fd) h l t quiet f in
                            (
                              mount (null_at fd) ∷ [],
                              chosen,
                              file h g k l fd st st' e found other tested made,
                              longer,
                            ))
                          (λ e t u. tt))
                  ]

  not-false : (b : Bool) → not b ≡ false → b ≡ true
  not-false true e = refl
  not-false false e = cc

  pub readonly_lem :
      (path : Text) (h : History) → Adds m (λ t. IsReadonly m t path) h (mount_readonly m path h)
  unfolding mount_readonly
  readonly_lem path h =
      after m (safe_traverse m path false) _ h (safe_traverse-Unselected m is_mount F path false h)
        λ fd g e same.
          after m (ensure_path_matches_fd_with_stat m path fd) _ g
            (ensure_with_stat-Unselected m is_mount F path fd g)
            λ st k tested same_stat. after_mount m (self_bind fd) _ k λ n.
              let bound : History = k ++ mount (self_bind fd) ∷ [] in
              let (chosen, made, longer) =
                one_mount m (self_bind fd) h k bound (Quiet-trans is_mount h g k same same_stat)
                  refl in
              after m (safe_traverse m path false) _ bound
                (safe_traverse-Unselected m is_mount F path false bound)
                λ again o e' same_walk.
                  after m (ensure_path_matches_fd_with_stat m path again) _ o
                    (ensure_with_stat-Unselected m is_mount F path again o)
                    λ st' q tested_again same_test. elim (Bool-cases (not (same_file st st'))) [
                      | inl moved ↦ rw moved (bad tt)
                      | inr fine ↦ rw fine (
                          Post-weaken _ (mount_lem m io (readonly_at again) q)
                            (λ done t f.
                              let (later, remade, onwards) =
                                one_mount m (readonly_at again) bound q t
                                  (Quiet-trans is_mount bound o q same_walk same_test) f in
                              (
                                mount (self_bind fd) ∷ mount (readonly_at again) ∷ [],
                                later ∙ rw chosen (append_assoc (select is_mount h) _ _),
                                readonly h g k o q fd again st st' e tested
                                    (Extends-trans _ bound t made onwards) e' tested_again
                                    (not-false (same_file st st') fine) remade,
                                Extends-trans h bound t longer onwards,
                              ))
                            (λ e t u. tt))
                    ]
