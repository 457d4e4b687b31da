-- ===== src/Update/Drafts.antt =====
-- About the temporary files of `install_update` and `restore_signature` (network.rs).
use secure_sudoers_setup.Base.{ℕ, ◌%◌, false, List, [], some, ◌≡◌, refl, ◌∙◌}
use secure_sudoers_setup.Text.{Text}
use secure_sudoers_setup.Fs.{Fd}
use secure_sudoers_setup.Steps.{Post, good, Post-bind, Post-or_error, Post-weaken, or_error}
use secure_sudoers_setup.Disk.{Disk}
use secure_sudoers_setup.Disk.Laws.{File, View, IsLawful, Same, SameFiles, SameBut, Same-trans}
use secure_sudoers_setup.Update.Install.{write_temp, apply_mode_if_present}

abbrev pub fresh_file : List ℕ → ℕ → File
fresh_file bytes mode = record { content = bytes; mode = mode; immutable = false }

module _ (disk : Disk) (view : View disk) (lawful : IsLawful view) where
  -- A temporary file that was not there before, with this in it; all else is the same.
  pub record Drafted (s t : disk.State) (tmp : disk.Temp) (file : File) : Type 0 where
    pub same : Same view s t
    pub fresh : ¬ view.live s tmp
    pub live : view.live t tmp
    pub holds : view.draft t tmp ≡ file

  -- A change of a file that is not there before changes nothing that is.
  fresh-Same :
      (s t u : disk.State) (tmp : disk.Temp)
      → Same view s t
      → ¬ view.live s tmp
      → SameBut view tmp t u
      → Same view s u
  fresh-Same s t u tmp (files, drafts) fresh (files_later, drafts_later) = (
    λ fd n. files_later fd n ∙ files fd n,
    λ other alive.
        let (still, held) = drafts other alive in
        let (later, held_later) =
          drafts_later other (λ same_one. fresh (rw same_one at alive)) still in
        (later, held_later ∙ held),
  )

  pub new_in-Drafted :
      (dir : Fd) (s : disk.State)
      → Post
          (λ tmp t. Drafted s t tmp (fresh_file [] 384))
          (λ e t. SameFiles view s t)
          (disk.new_in dir s)
  new_in-Drafted dir s =
      Post-weaken (disk.new_in dir s) (lawful.new_in_lem dir s)
        (λ tmp t (same, fresh, live, holds). record {
          same = same;
          fresh = fresh;
          live = live;
          holds = holds;
        })
        (λ e t same. same.0)

  pub write_all-Drafted :
      (s t : disk.State) (tmp : disk.Temp) (mode : ℕ) (bytes : List ℕ)
      → Drafted s t tmp (fresh_file [] mode)
      → Post
          (λ done u. Drafted s u tmp (fresh_file bytes mode))
          (λ e u. SameFiles view s u)
          (disk.write_all tmp bytes t)
  write_all-Drafted s t tmp mode bytes d =
      Post-weaken (disk.write_all tmp bytes t) (lawful.write_all_lem tmp bytes t d.live)
        (λ done u (same, live, holds). record {
          same = fresh-Same s t u tmp d.same d.fresh same;
          fresh = d.fresh;
          live = live;
          holds = holds ∙ rw d.holds refl;
        })
        (λ e u same. (fresh-Same s t u tmp d.same d.fresh same).0)

  pub set_permissions-Drafted :
      (s t : disk.State) (tmp : disk.Temp) (old mode : ℕ) (bytes : List ℕ)
      → Drafted s t tmp (fresh_file bytes old)
      → Post
          (λ done u. Drafted s u tmp (fresh_file bytes (mode % 512)))
          (λ e u. SameFiles view s u)
          (apply_mode_if_present disk tmp (some mode) t)
  unfolding apply_mode_if_present
  set_permissions-Drafted s t tmp old mode bytes d =
      Post-weaken (disk.set_permissions tmp mode t) (lawful.set_permissions_lem tmp mode t d.live)
        (λ done u (same, live, holds). record {
          same = fresh-Same s t u tmp d.same d.fresh same;
          fresh = d.fresh;
          live = live;
          holds = holds ∙ rw d.holds refl;
        })
        (λ e u same. (fresh-Same s t u tmp d.same d.fresh same).0)

  pub sync_all-Drafted :
      (s t : disk.State) (tmp : disk.Temp) (file : File)
      → Drafted s t tmp file
      → Post (λ done u. Drafted s u tmp file) (λ e u. SameFiles view s u) (disk.sync_all tmp t)
  sync_all-Drafted s t tmp file d =
      Post-weaken (disk.sync_all tmp t) (lawful.sync_all_lem tmp t)
        (λ done u later. record {
          same = Same-trans view d.same later;
          fresh = d.fresh;
          live = (later.1 tmp d.live).0;
          holds = (later.1 tmp d.live).1 ∙ d.holds;
        })
        (λ e u later. (Same-trans view d.same later).0)

  pub write_temp-Drafted :
      (dir : Fd) (what where_to : Text) (bytes : List ℕ) (mode : ℕ) (s : disk.State)
      → Post
          (λ tmp t. Drafted s t tmp (fresh_file bytes (mode % 512)))
          (λ e t. SameFiles view s t)
          (write_temp disk dir what where_to bytes (some mode) s)
  unfolding write_temp
  write_temp-Drafted dir what where_to bytes mode s =
      Post-bind {Q = λ tmp t. Drafted s t tmp (fresh_file [] 384)} (or_error _ (disk.new_in dir)) _
        s (Post-or_error _ (disk.new_in dir) s (new_in-Drafted dir s) (λ e t h. h))
        λ tmp t empty.
          Post-bind {Q = λ done u. Drafted s u tmp (fresh_file bytes 384)}
            (or_error _ (disk.write_all tmp bytes)) _ t
            (Post-or_error _ (disk.write_all tmp bytes) t
              (write_all-Drafted s t tmp 384 bytes empty) (λ e u h. h))
            λ done u written.
              Post-bind {Q = λ done v. Drafted s v tmp (fresh_file bytes 384)}
                (or_error _ (disk.sync_all tmp)) _ u
                (Post-or_error _ (disk.sync_all tmp) u (sync_all-Drafted s u tmp _ written)
                  (λ e v h. h))
                λ done v synced.
                  Post-bind {Q = λ done w. Drafted s w tmp (fresh_file bytes (mode % 512))}
                    (or_error _ (apply_mode_if_present disk tmp (some mode))) _ v
                    (Post-or_error _ (apply_mode_if_present disk tmp (some mode)) v
                      (set_permissions-Drafted s v tmp 384 mode bytes synced) (λ e w h. h))
                    λ done w moded. good moded
