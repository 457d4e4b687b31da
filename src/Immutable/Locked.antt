-- ===== src/Immutable/Locked.antt =====
-- About `chattr_op` (installer/immutable.rs).
use secure_sudoers_setup.Base.{
  ℕ, Bool, true, false, ◌==◌, ==_iff, List, [], ◌∷◌, Option, none, some, Result, ok, err, ◌≡◌, refl,
  ◌∙◌, sym, ap, ◌⊎◌, inl, inr, Bool-cases, All, In, here, there, if◌then◌else◌, arith,
}
use secure_sudoers_setup.Text.{Text, lit, text_eq}
use secure_sudoers_setup.Text.Laws.{text_eq_refl, text_eq_iff}
use secure_sudoers_setup.Fs.{Fd, FileSystem}
use secure_sudoers_setup.Steps.{Post, good, bad, Post-bind, Post-or_error, Post-weaken, or_error}
use secure_sudoers_setup.Disk.{Disk}
use secure_sudoers_setup.Disk.Laws.{
  File, View, IsLawful, Same, SameDrafts, Same-refl, Same-trans, SameDraft-trans, has_immutable,
  set_flags_one_name,
}
use secure_sudoers_setup.Immutable.Target.{
  ImmutableOpError, locate, with_immutable_bit, open_failure,
}
use secure_sudoers_setup.Immutable.{
  write_flags, open_verified_target, apply_immutable_flag, noted, chattr_each, chattr_op,
}

abbrev pub lock : Bool → Option File → Option File
lock b none = none
lock b (some f) = some (record f { immutable = b })

lock-lock : (b : Bool) (o : Option File) → lock b (lock b o) ≡ lock b o
lock-lock b none = refl
lock-lock b (some f) = refl

pub has_immutable-with : (flags : ℕ) (b : Bool) → has_immutable (with_immutable_bit flags b) ≡ b
has_immutable-with flags true = ground arith
has_immutable-with flags false = ground arith

module _ (fs : FileSystem) (disk : Disk) (view : View disk) (lawful : IsLawful view) (dir : Fd)
    (b : Bool) where
  -- The path stands for this name of the directory.
  abbrev pub Names : Text → Text → Type 0
  Names path name = locate fs path ≡ ok (dir, name)

  -- The files are what they were, but for one whose flag is what was asked for.
  abbrev Flagged : Text → disk.State → disk.State → Type 0
  Flagged name s t =
      ((n : Text)
        → view.file t dir n
          ≡ (if text_eq n name then lock b (view.file s dir name) else view.file s dir n))
      × SameDrafts view s t

  lock-same : (o : Option File) (f : File) → o ≡ some f → f.immutable ≡ b → lock b o ≡ o
  lock-same o f e flag = rw e (ap (λ (i : Bool). some (record f { immutable = i })) (sym flag))

  unmoved :
      (name : Text) (s t : disk.State) (f : File)
      → Same view s t
      → view.file s dir name ≡ some f
      → f.immutable ≡ b
      → Flagged name s t
  unmoved name s t f same e flag = (
    λ n. elim (Bool-cases (text_eq n name)) [
      | inl here_it_is ↦ rw here_it_is (
          same.0 dir n
          ∙ ap (view.file s dir) ((text_eq_iff n name).0 here_it_is)
          ∙ sym (lock-same (view.file s dir name) f e flag))
      | inr other ↦ rw other (same.0 dir n)
    ],
    same.1,
  )

  -- The last two steps, on the flags that were read.
  write_back :
      (path name : Text) (h : disk.Handle) (f : File) (flags : ℕ) (s : disk.State)
      → view.at s h dir name
      → view.file s dir name ≡ some f
      → has_immutable flags ≡ f.immutable
      → Post
          (λ done t. Flagged name s t)
          (λ e t. Same view s t)
          (write_flags fs disk path h b flags s)
  write_back path name h f flags s at e agrees =
      elim (Bool-cases (with_immutable_bit flags b == flags)) [
        | inl kept ↦ rw kept (
            good (
              unmoved name s s f (Same-refl view s) e (
                sym agrees
                ∙ ap has_immutable (sym ((==_iff _ flags).0 kept))
                ∙ has_immutable-with flags b)))
        | inr changed ↦ rw changed (
            Post-or_error _ (disk.set_flags h (with_immutable_bit flags b)) s
              (Post-weaken (disk.set_flags h (with_immutable_bit flags b) s)
                (set_flags_one_name view lawful h (with_immutable_bit flags b) dir name f s at e)
                (λ done t (files, drafts). (λ n. files n ∙ flagged n, drafts))
                (λ failure t same. same))
              (λ failure t same. same))
      ]
    where
      flagged :
          (n : Text)
          → (if text_eq n name
              then some (record f { immutable = has_immutable (with_immutable_bit flags b) })
              else view.file s dir n)
            ≡ (if text_eq n name then lock b (view.file s dir name) else view.file s dir n)
      flagged n = rw (e, has_immutable-with flags b) refl

  Flagged-behind :
      {s t u : disk.State} (name : Text) → Same view s t → Flagged name t u → Flagged name s u
  Flagged-behind name same (files, drafts) = (
    λ n. files n ∙ rw (same.0 dir name, same.0 dir n) refl,
    λ tmp. SameDraft-trans view tmp (same.1 tmp) (drafts tmp),
  )

  opened_lem :
      (path name : Text) (s : disk.State)
      → Names path name
      → Post
          (λ h t.
            Same view s t × view.at t h dir name × ((f : File) × (view.file s dir name ≡ some f)))
          (λ e t. Same view s t)
          (open_verified_target fs disk path s)
  unfolding open_verified_target
  opened_lem path name s named =
      rw (named, open_verified_target)
        (Post-or_error (open_failure path) (disk.open_read dir name) s
          (Post-weaken (disk.open_read dir name s) (lawful.open_read_lem dir name s)
            (λ h t found. found) (λ e t missing. missing.0))
          (λ e t same. same))

  apply_immutable_flag_lem :
      (path name : Text) (s : disk.State)
      → Names path name
      → Post
          (λ done t. Flagged name s t)
          (λ e t. Same view s t)
          (apply_immutable_flag fs disk path b s)
  unfolding apply_immutable_flag
  apply_immutable_flag_lem path name s named =
      Post-bind (open_verified_target fs disk path) _ s (opened_lem path name s named)
        λ h t (same, at, (f, e)).
          Post-bind
            {Q = λ flags u.
              Same view s u × view.at u h dir name × (has_immutable flags ≡ f.immutable)}
            (or_error _ (disk.get_flags h)) (write_flags fs disk path h b) t
            (Post-or_error _ (disk.get_flags h) t
              (Post-weaken (disk.get_flags h t)
                (lawful.get_flags_lem h dir name f t at (same.0 dir name ∙ e))
                (λ flags u (later, still, agrees). (Same-trans view same later, still, agrees))
                (λ failure u (later, without). Same-trans view same later))
              (λ failure u all. all))
            λ flags u (all, still, agrees).
              Post-weaken (write_flags fs disk path h b flags u)
                (write_back path name h f flags u still (all.0 dir name ∙ e) agrees)
                (λ done v flagged. Flagged-behind name all flagged)
                (λ failure v later. Same-trans view all later)

  -- What a run over the paths comes to.
  pub record Outcome (paths : List Text) (s : disk.State) (p : List Text × disk.State)
      : Type 0 where
    pub only_targets :
        (n : Text)
        → (view.file p.1 dir n ≡ view.file s dir n)
          ⊎ ((path : Text) × In path paths
              × Names path n
              × (view.file p.1 dir n ≡ lock b (view.file s dir n)))
    pub all_flagged :
        b ≡ true
        → p.0 ≡ []
        → (path n : Text) → In path paths
        → Names path n
        → view.file p.1 dir n ≡ lock b (view.file s dir n)
    pub drafts : SameDrafts view s p.1

  -- One step at a name.
  abbrev Moved : Text → disk.State → disk.State → Type 0
  Moved path s t =
      (n : Text)
      → (view.file t dir n ≡ view.file s dir n)
        ⊎ (Names path n × (view.file t dir n ≡ lock b (view.file s dir n)))

  Flagged-Moved :
      (path name : Text) (s t : disk.State) → Names path name → Flagged name s t → Moved path s t
  Flagged-Moved path name s t named (files, drafts) n = elim (Bool-cases (text_eq n name)) [
    | inl same ↦
        let same_name : n ≡ name = (text_eq_iff n name).0 same in
        inr (
          rw same_name named,
          files n ∙ rw same (ap (λ m. lock b (view.file s dir m)) (sym same_name)),
        )
    | inr other ↦ inl (files n ∙ rw other refl)
  ]

  Outcome-cons :
      (path : Text) (paths : List Text) (s t : disk.State) (errors : List Text)
      (p : List Text × disk.State)
      → Moved path s t
      → SameDrafts view s t
      → Outcome paths t p
      → (b ≡ true
          → errors ≡ []
          → (p.0 ≡ [])
            × ((n : Text) → Names path n → view.file t dir n ≡ lock b (view.file s dir n)))
      → Outcome (path ∷ paths) s (errors, p.1)
  Outcome-cons path paths s t errors p moved drafts rest clean = record {
    only_targets = λ n. joined n (moved n) (rest.only_targets n);
    all_flagged =
        λ up none_failed target n m named. flagged up (clean up none_failed) target n m named refl;
    drafts = λ tmp. SameDraft-trans view tmp (drafts tmp) (rest.drafts tmp);
  }
    where
      joined :
          (n : Text)
          → (view.file t dir n ≡ view.file s dir n)
            ⊎ (Names path n × (view.file t dir n ≡ lock b (view.file s dir n)))
          → (view.file p.1 dir n ≡ view.file t dir n)
            ⊎ ((target : Text) × In target paths
                × Names target n
                × (view.file p.1 dir n ≡ lock b (view.file t dir n)))
          → (view.file p.1 dir n ≡ view.file s dir n)
            ⊎ ((target : Text) × In target (path ∷ paths)
                × Names target n
                × (view.file p.1 dir n ≡ lock b (view.file s dir n)))
      joined n (inl e) (inl f) = inl (f ∙ e)
      joined n (inl e) (inr (target, m, named, f)) = inr (target, there m, named, f ∙ ap (lock b) e)
      joined n (inr (named, e)) (inl f) = inr (path, here, named, f ∙ e)
      joined n (inr (named, e)) (inr (target, m, other, f)) =
          inr (path, here, named, f ∙ ap (lock b) e ∙ lock-lock b _)

      -- What is flagged stays so.
      settled :
          (n : Text)
          → view.file t dir n ≡ lock b (view.file s dir n)
          → (view.file p.1 dir n ≡ view.file t dir n)
            ⊎ ((target : Text) × In target paths
                × Names target n
                × (view.file p.1 dir n ≡ lock b (view.file t dir n)))
          → view.file p.1 dir n ≡ lock b (view.file s dir n)
      settled n e (inl f) = f ∙ e
      settled n e (inr (target, m, named, f)) = f ∙ ap (lock b) e ∙ lock-lock b _

      later_flagged :
          (n : Text)
          → view.file p.1 dir n ≡ lock b (view.file t dir n)
          → (view.file t dir n ≡ view.file s dir n)
            ⊎ (Names path n × (view.file t dir n ≡ lock b (view.file s dir n)))
          → view.file p.1 dir n ≡ lock b (view.file s dir n)
      later_flagged n f (inl e) = f ∙ ap (lock b) e
      later_flagged n f (inr (named, e)) = f ∙ ap (lock b) e ∙ lock-lock b _

      flagged :
          b ≡ true
          → (p.0 ≡ [])
            × ((n : Text) → Names path n → view.file t dir n ≡ lock b (view.file s dir n))
          → (target n : Text) {all : List Text} → In target all
          → Names target n
          → all ≡ path ∷ paths
          → view.file p.1 dir n ≡ lock b (view.file s dir n)
      flagged up (none_later, first) target n here named same =
          let at_path : target ≡ path = cc in
          settled n (first n (rw at_path at named)) (rest.only_targets n)
      flagged up (none_later, first) target n (there {xs = xs} m) named same =
          let behind : xs ≡ paths = cc in
          later_flagged n (rest.all_flagged up none_later target n (rw behind at m) named) (moved n)

  noted-nil :
      (path name : Text) (paths : List Text) (s : disk.State)
      (p : Result ImmutableOpError Unit × disk.State) (q : List Text × disk.State)
      → Names path name
      → Post (λ done t. Flagged name s t) (λ e t. Same view s t) p
      → Outcome paths p.1 q
      → Outcome (path ∷ paths) s (noted fs disk b p.0 q.0, q.1)
  noted-nil path name paths s (ok done, t) q named (good h) rest =
      Outcome-cons path paths s t q.0 q (Flagged-Moved path name s t named h) h.1 rest
        λ up none_failed. (none_failed, λ n other. by_name n (same_name n other) h)
    where
      same_name : (n : Text) → Names path n → n ≡ name
      same_name n other = cc

      by_name :
          (n : Text) → n ≡ name → Flagged name s t → view.file t dir n ≡ lock b (view.file s dir n)
      by_name n e (files, drafts) = rw e (files name ∙ rw (text_eq_refl name) refl)
  noted-nil path name paths s (err e, t) q named (bad h) rest =
      Outcome-cons path paths s t _ q (λ n. inl (h.0 dir n)) h.1 rest
        λ up none_failed. absurd (loud up none_failed)
    where
      loud : b ≡ true → noted fs disk b (err e) q.0 ≡ [] → ⊥
      loud up none_failed = let nothing : e.message ∷ q.0 ≡ [] = rw up at none_failed in cc

  chattr_each-Outcome :
      (paths : List Text) (s : disk.State)
      → All (λ (path : Text). (name : Text) × Names path name) paths
      → Outcome paths s (chattr_each fs disk b paths s)
  unfolding chattr_each
  chattr_each-Outcome [] s all = record {
    only_targets = λ n. inl refl;
    all_flagged = λ up none_failed path n m. elim m [ ];
    drafts = λ tmp h. (h, refl);
  }
  chattr_each-Outcome (path ∷ paths) s ((name, named), all) =
      noted-nil path name paths s (apply_immutable_flag fs disk path b s) _ named
        (apply_immutable_flag_lem path name s named)
        (chattr_each-Outcome paths (apply_immutable_flag fs disk path b s).1 all)

module _ (fs : FileSystem) (disk : Disk) (view : View disk) (lawful : IsLawful view)
    (dir : Fd) where
  -- Where no two names stand for one file and the targets lie in one directory, `chattr_op "+i"` changes nothing but the flag of targets,
  -- and if it reports no error, every target that is there is immutable afterwards.
  pub chattr_op-Outcome :
      (paths : List Text) (s : disk.State)
      → All (λ (path : Text). (name : Text) × Names fs disk view lawful dir true path name) paths
      → Outcome fs disk view lawful dir true paths s (chattr_op fs disk (lit "+i") paths s)
  unfolding chattr_op chattr_each lit text_eq
  chattr_op-Outcome [] s all = chattr_each-Outcome fs disk view lawful dir true [] s all
  chattr_op-Outcome (path ∷ paths) s all =
      chattr_each-Outcome fs disk view lawful dir true (path ∷ paths) s all
