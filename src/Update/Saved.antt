-- ===== src/Update/Saved.antt =====
-- About what `install_update` (network.rs) reads of a file before it is replaced.
use secure_sudoers_setup.Base.{
  ℕ, suc, zero, ◌+◌, ◌%◌, Bool, true, false, ltb, List, [], ◌∷◌, Option, none, some, err, ◌≡◌, refl,
  ◌∙◌, sym, ap, inl, inr, Bool-cases, length, take, arith, ◌≤◌,
}
use secure_sudoers_setup.Text.{Text, lit}
use secure_sudoers_setup.Error.{Error, IoError}
use secure_sudoers_setup.Fs.{Fd}
use secure_sudoers_setup.Models.Validate.{is_not_found}
use secure_sudoers_setup.Steps.{
  Step, Post, good, bad, Post-bind, Post-attempt, Post-or_error, Post-weaken, or_error, pure,
  attempt, ◌>>=◌,
}
use secure_sudoers_setup.Disk.{Disk}
use secure_sudoers_setup.Disk.Laws.{File, View, IsLawful, Same, Same-refl, Same-trans, has_no_flags}
use secure_sudoers_setup.Update.Install.{
  opened, checked_signature, immutable_from, max_rollback_signature_bytes, or_false, Previous,
  read_existing_signature_for_rollback, read_existing_mode, read_existing_immutable,
  read_previous_signature, read_previous_policy, reading,
}

abbrev pub content_of : Option File → Option (List ℕ)
content_of none = none
content_of (some f) = some f.content

abbrev pub mode_of : Option File → Option ℕ
mode_of none = none
mode_of (some f) = some f.mode

abbrev pub immutable_of : Option File → Bool
immutable_of none = false
immutable_of (some f) = f.immutable

take-all : {A : Type 0} (n : ℕ) (xs : List A) → length (take (suc n) xs) ≤ n → take (suc n) xs ≡ xs
take-all n [] h = refl
take-all zero (x ∷ xs) h = absurd (omega arith)
take-all (suc n) (x ∷ xs) h = ap (λ ys. x ∷ ys) (take-all n xs (omega arith))

module _ (disk : Disk) (view : View disk) (lawful : IsLawful view) (dir : Fd) (name : Text) where
  -- What is read of a file that may be missing.
  read_opened :
      {A : Type 0} (Q : Option File → Option A → Type 0)
      (use_file : disk.Handle → Step disk.State IoError (Option A)) (s : disk.State)
      → Q none none
      → ((h : disk.Handle) (t : disk.State) (f : File)
          → view.at t h dir name
          → view.file t dir name ≡ some f
          → Post (λ r u. Same view t u × Q (some f) r) (λ e u. Same view t u) (use_file h t))
      → Post
          (λ r t. Same view s t × Q (view.file s dir name) r)
          (λ e t. Same view s t)
          (attempt (disk.open_read dir name) (opened disk use_file) s)
  read_opened {A} Q use_file s missing found =
      Post-attempt (disk.open_read dir name) (opened disk use_file) s
        (lawful.open_read_lem dir name s) present absent
    where
      present :
          (h : disk.Handle) (t : disk.State)
          → (Same view s t × view.at t h dir name × ((f : File) × (view.file s dir name ≡ some f)))
          → Post
              (λ r t. Same view s t × Q (view.file s dir name) r)
              (λ e t. Same view s t)
              (use_file h t)
      present h t (same, at, (f, e)) =
          Post-weaken (use_file h t) (found h t f at (same.0 dir name ∙ e))
            (λ r u (later, q). (Same-trans view same later, rw e q))
            (λ failure u later. Same-trans view same later)

      absent :
          (e : IoError) (t : disk.State)
          → (Same view s t × (is_not_found e.kind ≡ true → view.file s dir name ≡ none))
          → Post
              (λ r t. Same view s t × Q (view.file s dir name) r)
              (λ e t. Same view s t)
              (opened disk use_file (err e) t)
      absent e t (same, none_there) = elim (Bool-cases (is_not_found e.kind)) [
        | inl said ↦ rw said (good (same, rw (none_there said) missing))
        | inr unsaid ↦ rw unsaid (bad same)
      ]

  pub read_signature_lem :
      (s : disk.State)
      → Post
          (λ r t. Same view s t × (r ≡ content_of (view.file s dir name)))
          (λ e t. Same view s t)
          (read_existing_signature_for_rollback disk dir name s)
  unfolding read_existing_signature_for_rollback
  read_signature_lem s =
      read_opened (λ f r. r ≡ content_of f) _ s refl
        λ h t f at e.
          Post-bind (disk.read_up_to h (max_rollback_signature_bytes + 1)) (checked_signature disk)
            t (lawful.read_up_to_lem h (max_rollback_signature_bytes + 1) dir name f t at e)
            λ bytes u (same, same_bytes).
              elim (Bool-cases (ltb max_rollback_signature_bytes (length bytes))) [
                | inl long ↦ rw long (bad same)
                | inr short ↦
                    let small : length (take 1025 f.content) ≤ 1024 =
                      rw same_bytes at (not_long bytes short) in
                    rw short (good (same, ap some (same_bytes ∙ take-all 1024 f.content small)))
              ]
    where
      not_long : (bytes : List ℕ) → ltb 1024 (length bytes) ≡ false → length bytes ≤ 1024
      not_long bytes h = ground arith

  pub read_mode_lem :
      (s : disk.State)
      → Post
          (λ r t. Same view s t × (r ≡ mode_of (view.file s dir name)))
          (λ e t. Same view s t)
          (read_existing_mode disk dir name s)
  unfolding read_existing_mode
  read_mode_lem s =
      read_opened (λ f r. r ≡ mode_of f) _ s refl
        λ h t f at e.
          Post-bind (disk.mode h) (λ m. pure (some (m % 512))) t
            (lawful.mode_lem h dir name f t at e) λ m u (same, bits). good (same, ap some bits)

  pub read_immutable_lem :
      (s : disk.State)
      → Post
          (λ r t. Same view s t × (or_false r ≡ immutable_of (view.file s dir name)))
          (λ e t. Same view s t)
          (read_existing_immutable disk dir name s)
  unfolding read_existing_immutable
  read_immutable_lem s =
      read_opened (λ f r. or_false r ≡ immutable_of f) _ s refl
        λ h t f at e.
          Post-attempt (disk.get_flags h) (immutable_from disk) t
            (lawful.get_flags_lem h dir name f t at e)
            (λ flags u (same, still, bit). good (same, bit))
            λ failure u (same, without). elim (Bool-cases (has_no_flags failure.raw_os_error)) [
              | inl said ↦ rw said (good (same, sym (without said)))
              | inr unsaid ↦ rw unsaid (bad same)
            ]

-- What was read agrees with the file.
pub record Describes (previous : Previous) (file : Option File) : Type 0 where
  pub mode_agrees : previous.mode ≡ mode_of file
  pub immutable_agrees : previous.immutable ≡ immutable_of file

module _ (disk : Disk) (view : View disk) (lawful : IsLawful view) (dir : Fd) (name : Text) where
  abbrev Unchanged : disk.State → Error → disk.State → Type 0
  Unchanged s e t = Same view s t

  -- The reading of one property, with its error renamed, behind steps that change nothing.
  read_behind :
      {A B : Type 0} (Q : B → disk.State → Type 0) (P : Option File → A → Type 0)
      (f : IoError → Error) (step : Step disk.State IoError A) (next : A → Step disk.State Error B)
      (s t : disk.State)
      → Same view s t
      → ((u : disk.State)
          → Post
              (λ r v. Same view u v × P (view.file u dir name) r)
              (λ e v. Same view u v)
              (step u))
      → ((a : A) (u : disk.State)
          → Same view s u
          → P (view.file s dir name) a
          → Post Q (Unchanged s) (next a u))
      → Post Q (Unchanged s) ((or_error f step >>= next) t)
  read_behind Q P f step next s t same first rest =
      Post-bind {Q = λ r u. Same view s u × P (view.file s dir name) r} (or_error f step) next t
        (Post-or_error f step t
          (Post-weaken (step t) (first t)
            (λ a u (later, p). (Same-trans view same later, rw (← same.0 dir name) p))
            (λ e u later. Same-trans view same later))
          (λ e u h. h))
        (λ a u (h, p). rest a u h p)

  pub read_previous_signature_lem :
      (path : Text) (s : disk.State)
      → Post
          (λ previous t.
            Same view s t
            × (previous.bytes ≡ content_of (view.file s dir name))
            × Describes previous (view.file s dir name))
          (Unchanged s)
          (read_previous_signature disk path dir name s)
  unfolding read_previous_signature
  read_previous_signature_lem path s =
      read_behind _ (λ file r. r ≡ content_of file)
        (reading (lit "Failed to read existing signature at ") path)
        (read_existing_signature_for_rollback disk dir name) _ s s (Same-refl view s)
        (read_signature_lem disk view lawful dir name)
        λ bytes t same first.
          read_behind _ (λ file r. r ≡ mode_of file)
            (reading (lit "Cannot read metadata for ") path) (read_existing_mode disk dir name) _ s
            t same (read_mode_lem disk view lawful dir name)
            λ mode u same second.
              read_behind _ (λ file r. or_false r ≡ immutable_of file)
                (reading (lit "Cannot inspect immutable flag for ") path)
                (read_existing_immutable disk dir name) _ s u same
                (read_immutable_lem disk view lawful dir name)
                λ immutable v same third.
                  good (same, first, record { mode_agrees = second; immutable_agrees = third })

  pub read_previous_policy_lem :
      (path : Text) (s : disk.State)
      → Post
          (λ previous t. Same view s t × Describes previous (view.file s dir name))
          (Unchanged s)
          (read_previous_policy disk path dir name s)
  unfolding read_previous_policy
  read_previous_policy_lem path s =
      read_behind _ (λ file r. r ≡ mode_of file) (reading (lit "Cannot read metadata for ") path)
        (read_existing_mode disk dir name) _ s s (Same-refl view s)
        (read_mode_lem disk view lawful dir name)
        λ mode u same second.
          read_behind _ (λ file r. or_false r ≡ immutable_of file)
            (reading (lit "Cannot inspect immutable flag for ") path)
            (read_existing_immutable disk dir name) _ s u same
            (read_immutable_lem disk view lawful dir name)
            λ immutable v same third.
              good (same, record { mode_agrees = second; immutable_agrees = third })
