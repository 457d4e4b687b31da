-- ===== src/Disk/Memory.antt =====
-- A disk in memory that meets the assumptions: a file with the immutable flag is neither replaced nor
-- removed, and a file system without flags is not modelled.
use secure_sudoers_setup.Base.{
  ℕ, ◌+◌, ◌%◌, ◌<◌, ◌&&◌, ◌==◌, ==_iff, Bool, true, false, [], ◌++◌, Option, none, some, Result, ok,
  err, ◌≡◌, ◌≢◌, refl, ◌∙◌, ap, take, if◌then◌else◌, inl, inr, Bool-cases, Option-cases, arith,
}
use secure_sudoers_setup.Text.{Text, text_eq}
use secure_sudoers_setup.Text.Laws.{text_eq_iff, text_eq-false}
use secure_sudoers_setup.Error.{IoError, ErrorKind, not_found}
use secure_sudoers_setup.Fs.{Fd}
use secure_sudoers_setup.Models.Validate.{is_not_found}
use secure_sudoers_setup.Steps.{Post, good, bad}
use secure_sudoers_setup.Disk.{Disk}
use secure_sudoers_setup.Disk.Laws.{File, View, IsLawful, has_immutable}

pub record Memory : Type 0 where
  pub files : Fd → Text → Option File
  pub drafts : ℕ → File
  pub next : ℕ

abbrev absent : IoError
absent = record { kind = not_found; raw_os_error = some 2; message = [] }

abbrev refused : IoError
refused = record { kind = ErrorKind.permission_denied; raw_os_error = some 1; message = [] }

abbrev set_file : Fd → Text → Option File → Memory → Memory
set_file fd name o s = record s {
  files = λ fd' n. if fd' == fd && text_eq n name then o else s.files fd' n;
}

abbrev set_draft : ℕ → File → Memory → Memory
set_draft tmp f s = record s { drafts = λ i. if i == tmp then f else s.drafts i }

abbrev with_file :
    {A : Type 0}
    → Option File
    → (File → Result IoError A × Memory)
    → Memory
    → Result IoError A × Memory
with_file none use_file s = (err absent, s)
with_file (some f) use_file s = use_file f

abbrev flags_of : Bool → ℕ
flags_of true = 16
flags_of false = 0

abbrev is_locked : Option File → Bool
is_locked none = false
is_locked (some f) = f.immutable

abbrev empty_file : File
empty_file = record { content = []; mode = 384; immutable = false }

abbrev pub memory_disk : Disk
memory_disk = record {
  State = Memory;
  Handle = Fd × Text;
  Temp = ℕ;
  open_read = λ fd name s. with_file (s.files fd name) (λ f. (ok (fd, name), s)) s;
  read_up_to = λ h n s. with_file (s.files h.0 h.1) (λ f. (ok (take n f.content), s)) s;
  mode = λ h s. with_file (s.files h.0 h.1) (λ f. (ok f.mode, s)) s;
  get_flags = λ h s. with_file (s.files h.0 h.1) (λ f. (ok (flags_of f.immutable), s)) s;
  set_flags = λ h flags s.
      with_file (s.files h.0 h.1)
        (λ f. (ok tt, set_file h.0 h.1 (some (record f { immutable = has_immutable flags })) s)) s;
  new_in = λ fd s. (ok s.next, record (set_draft s.next empty_file s) { next = s.next + 1 });
  write_all = λ tmp bytes s. (
    ok tt,
    set_draft tmp (record (s.drafts tmp) { content = (s.drafts tmp).content ++ bytes }) s,
  );
  sync_all = λ tmp s. (ok tt, s);
  set_permissions = λ tmp m s. (ok tt, set_draft tmp (record (s.drafts tmp) { mode = m }) s);
  persist = λ tmp fd name s.
      if is_locked (s.files fd name)
      then (err refused, s)
      else (ok tt, set_file fd name (some (s.drafts tmp)) s);
  remove_file = λ fd name s.
      with_file (s.files fd name)
        (λ f. if f.immutable then (err refused, s) else (ok tt, set_file fd name none s)) s;
  read_to_string = λ path s. (err absent, s);
}

-- The permission bits.
abbrev bits : File → File
bits f = record f { mode = f.mode % 512 }

abbrev seen : Option File → Option File
seen none = none
seen (some f) = some (bits f)

abbrev pub memory_view : View memory_disk
memory_view = record {
  Inode = Fd × Text;
  inode = λ s fd name. some (fd, name);
  file = λ s fd name. seen (s.files fd name);
  draft = λ s tmp. bits (s.drafts tmp);
  live = λ s tmp. tmp < s.next;
  at = λ s h fd name. h ≡ (fd, name);
}

below_512 : (m : ℕ) → m % 512 < 512
below_512 m = omega arith

seen-some :
    (o : Option File) (f : File) → seen o ≡ some f → (g : File) × (o ≡ some g) × (bits g ≡ f)
seen-some none f e = absurd cc
seen-some (some g) f e = (g, refl, cc)

-- A file that is read through a handle.
abbrev through :
    {A : Type 0} (Q : A → Memory → Type 0) (R : IoError → Memory → Type 0)
    (use_file : File → Result IoError A × Memory) (h : Fd × Text) (fd : Fd) (name : Text) (f : File)
    (s : Memory)
    → h ≡ (fd, name)
    → seen (s.files fd name) ≡ some f
    → ((g : File) → bits g ≡ f → Post Q R (use_file g))
    → Post Q R (with_file (s.files h.0 h.1) use_file s)
through Q R use_file h fd name f s at e rest =
    let (g, found, same) = seen-some (s.files fd name) f e in rw at (rw found (rest g same))

set_file-files :
    (fd : Fd) (name : Text) (o : Option File) (s : Memory) (n : Text)
    → seen ((set_file fd name o s).files fd n)
      ≡ (if text_eq n name then seen o else seen (s.files fd n))
set_file-files fd name o s n =
    rw ((==_iff fd fd).1 refl)
      (elim (Bool-cases (text_eq n name)) [ inl e ↦ rw e refl | inr e ↦ rw e refl ])

set_draft_self : (tmp : ℕ) (f : File) (s : Memory) → (set_draft tmp f s).drafts tmp ≡ f
set_draft_self tmp f s = rw ((==_iff tmp tmp).1 refl) refl

set_draft_other :
    (tmp other : ℕ) (f : File) (s : Memory)
    → other ≢ tmp
    → (set_draft tmp f s).drafts other ≡ s.drafts other
set_draft_other tmp other f s h = elim (Bool-cases (other == tmp)) [
  | inl e ↦ absurd (h ((==_iff other tmp).0 e))
  | inr e ↦ rw e refl
]

pub memory_view-IsLawful : IsLawful memory_view
memory_view-IsLawful = record {
  one_name = λ fd n name f s e linked. cc;
  mode_bits = λ fd name f s e.
      let (g, found, same) = seen-some (s.files fd name) f e in rw (← same) (below_512 g.mode);
  open_read_lem = λ fd name s. elim (Option-cases (s.files fd name)) [
    | inl e ↦ rw e (bad ((λ d n. refl, λ tmp h. (h, refl)), λ k. refl))
    | inr (f, e) ↦ rw e (good ((λ d n. refl, λ tmp h. (h, refl)), refl, (bits f, refl)))
  ];
  read_up_to_lem = λ h n fd name f s at e.
      through _ _ _ h fd name f s at e λ g same.
        good ((λ d n. refl, λ tmp h. (h, refl)), ap (λ (x : File). take n x.content) same);
  mode_lem = λ h fd name f s at e.
      through _ _ _ h fd name f s at e
        λ g same. good ((λ d n. refl, λ tmp h. (h, refl)), ap (λ (x : File). x.mode) same);
  get_flags_lem = λ h fd name f s at e. through _ _ _ h fd name f s at e λ g same. good (
    (λ d n. refl, λ tmp h. (h, refl)),
    at,
    flags_back g.immutable ∙ ap (λ (x : File). x.immutable) same,
  );
  set_flags_lem = λ h flags fd name f s at e.
      let (g, found, same) = seen-some (s.files fd name) f e in
      rw at (
        rw found (
          good (
            (λ n. (
              λ linked. flagged_self fd name f g flags s same n cc,
              λ other.
                  flagged_other fd name g flags s n
                    (λ e'. other (ap (λ (x : Text). some (fd, x)) e')),
            )),
            λ tmp h. (h, refl),
          )));
  new_in_lem = λ fd s. good (
    (
      λ d n. refl,
      λ tmp alive. (
        omega (arith, alive),
        ap bits (set_draft_other s.next tmp empty_file s (not_next tmp s.next alive)),
      ),
    ),
    (λ h. not_below s.next h),
    below_suc s.next,
    ap bits (set_draft_self s.next empty_file s),
  );
  write_all_lem = λ tmp bytes s alive. good (
    (
      λ d n. refl,
      λ other different alive_other. (
        alive_other,
        ap bits (
            set_draft_other tmp other
              (record (s.drafts tmp) { content = (s.drafts tmp).content ++ bytes }) s different),
      ),
    ),
    alive,
    ap bits (
        set_draft_self tmp (record (s.drafts tmp) { content = (s.drafts tmp).content ++ bytes }) s),
  );
  sync_all_lem = λ tmp s. good (λ d n. refl, λ tmp h. (h, refl));
  set_permissions_lem = λ tmp m s alive. good (
    (
      λ d n. refl,
      λ other different alive_other. (
        alive_other,
        ap bits (set_draft_other tmp other (record (s.drafts tmp) { mode = m }) s different),
      ),
    ),
    alive,
    ap bits (set_draft_self tmp (record (s.drafts tmp) { mode = m }) s),
  );
  persist_lem = λ tmp fd name s alive. elim (Bool-cases (is_locked (s.files fd name))) [
    | inl e ↦ rw e (bad (λ d n. refl))
    | inr e ↦
        rw e (good (set_file-files fd name (some (s.drafts tmp)) s, λ other different h. (h, refl)))
  ];
  remove_file_lem = λ fd name s. elim (Option-cases (s.files fd name)) [
    | inl e ↦ rw e (bad ((λ d n. refl, λ tmp h. (h, refl)), λ k. refl))
    | inr (f, e) ↦ rw e (removed fd name f s)
  ];
  read_to_string_lem = λ path s. bad (λ d n. refl, λ tmp h. (h, refl));
}
  where
    flags_back : (b : Bool) → has_immutable (flags_of b) ≡ b
    flags_back true = refl
    flags_back false = refl

    not_below : (n : ℕ) → n < n → ⊥
    not_below n h = omega arith

    below_suc : (n : ℕ) → n < n + 1
    below_suc n = omega arith

    not_next : (tmp next : ℕ) → tmp < next → tmp ≢ next
    not_next tmp next h e = omega arith

    flagged :
        (fd : Fd) (name : Text) (f g : File) (flags : ℕ) (s : Memory)
        → bits g ≡ f
        → (n : Text)
        → seen
            ((set_file fd name (some (record g { immutable = has_immutable flags })) s).files fd n)
          ≡ (if text_eq n name
              then some (record f { immutable = has_immutable flags })
              else seen (s.files fd n))
    flagged fd name f g flags s same n =
        rw (← same)
          (set_file-files fd name (some (record g { immutable = has_immutable flags })) s n)

    flagged_self :
        (fd : Fd) (name : Text) (f g : File) (flags : ℕ) (s : Memory)
        → bits g ≡ f
        → (n : Text) → n ≡ name
        → seen
            ((set_file fd name (some (record g { immutable = has_immutable flags })) s).files fd n)
          ≡ some (record f { immutable = has_immutable flags })
    flagged_self fd name f g flags s same n e =
        flagged fd name f g flags s same n ∙ rw ((text_eq_iff n name).1 e) refl

    flagged_other :
        (fd : Fd) (name : Text) (g : File) (flags : ℕ) (s : Memory) (n : Text)
        → n ≢ name
        → seen
            ((set_file fd name (some (record g { immutable = has_immutable flags })) s).files fd n)
          ≡ seen (s.files fd n)
    flagged_other fd name g flags s n other =
        flagged fd name (bits g) g flags s refl n ∙ rw (text_eq-false n name other) refl

    removed :
        (fd : Fd) (name : Text) (f : File) (s : Memory)
        → Post
            (λ done t.
              ((n : Text)
                → seen (t.files fd n) ≡ (if text_eq n name then none else seen (s.files fd n)))
              × ((tmp : ℕ)
                  → tmp < s.next
                  → (tmp < t.next) × (bits (t.drafts tmp) ≡ bits (s.drafts tmp))))
            (λ e t.
              (((d : Fd) (n : Text) → seen (t.files d n) ≡ seen (s.files d n))
                × ((tmp : ℕ)
                    → tmp < s.next
                    → (tmp < t.next) × (bits (t.drafts tmp) ≡ bits (s.drafts tmp))))
              × (is_not_found e.kind ≡ true → some (bits f) ≡ none))
            (if f.immutable then (err refused, s) else (ok tt, set_file fd name none s))
    removed fd name f s = elim (Bool-cases f.immutable) [
      | inl e ↦ rw e (bad ((λ d n. refl, λ tmp h. (h, refl)), λ k. cc))
      | inr e ↦ rw e (good (set_file-files fd name none s, λ tmp h. (h, refl)))
    ]
