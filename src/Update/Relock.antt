-- ===== src/Update/Relock.antt =====
-- About `restore_immutable_if_needed` and the lock of a restored signature (network.rs).
use secure_sudoers_setup.Base.{
  Bool, true, false, List, [], ◌∷◌, Option, ◌≡◌, ◌≢◌, refl, sym, ◌⊎◌, inl, inr, In, here, there,
}
use secure_sudoers_setup.Text.{Text, lit}
use secure_sudoers_setup.Error.{Error}
use secure_sudoers_setup.Fs.{Fd, FileSystem}
use secure_sudoers_setup.PathSecurity.{Owners}
use secure_sudoers_setup.Steps.{Post, good, bad}
use secure_sudoers_setup.Disk.{Disk}
use secure_sudoers_setup.Disk.Laws.{File, View, IsLawful}
use secure_sudoers_setup.Immutable.{chattr_op}
use secure_sudoers_setup.Immutable.Locked.{lock, Names, Outcome, chattr_op-Outcome}
use secure_sudoers_setup.Update.Install.{
  restore_immutable_if_needed, lock_failure, lock_again, signature_lock_failure, outcome_of,
  targets_of,
}

-- The flag is set if it was.
abbrev pub relocked : Bool → Option File → Option File
relocked true o = lock true o
relocked false o = o

only-one : {A : Type 0} {a b : A} → In a (b ∷ []) → a ≡ b
only-one here = refl
only-one (there m) = elim m [ ]

one-of-two : {A : Type 0} {a b c : A} → In a (b ∷ c ∷ []) → (a ≡ b) ⊎ (a ≡ c)
one-of-two here = inl refl
one-of-two (there m) = inr (only-one m)

module _ (fs : FileSystem) (owners : Owners) (disk : Disk) (view : View disk)
    (lawful : IsLawful view) (dir : Fd) where
  abbrev N : Text → Text → Type 0
  N = Names fs disk view lawful dir true

  one_name : (path name n : Text) → N path name → N path n → n ≡ name
  one_name path name n first second = cc

  -- What setting flags comes to at a name: nothing, or the flag.
  abbrev pub Flags : disk.State → disk.State → Text → Type 0
  Flags s t n =
      (view.file t dir n ≡ view.file s dir n) ⊎ (view.file t dir n ≡ lock true (view.file s dir n))

  -- One path that is locked again.
  pub lock_again_lem :
      (path name : Text) (was : Bool) (s : disk.State)
      → N path name
      → Post
          (λ done t.
            (view.file t dir name ≡ relocked was (view.file s dir name))
            × ((n : Text) → n ≢ name → view.file t dir n ≡ view.file s dir n))
          (λ e t. (n : Text) → n ≢ name → view.file t dir n ≡ view.file s dir n)
          (lock_again fs owners disk path was s)
  lock_again_lem path name false s named = good (refl, λ n other. refl)
  lock_again_lem path name true s named =
      outcome_of-Outcome (chattr_op fs disk (lit "+i") (path ∷ []) s)
        (chattr_op-Outcome fs disk view lawful dir (path ∷ []) s ((name, named), tt))
    where
      elsewhere :
          (p : List Text × disk.State)
          → Outcome fs disk view lawful dir true (path ∷ []) s p
          → (n : Text) → n ≢ name
          → view.file p.1 dir n ≡ view.file s dir n
      elsewhere p o n other = elim (o.only_targets n) [
        | inl same ↦ same
        | inr (target, m, target_named, e) ↦
            absurd (other (one_name path name n named (rw (only-one m) at target_named)))
      ]

      outcome_of-Outcome :
          (p : List Text × disk.State)
          → Outcome fs disk view lawful dir true (path ∷ []) s p
          → Post
              (λ done t.
                (view.file t dir name ≡ relocked true (view.file s dir name))
                × ((n : Text) → n ≢ name → view.file t dir n ≡ view.file s dir n))
              (λ e t. (n : Text) → n ≢ name → view.file t dir n ≡ view.file s dir n)
              (outcome_of fs owners disk (signature_lock_failure fs owners disk) p)
      outcome_of-Outcome ([], t) o =
          good (o.all_flagged refl refl path name here named, elsewhere _ o)
      outcome_of-Outcome (e ∷ errors, t) o = bad (elsewhere _ o)

  module _ (sig_path policy_path sig_name policy_name : Text) (sig_named : N sig_path sig_name)
      (policy_named : N policy_path policy_name) (distinct : sig_name ≢ policy_name) where
    -- Every name but the two stands for what it stood for.
    abbrev pub Others : disk.State → disk.State → Type 0
    Others s t = (n : Text) → n ≢ sig_name → n ≢ policy_name → view.file t dir n ≡ view.file s dir n

    abbrev IsTarget : Bool → Bool → Text → Type 0
    IsTarget sig_was policy_was n =
        ((n ≡ sig_name) × (sig_was ≡ true)) ⊎ ((n ≡ policy_name) × (policy_was ≡ true))

    target_lem :
        (sig_was policy_was : Bool) (target n : Text)
        → In target (targets_of sig_path policy_path sig_was policy_was)
        → N target n
        → IsTarget sig_was policy_was n
    target_lem false false target n m named = elim m [ ]
    target_lem true false target n m named =
        inl (one_name sig_path sig_name n sig_named (rw (only-one m) at named), refl)
    target_lem false true target n m named =
        inr (one_name policy_path policy_name n policy_named (rw (only-one m) at named), refl)
    target_lem true true target n m named = elim (one-of-two m) [
      | inl first ↦ inl (one_name sig_path sig_name n sig_named (rw first at named), refl)
      | inr second ↦
          inr (one_name policy_path policy_name n policy_named (rw second at named), refl)
    ]

    abbrev Relocked : Bool → Bool → disk.State → disk.State → Type 0
    Relocked sig_was policy_was s t =
        (view.file t dir sig_name ≡ relocked sig_was (view.file s dir sig_name))
        × (view.file t dir policy_name ≡ relocked policy_was (view.file s dir policy_name))
        × Others s t

    abbrev Failed : disk.State → Error → disk.State → Type 0
    Failed s e t =
        ((errors : List Text) × (e ≡ lock_failure fs owners disk errors))
        × ((n : Text) → Flags s t n)
        × Others s t

    module _ (sig_was policy_was : Bool) (s : disk.State) (p : List Text × disk.State)
        (o : Outcome fs disk view lawful dir true
          (targets_of sig_path policy_path sig_was policy_was)
          s
          p) where
      target-Flags : (n : Text) → Flags s p.1 n
      target-Flags n = elim (o.only_targets n) [
        | inl same ↦ inl same
        | inr (target, m, named, e) ↦ inr e
      ]

      Others-same : Others s p.1
      Others-same n not_sig not_policy = elim (o.only_targets n) [
        | inl same ↦ same
        | inr (target, m, named, e) ↦ elim (target_lem sig_was policy_was target n m named) [
          | inl (is_sig, was) ↦ absurd (not_sig is_sig)
          | inr (is_policy, was) ↦ absurd (not_policy is_policy)
        ]
      ]

      -- A name whose file was not locked is left.
      left_alone :
          (n : Text) → ¬ IsTarget sig_was policy_was n → view.file p.1 dir n ≡ view.file s dir n
      left_alone n no_target = elim (o.only_targets n) [
        | inl same ↦ same
        | inr (target, m, named, e) ↦
            absurd (no_target (target_lem sig_was policy_was target n m named))
      ]

    sig_lem :
        (sig_was policy_was : Bool) (s : disk.State) (p : List Text × disk.State)
        → Outcome fs disk view lawful dir true
            (targets_of sig_path policy_path sig_was policy_was)
            s
            p
        → p.0 ≡ []
        → view.file p.1 dir sig_name ≡ relocked sig_was (view.file s dir sig_name)
    sig_lem true policy_was s p o none_failed =
        o.all_flagged refl none_failed sig_path sig_name here sig_named
    sig_lem false policy_was s p o none_failed =
        left_alone false policy_was s p o sig_name
          λ t. elim t [ inl (e, was) ↦ cc | inr (e, was) ↦ distinct e ]

    policy_lem :
        (sig_was policy_was : Bool) (s : disk.State) (p : List Text × disk.State)
        → Outcome fs disk view lawful dir true
            (targets_of sig_path policy_path sig_was policy_was)
            s
            p
        → p.0 ≡ []
        → view.file p.1 dir policy_name ≡ relocked policy_was (view.file s dir policy_name)
    policy_lem false true s p o none_failed =
        o.all_flagged refl none_failed policy_path policy_name here policy_named
    policy_lem true true s p o none_failed =
        o.all_flagged refl none_failed policy_path policy_name (there here) policy_named
    policy_lem sig_was false s p o none_failed =
        left_alone sig_was false s p o policy_name
          λ t. elim t [ inl (e, was) ↦ distinct (sym e) | inr (e, was) ↦ cc ]

    outcome_of-Outcome :
        (sig_was policy_was : Bool) (s : disk.State) (p : List Text × disk.State)
        → Outcome fs disk view lawful dir true
            (targets_of sig_path policy_path sig_was policy_was)
            s
            p
        → Post
            (λ done t. Relocked sig_was policy_was s t)
            (λ e t. Failed s e t)
            (outcome_of fs owners disk (lock_failure fs owners disk) p)
    outcome_of-Outcome sig_was policy_was s ([], t) o = good (
      sig_lem sig_was policy_was s ([], t) o refl,
      policy_lem sig_was policy_was s ([], t) o refl,
      Others-same sig_was policy_was s ([], t) o,
    )
    outcome_of-Outcome sig_was policy_was s (e ∷ errors, t) o = bad (
      (e ∷ errors, refl),
      target-Flags sig_was policy_was s (e ∷ errors, t) o,
      Others-same sig_was policy_was s (e ∷ errors, t) o,
    )

    pub restore_immutable_lem :
        (sig_was policy_was : Bool) (s : disk.State)
        → Post
            (λ done t. Relocked sig_was policy_was s t)
            (λ e t. Failed s e t)
            (restore_immutable_if_needed fs owners disk sig_path policy_path sig_was policy_was s)
    unfolding restore_immutable_if_needed
    restore_immutable_lem false false s = good (refl, refl, λ n p q. refl)
    restore_immutable_lem true false s =
        outcome_of-Outcome true false s _
          (chattr_op-Outcome fs disk view lawful dir (sig_path ∷ []) s ((sig_name, sig_named), tt))
    restore_immutable_lem false true s = outcome_of-Outcome false true s _ (
        chattr_op-Outcome fs disk view lawful dir (policy_path ∷ []) s
          ((policy_name, policy_named), tt))
    restore_immutable_lem true true s = outcome_of-Outcome true true s _ (
        chattr_op-Outcome fs disk view lawful dir (sig_path ∷ policy_path ∷ []) s
          ((sig_name, sig_named), ((policy_name, policy_named), tt)))
