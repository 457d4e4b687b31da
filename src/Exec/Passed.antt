-- ===== src/Exec/Passed.antt =====
-- About `prepare_exec`, the first half of `execute_securely` (exec.rs): what the process is given.
use secure_sudoers_setup.Base.{
  ℕ, true, List, [], ◌∷◌, map, In, here, there, Option, none, some, Result, ok, err, ◌≡◌, refl, ◌↔◌,
  ◌⊎◌, inl, inr, Bool-cases, All,
}
use mathlib.Core.Path.{subst}
use secure_sudoers_setup.Text.{Text, lit, contains}
use secure_sudoers_setup.Error.{Error, io_context}
use secure_sudoers_setup.Fs.{Fd}
use secure_sudoers_setup.Models.{SecureSudoersPolicy}
use secure_sudoers_setup.Validator.Types.{ValidatedCommand, as_str}
use secure_sudoers_setup.Steps.{Step, Post, good, bad, or_error, answer, handled, continue, ◌>>=◌}
use secure_sudoers_setup.Calls.{Machine, History, call, dup}
use secure_sudoers_setup.Isolation.{setup_isolation}
use secure_sudoers_setup.Capabilities.Drop.{drop_capabilities}
use secure_sudoers_setup.Exec.Pins.{pin_validated_path_arguments}
use secure_sudoers_setup.Exec.{
  build_scrubbed_env, env_pair, c_env, binary_name, build_argv, ExecInput, unmarked, marked,
  prepare_exec,
}
use secure_sudoers_setup.Exec.Strings.{IsCString, c_env-ok, build_argv-ok}

-- A variable is kept exactly if it was set and its name is listed.
abbrev pub Keeps : List (Text × Text) → List (Text × Text) → List Text → Type 0
Keeps kept vars whitelist =
    (e : Text × Text) → In e kept ↔ (In e vars × (contains whitelist e.0 ≡ true))

none_in : {B : Type 0} {e : Text × Text} → In e [] → B
none_in i = elim i [ ]

first_or_later : {x e : Text × Text} {xs : List (Text × Text)} → In e (x ∷ xs) → (e ≡ x) ⊎ In e xs
first_or_later here = inl refl
first_or_later (there i) = inr i

kept_forth :
    (vars : List (Text × Text)) (whitelist : List Text) (e : Text × Text)
    → In e (build_scrubbed_env vars whitelist)
    → In e vars × (contains whitelist e.0 ≡ true)
unfolding build_scrubbed_env
kept_forth [] whitelist e i = none_in i
kept_forth ((k, v) ∷ vars) whitelist e i = elim (Bool-cases (contains whitelist k)) [
  | inl listed ↦
      head_or listed (kept_forth vars whitelist e)
        (first_or_later (subst (λ (xs : List (Text × Text)). In e xs) (rw listed refl) i))
  | inr unlisted ↦ after (
      kept_forth vars whitelist e
        (subst (λ (xs : List (Text × Text)). In e xs) (rw unlisted refl) i))
]
  where
    after :
        In e vars × (contains whitelist e.0 ≡ true)
        → In e ((k, v) ∷ vars) × (contains whitelist e.0 ≡ true)
    after (j, c) = (there j, c)

    head_or :
        contains whitelist k ≡ true
        → (In e (build_scrubbed_env vars whitelist) → In e vars × (contains whitelist e.0 ≡ true))
        → (e ≡ (k, v)) ⊎ In e (build_scrubbed_env vars whitelist)
        → In e ((k, v) ∷ vars) × (contains whitelist e.0 ≡ true)
    head_or listed later (inl same) = rw same (here, listed)
    head_or listed later (inr j) = after (later j)

kept_back :
    (vars : List (Text × Text)) (whitelist : List Text) (e : Text × Text)
    → In e vars
    → contains whitelist e.0 ≡ true
    → In e (build_scrubbed_env vars whitelist)
unfolding build_scrubbed_env
kept_back [] whitelist e i listed = none_in i
kept_back ((k, v) ∷ vars) whitelist e here listed = rw listed here
kept_back ((k, v) ∷ vars) whitelist e (there i) listed = elim (Bool-cases (contains whitelist k)) [
  | inl c ↦ rw c (there (kept_back vars whitelist e i listed))
  | inr c ↦ rw c (kept_back vars whitelist e i listed)
]

-- What the process is given: the name of the binary and the arguments, and the variables that are kept.
pub data IsPassed (cmd : ValidatedCommand) (vars : List (Text × Text)) (p : ExecInput)
    : Type 0 where
  passed :
      (p.argv ≡ binary_name cmd.binary ∷ map as_str cmd.args)
      → All IsCString p.argv
      → Keeps p.envp vars cmd.env_whitelist
      → All (λ (e : Text × Text). IsCString (env_pair e)) p.envp
      → IsPassed cmd vars p

module _ (m : Machine) where
  -- What follows a step whose failures are marked.
  after_marked :
      {A B : Type 0} {Q : B → History → Type 0} (stage_fd : Option Fd) (step : Step History Error A)
      (onwards : A → Step History Error B) (h : History)
      → ((a : A) (g : History) → step h ≡ (ok a, g) → Post Q (λ e t. Unit) (onwards a g))
      → Post Q (λ e t. Unit) ((marked m stage_fd step >>= onwards) h)
  after_marked {A} {B} {Q} stage_fd step onwards h rest = behind stage_fd (step h) refl
    where
      behind :
          (fd : Option Fd) (q : Result Error A × History)
          → step h ≡ q
          → Post Q (λ e t. Unit) (continue (handled q (unmarked m fd)) onwards)
      behind fd (ok a, g) e = rest a g e
      behind none (err x, g) e = bad tt
      behind (some fd) (err x, g) e = bad tt

  answered :
      {A : Type 0} (r : Result Error A) (a : A) (h g : History) → answer r h ≡ (ok a, g) → r ≡ ok a
  answered (ok b) a h g e = cc
  answered (err x) a h g e = cc

  prepare_exec_post :
      (cmd : ValidatedCommand) (policy : SecureSudoersPolicy) (vars : List (Text × Text))
      (stage_fd : Option Fd) (h : History)
      → Post (λ p t. IsPassed cmd vars p) (λ e t. Unit) (prepare_exec m cmd policy vars stage_fd h)
  unfolding prepare_exec
  prepare_exec_post cmd policy vars stage_fd h =
      after_marked stage_fd
        (or_error (io_context (lit "failed to duplicate binary file descriptor"))
          (call m (dup cmd.binary.fd)))
        _ h
        λ fd g1 e1.
          after_marked stage_fd
            (setup_isolation m cmd.isolation policy.global_settings.blocked_paths) _ g1
            λ u2 g2 e2. after_marked stage_fd (pin_validated_path_arguments m cmd) _ g2 λ u3 g3 e3.
              after_marked stage_fd (drop_capabilities m) _ g3 λ u4 g4 e4.
                after_marked stage_fd (answer (build_argv cmd)) _ g4 λ argv g5 e5.
                  after_marked stage_fd (answer (c_env (build_scrubbed_env vars cmd.env_whitelist)))
                    _ g5
                    λ envp g6 e6. good (
                      both (build_argv-ok cmd argv (answered (build_argv cmd) argv g4 g5 e5)) (
                        c_env-ok (build_scrubbed_env vars cmd.env_whitelist) envp
                          (answered _ envp g5 g6 e6)))
    where
      both :
          {fd : ℕ} {argv : List Text} {envp : List (Text × Text)}
          → (argv ≡ binary_name cmd.binary ∷ map as_str cmd.args) × All IsCString argv
          → (envp ≡ build_scrubbed_env vars cmd.env_whitelist)
            × All (λ (e : Text × Text). IsCString (env_pair e)) envp
          → IsPassed cmd vars (record { binary_fd = fd; argv = argv; envp = envp })
      both (a, b) (c, d) =
          passed a b
            (λ x. rw c (
              kept_forth vars cmd.env_whitelist x,
              λ (i, l). kept_back vars cmd.env_whitelist x i l,
            ))
            d

  -- If `prepare_exec` succeeds, `argv` is the name of the binary and the validated arguments, the
  -- environment consists of exactly those variables of the process whose names are in the command's
  -- whitelist, and none of these texts holds a NUL byte.
  pub prepare_exec-IsPassed :
      (cmd : ValidatedCommand) (policy : SecureSudoersPolicy) (vars : List (Text × Text))
      (stage_fd : Option Fd) (p : ExecInput) (h t : History)
      → prepare_exec m cmd policy vars stage_fd h ≡ (ok p, t)
      → IsPassed cmd vars p
  prepare_exec-IsPassed cmd policy vars stage_fd p h t e = behind (
      subst
        (λ (q : Result Error ExecInput × History).
          Post (λ p t. IsPassed cmd vars p) (λ e t. Unit) q)
        e (prepare_exec_post cmd policy vars stage_fd h))
    where
      behind :
          Post {S = History} {E = Error} {A = ExecInput}
            (λ p t. IsPassed cmd vars p)
            (λ e t. Unit)
            (ok p, t)
          → IsPassed cmd vars p
      behind (good x) = x
