-- ===== src/Validator/Env.antt =====
-- The environment variables that a granted command keeps.
use secure_sudoers_setup.Base.{
  Bool, true, false, not, ◌&&◌, ◌||◌, List, [], ◌∷◌, ◌++◌, some, Result, ok, err, ◌≡◌, refl, arith,
  Bool-cases, inl, inr, ◌∙◌,
}
use secure_sudoers_setup.Text.{Text, contains}
use secure_sudoers_setup.Text.Laws.{text_eq_iff}
use secure_sudoers_setup.Map.{get}
use secure_sudoers_setup.Fs.{FileSystem}
use secure_sudoers_setup.Regex.{RegexEngine}
use secure_sudoers_setup.Models.{ToolPolicy, SecureSudoersPolicy}
use secure_sudoers_setup.Validator.Types.{ValidatedArg, ValidationResult, ValidationDenial}
use secure_sudoers_setup.Validator.Command.{
  merge_env, validate_command, prepare, Prepared, run_args, run_prepared, assemble,
}
use secure_sudoers_setup.Validator.Sound.{prepare-IsPrepared, finish_with-ok}

-- No text stands twice.
unfoldable pub is_distinct : List Text → Bool
is_distinct [] = true
is_distinct (x ∷ xs) = not (contains xs x) && is_distinct xs

contains-append :
    (xs ys : List Text) (k : Text) → contains (xs ++ ys) k ≡ contains xs k || contains ys k
unfolding contains
contains-append [] ys k = refl
contains-append (x ∷ xs) ys k = ground (arith, contains-append xs ys k)

is_distinct-append :
    (xs : List Text) (k : Text)
    → contains xs k ≡ false
    → is_distinct xs ≡ true
    → is_distinct (xs ++ k ∷ []) ≡ true
unfolding is_distinct contains
is_distinct-append [] k h d = refl
is_distinct-append (x ∷ xs) k h d = ground (
  arith,
  contains-append xs (k ∷ []) x,
  is_distinct-append xs k,
  text_eq_iff x k,
  text_eq_iff k x,
)

contains-merge_env :
    (merged keys : List Text) (k : Text)
    → contains (merge_env merged keys) k ≡ contains merged k || contains keys k
unfolding merge_env contains
contains-merge_env merged [] k = ground arith
contains-merge_env merged (key ∷ keys) k = elim (Bool-cases (contains merged key)) [
  | inl known ↦ rw known (contains-merge_env merged keys k ∙ ground (arith, text_eq_iff key k))
  | inr new ↦ rw new (
      contains-merge_env (merged ++ key ∷ []) keys k
      ∙ ground (arith, contains-append merged (key ∷ []) k))
]

is_distinct-merge_env :
    (merged keys : List Text)
    → is_distinct merged ≡ true
    → is_distinct (merge_env merged keys) ≡ true
unfolding merge_env
is_distinct-merge_env merged [] d = d
is_distinct-merge_env merged (key ∷ keys) d = elim (Bool-cases (contains merged key)) [
  | inl known ↦ rw known (is_distinct-merge_env merged keys d)
  | inr new ↦
      rw new (is_distinct-merge_env (merged ++ key ∷ []) keys (is_distinct-append merged key new d))
]

module _ (fs : FileSystem) (engine : RegexEngine) (policy : SecureSudoersPolicy) (tool_name : Text)
    (tool : ToolPolicy) where
  -- The kept variables: each once, and those of the two lists.
  abbrev pub KeepsListed : ValidationResult → Type 0
  KeepsListed r =
      (is_distinct r.command.env_whitelist ≡ true)
      × ((k : Text)
          → contains r.command.env_whitelist k
            ≡ contains policy.global_settings.common_env_whitelist k
              || contains tool.env_whitelist k)

  assemble-KeepsListed :
      (p : Prepared) (out : List ValidatedArg)
      → p.tool ≡ tool
      → KeepsListed (assemble fs engine policy tool_name p out)
  unfolding assemble is_distinct contains
  assemble-KeepsListed p out same = (
    is_distinct-merge_env [] _ refl,
    λ k. rw (← same) (
        contains-merge_env [] (policy.global_settings.common_env_whitelist ++ p.tool.env_whitelist)
          k
        ∙ contains-append policy.global_settings.common_env_whitelist p.tool.env_whitelist k),
  )

  run_prepared-KeepsListed :
      (prepared : Result ValidationDenial Prepared) (raw_args : List Text) (r : ValidationResult)
      → prepare fs engine policy tool_name raw_args ≡ prepared
      → run_prepared fs engine policy tool_name prepared ≡ some (ok r)
      → get tool_name policy.tools ≡ some tool
      → KeepsListed r
  run_prepared-KeepsListed (err d) raw_args r e h listed = cc
  run_prepared-KeepsListed (ok p) raw_args r e h listed =
      let found = (prepare-IsPrepared fs engine policy tool_name raw_args p e).listed in
      let same : p.tool ≡ tool = cc in
      let (out, ran, made) =
        finish_with-ok fs engine policy tool_name p (run_args fs engine policy tool_name p) r h in
      rw (← made) (assemble-KeepsListed p out same)

  -- A granted command of a listed tool keeps exactly the environment variables of the policy's common
  -- list and of the tool's list, each of them once.
  pub validate_command-KeepsListed :
      (raw_args : List Text) (r : ValidationResult)
      → validate_command fs engine policy tool_name raw_args ≡ some (ok r)
      → get tool_name policy.tools ≡ some tool
      → KeepsListed r
  unfolding validate_command
  validate_command-KeepsListed raw_args r h listed =
      run_prepared-KeepsListed (prepare fs engine policy tool_name raw_args) raw_args r refl h
        listed
