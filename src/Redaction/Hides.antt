-- ===== src/Redaction/Hides.antt =====
-- About `redact_args` (helpers/redaction.rs): what the audit log shows.
use secure_sudoers_setup.Base.{
  ℕ, Bool, true, false, ◌&&◌, List, [], ◌∷◌, ◌++◌, Option, none, some, ◌≡◌, ◌⊎◌, inl, inr, refl,
  arith, if◌then◌else◌, map, Bool-cases, ◌==◌, ap, ◌∙◌,
}
use secure_sudoers_setup.Text.{Text, text_eq, starts_with, split_once, push_front, has_char}
use secure_sudoers_setup.Text.Laws.{text_eq_iff, split_once_append}
use secure_sudoers_setup.Map.{Map, get, contains_key}
use secure_sudoers_setup.Models.{ParameterConfig, ToolPolicy}
use secure_sudoers_setup.Redaction.{
  State, Step, dash, double_dash, redacted, equals_redacted, is_sensitive_config, short_char,
  is_single_dash, attached_flag, find_attached, redact_plain, redact_flag, redact_step, redact_loop,
  push, push_and_skip, redact_keys_only, attached_at, redact_key,
}

-- Inside the loop, before any `--`, and no value of a flag is awaited.
abbrev IsFresh : State → Type 0
IsFresh s = (s.skip_next ≡ false) × (s.after_double_dash ≡ false)

find_attached-double :
    (s : State) (arg : Text) (parameters : Map ParameterConfig)
    → starts_with arg double_dash ≡ true
    → find_attached s arg parameters ≡ none
unfolding find_attached
find_attached-double s arg [] h = refl
find_attached-double s arg ((f_name, config) ∷ ps) h =
    rw (skipped (short_char f_name)) (find_attached-double s arg ps h)
  where
    skipped : (o : Option ℕ) → attached_flag s arg config.sensitive o ≡ none
    skipped none = refl
    skipped (some c) = ground arith

short_char-ne-dash : (name : Text) (x : ℕ) → short_char name ≡ some x → (b'-' == x) ≡ false
short_char-ne-dash [] x h = cc
short_char-ne-dash (d ∷ []) x h = cc
short_char-ne-dash (d ∷ c ∷ []) x h = ground arith
short_char-ne-dash (d ∷ c ∷ e ∷ r) x h = cc

module _ (s : State) (c : ℕ) where
  -- `-c` stands alone: no value is attached to it.
  abbrev IsBare : Option Step → Type 0
  IsBare o = (o ≡ none) ⊎ (o ≡ some (push_and_skip s (b'-' ∷ c ∷ [])))

  attached_at-IsBare :
      (x : ℕ)
      → (b'-' == x) ≡ false
      → IsBare (attached_at s (b'-' ∷ c ∷ []) x (split_once x (b'-' ∷ c ∷ [])))
  unfolding split_once
  attached_at-IsBare x h = elim (Bool-cases (c == x)) [
    | inl same ↦ inr (rw (h, same) refl)
    | inr other ↦ inl (rw (h, other) refl)
  ]

  attached_flag-IsBare :
      (sensitive : Bool) (o : Option ℕ) (name : Text)
      → short_char name ≡ o
      → IsBare (attached_flag s (b'-' ∷ c ∷ []) sensitive o)
  attached_flag-IsBare sensitive none name e = inl refl
  attached_flag-IsBare sensitive (some x) name e =
      elim (Bool-cases (sensitive && is_single_dash (b'-' ∷ c ∷ []))) [
        | inl t ↦ rw t (attached_at-IsBare x (short_char-ne-dash name x e))
        | inr f ↦ inl (rw f refl)
      ]

  find_attached-IsBare :
      (parameters : Map ParameterConfig) → IsBare (find_attached s (b'-' ∷ c ∷ []) parameters)
  unfolding find_attached
  find_attached-IsBare [] = inl refl
  find_attached-IsBare ((f_name, config) ∷ ps) =
      elim (attached_flag-IsBare config.sensitive (short_char f_name) f_name refl) [
        | inl nothing ↦ rw nothing (find_attached-IsBare ps)
        | inr found ↦ inr (rw found refl)
      ]

module _ (tool : ToolPolicy) (s : State) where
  -- The round that follows a flag whose value is awaited hides whatever comes.
  skipped_round :
      (v : Text) (args : List Text)
      → s.skip_next ≡ false
      → redact_loop tool (record s { skip_next = true }) (v ∷ args)
        ≡ redacted ∷ redact_loop tool s args
  unfolding redact_loop redact_step
  skipped_round v args h =
      let same : record s { skip_next = false } ≡ s = ground arith in
      ap (λ (t : State). redacted ∷ redact_loop tool t args) same

  -- A flag that is shown and awaits its value hides the next argument.
  awaiting :
      (flag v : Text) (args : List Text)
      → s.skip_next ≡ false
      → redact_step tool s flag ≡ push_and_skip s flag
      → redact_loop tool s (flag ∷ v ∷ args) ≡ flag ∷ redacted ∷ redact_loop tool s args
  unfolding redact_loop
  awaiting flag v args skip e = rw e (ap (λ (t : List Text). flag ∷ t) (skipped_round v args skip))

  -- The round of an argument that holds no `=`, before `--`.
  plain_round :
      (arg : Text)
      → IsFresh s
      → text_eq arg double_dash ≡ false
      → split_once b'=' arg ≡ none
      → redact_step tool s arg ≡ redact_flag tool s arg
  unfolding redact_step
  plain_round arg (skip, before) delimiter plain = rw (skip, delimiter, before, plain) refl

  -- Before `--`, and where no value is awaited, the argument behind a sensitive long flag that holds
  -- no `=` is replaced, whatever it is.
  pub sensitive_long_flag_hides :
      (flag v : Text) (args : List Text)
      → IsFresh s
      → starts_with flag double_dash ≡ true
      → text_eq flag double_dash ≡ false
      → split_once b'=' flag ≡ none
      → is_sensitive_config (get flag tool.parameters) ≡ true
      → redact_loop tool s (flag ∷ v ∷ args) ≡ flag ∷ redacted ∷ redact_loop tool s args
  unfolding redact_flag redact_plain
  sensitive_long_flag_hides flag v args fresh long delimiter plain sensitive =
      let none_attached = find_attached-double s flag tool.parameters long in
      awaiting flag v args fresh.0
        (plain_round flag fresh delimiter plain ∙ rw (none_attached, sensitive) refl)

  -- Before `--`, and where no value is awaited, the argument behind a sensitive flag of one letter that
  -- stands alone is replaced,
  -- in whatever order the parameters are searched.
  pub sensitive_short_flag_hides :
      (c : ℕ) (v : Text) (args : List Text)
      → IsFresh s
      → (c == b'-') ≡ false
      → (c == b'=') ≡ false
      → is_sensitive_config (get (b'-' ∷ c ∷ []) tool.parameters) ≡ true
      → redact_loop tool s ((b'-' ∷ c ∷ []) ∷ v ∷ args)
        ≡ (b'-' ∷ c ∷ []) ∷ redacted ∷ redact_loop tool s args
  unfolding redact_flag redact_plain text_eq split_once
  sensitive_short_flag_hides c v args fresh letter no_value sensitive =
      let flag : Text = b'-' ∷ c ∷ [] in
      let round : redact_flag tool s flag ≡ push_and_skip s flag =
        elim (find_attached-IsBare s c tool.parameters) [
          | inl nothing ↦ rw (nothing, sensitive) refl
          | inr found ↦ rw found refl
        ] in
      awaiting flag v args fresh.0
        (plain_round flag fresh (rw letter refl) (rw no_value refl) ∙ round)

  delimited_round :
      (arg : Text)
      → s.skip_next ≡ false
      → s.after_double_dash ≡ true
      → is_sensitive_config tool.positional ≡ true
      → redact_step tool s arg ≡ push s (if text_eq arg double_dash then double_dash else redacted)
  unfolding redact_step
  delimited_round arg skip behind sensitive = elim (Bool-cases (text_eq arg double_dash)) [
    | inl marker ↦
        let is_marker : arg ≡ double_dash = (text_eq_iff arg double_dash).0 marker in
        rw (skip, marker, is_marker, behind) refl
    | inr other ↦ rw (skip, other, behind, sensitive) refl
  ]

  -- Behind `--`, where positional values are sensitive and no value is awaited, the log shows the
  -- markers and nothing else.
  pub delimited_hides :
      (args : List Text)
      → s.skip_next ≡ false
      → s.after_double_dash ≡ true
      → is_sensitive_config tool.positional ≡ true
      → redact_loop tool s args
        ≡ map (λ (a : Text). if text_eq a double_dash then double_dash else redacted) args
  unfolding redact_loop
  delimited_hides [] skip behind sensitive = refl
  delimited_hides (arg ∷ args) skip behind sensitive =
      rw (delimited_round arg skip behind sensitive) (
        ap (λ (t : List Text). (if text_eq arg double_dash then double_dash else redacted) ∷ t)
          (delimited_hides args skip behind sensitive))

  -- Before `--`, and where no value is awaited, a known long flag without `=` that is not sensitive
  -- leaves no trace in the log.
  pub known_long_flag_dropped :
      (flag : Text) (args : List Text)
      → IsFresh s
      → starts_with flag double_dash ≡ true
      → text_eq flag double_dash ≡ false
      → split_once b'=' flag ≡ none
      → contains_key flag tool.parameters ≡ true
      → is_sensitive_config (get flag tool.parameters) ≡ false
      → redact_loop tool s (flag ∷ args) ≡ redact_loop tool s args
  unfolding redact_loop redact_flag redact_plain
  known_long_flag_dropped flag args fresh long delimiter plain known shown =
      let none_attached = find_attached-double s flag tool.parameters long in
      let round : redact_step tool s flag ≡ record { pushed = []; state = s } =
        plain_round flag fresh delimiter plain
        ∙ rw (none_attached, shown, fresh.1, long, plain, known) refl in
      rw round refl

plain_key :
    (c : ℕ) (cs : Text) (o : Option (Text × Text))
    → (c == b'-') ≡ false
    → redact_key (c ∷ cs) (push_front c o) ≡ some redacted
unfolding starts_with
plain_key c cs none h = rw h refl
plain_key c cs (some (key, rest)) h = rw h refl

plain_hides : (arg : Text) → starts_with arg dash ≡ false → redact_keys_only arg ≡ some redacted
unfolding redact_keys_only starts_with split_once
plain_hides [] plain = refl
plain_hides (c ∷ cs) plain = elim (Bool-cases (c == b'=')) [
  | inl at_once ↦ rw at_once refl
  | inr later ↦ rw later (plain_key c cs (split_once b'=' cs) (ground arith))
]

-- In the mode that shows keys only, what stands behind the first `=` is replaced, and so is every
-- argument that does not begin with a dash.
pub keys_only_hides :
    (key val arg : Text)
    → has_char b'=' key ≡ false
    → starts_with arg dash ≡ false
    → (redact_keys_only (key ++ b'=' ∷ val)
        ≡ some (if starts_with key dash then equals_redacted key else redacted))
      × (redact_keys_only arg ≡ some redacted)
unfolding redact_keys_only
keys_only_hides key val arg clean plain = (
  rw (split_once_append b'=' key val clean) (choice (starts_with key dash)),
  plain_hides arg plain,
)
  where
    choice :
        (b : Bool)
        → (if b then some (equals_redacted key) else some redacted)
          ≡ some (if b then equals_redacted key else redacted)
    choice true = refl
    choice false = refl
