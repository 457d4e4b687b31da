-- ===== src/Validator/AcceptedPositional.antt =====
-- About `push_positional` (validator/helpers.rs) on accepted lists.
use secure_sudoers_setup.Base.{
  true, false, List, [], ◌∷◌, Option, none, some, ok, ◌≡◌, ◌⊎◌, Bool-cases, >>=-eq-ok, inl, inr,
  refl,
}
use secure_sudoers_setup.Text.{Text}
use secure_sudoers_setup.Fs.{FileSystem, ValidationContext}
use secure_sudoers_setup.Regex.{Regex, RegexEngine}
use secure_sudoers_setup.Models.{
  ParameterConfig, ToolPolicy, is_path, is_explicitly_disallowed, matches_allowed_or_regex,
}
use secure_sudoers_setup.Validator.Types.{ValidatedArg}
use secure_sudoers_setup.Validator.Helpers.{PositionalParams, is_flag_like}
use secure_sudoers_setup.Validator.Positional.{
  push_positional, push_safe, validate_path_value, check_value, check_not_flag, path_config,
}
use secure_sudoers_setup.Validator.Accepted.{plain, positional_path, PlainPasses}
use secure_sudoers_setup.Validator.Items.{ItemFrom, validate_path_value-PassesPath, tests-Passes}

-- A configuration of type `path`, or none.
path_config-cases :
    (o : Option ParameterConfig)
    → ((c : ParameterConfig) × (o ≡ some c)
        × (is_path c.param_type ≡ true)
        × (path_config o ≡ some c))
      ⊎ ((path_config o ≡ none)
          × ((o ≡ none) ⊎ ((c : ParameterConfig) × (o ≡ some c) × (is_path c.param_type ≡ false))))
path_config-cases none = inr (refl, inl refl)
path_config-cases (some c) = elim (Bool-cases (is_path c.param_type)) [
  | inl e ↦ inl (c, refl, e, rw e)
  | inr e ↦ inr (rw e, inr (c, refl, e))
]

module _ (fs : FileSystem) (engine : RegexEngine) (blocked_paths : List Text) (safe_re : Regex)
    (tool : ToolPolicy) (tool_name : Text) (context : ValidationContext) where
  abbrev pub pos_params : PositionalParams
  pos_params = record {
    tool_name = tool_name;
    context = context;
    safe_re = safe_re;
    config = tool.positional;
    blocked_paths = blocked_paths;
  }

  check_not_flag-ok :
      (arg : Text) → check_not_flag fs engine context arg ≡ ok tt → is_flag_like arg ≡ false
  unfolding check_not_flag
  check_not_flag-ok arg h = elim (Bool-cases (is_flag_like arg)) [
    | inl e ↦ let never = rw e at h in cc
    | inr e ↦ e
  ]

  check_value-PlainPasses :
      (o : Option ParameterConfig) (arg display_arg : Text)
      → ((o ≡ none) ⊎ ((c : ParameterConfig) × (o ≡ some c) × (is_path c.param_type ≡ false)))
      → check_value fs engine o arg display_arg tool_name ≡ ok tt
      → PlainPasses fs engine blocked_paths safe_re tool o arg
  unfolding check_value
  check_value-PlainPasses none arg display_arg kind h = inl refl
  check_value-PlainPasses (some c) arg display_arg kind h =
      elim (Bool-cases (is_explicitly_disallowed c arg)) [
        | inl e ↦ let never = rw e at h in cc
        | inr e ↦ elim (Bool-cases (matches_allowed_or_regex engine c arg)) [
          | inl f ↦ inr (c, refl, not_path kind, tests-Passes fs engine blocked_paths c arg e f)
          | inr f ↦ let never = rw (e, f) at h in cc
        ]
      ]
    where
      not_path :
          ((some c ≡ none)
            ⊎ ((d : ParameterConfig) × (some c ≡ some d) × (is_path d.param_type ≡ false)))
          → is_path c.param_type ≡ false
      not_path (inl e) = cc
      not_path (inr (d, e, k)) = let same : c ≡ d = cc in rw same k

  push_safe-Item :
      (arg display_arg : Text) (out out' : List ValidatedArg)
      → engine.is_match safe_re arg ≡ true
      → push_safe fs engine (path_config tool.positional) arg display_arg pos_params out ≡ ok out'
      → ItemFrom fs engine blocked_paths safe_re tool tool_name out out'
  unfolding push_safe
  push_safe-Item arg display_arg out out' safe h = elim (path_config-cases tool.positional) [
    | inl (c, e, k, f) ↦
        let (sp, valid, made) =
          >>=-eq-ok (validate_path_value fs engine arg c context blocked_paths _ _) _
            (rw (f, push_safe) at h) in
        (
          ValidatedArg.path sp ∷ [],
          cc,
          positional_path sp c e k
              (validate_path_value-PassesPath fs engine blocked_paths arg c context _ _ sp valid)
              refl,
        )
    | inr (f, kind) ↦
        let (permitted, checked, h') =
          >>=-eq-ok (check_value fs engine tool.positional arg display_arg tool_name) _
            (rw (f, push_safe) at h) in
        let (unflagged, tested, made) = >>=-eq-ok (check_not_flag fs engine context arg) _ h' in
        (
          ValidatedArg.string arg ∷ [],
          cc,
          plain arg safe (check_not_flag-ok arg tested)
              (check_value-PlainPasses tool.positional arg display_arg kind checked) refl,
        )
  ]

  pub push_positional-Item :
      (arg : Text) (out out' : List ValidatedArg)
      → push_positional fs engine arg pos_params out ≡ ok out'
      → ItemFrom fs engine blocked_paths safe_re tool tool_name out out'
  unfolding push_positional
  push_positional-Item arg out out' h = elim (Bool-cases (engine.is_match safe_re arg)) [
    | inl safe ↦ push_safe-Item arg _ out out' safe (rw safe at h)
    | inr unsafe ↦ let never = rw unsafe at h in cc
  ]
