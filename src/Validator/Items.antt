-- ===== src/Validator/Items.antt =====
-- About the value tests of validator/helpers.rs: the items that they add.
use secure_sudoers_setup.Base.{
  Bool, true, false, List, [], ◌∷◌, ◌++◌, Option, none, some, ok, ◌≡◌, arith, Bool-cases, >>=-eq-ok,
  map_err-eq-ok, inl, inr, refl, map_err, if◌then◌else◌,
}
use secure_sudoers_setup.Text.{Text, lit}
use secure_sudoers_setup.Error.{to_text, validation}
use secure_sudoers_setup.Map.{get}
use secure_sudoers_setup.Fs.{FileSystem, SecurePath, ValidationContext, check_path}
use secure_sudoers_setup.Regex.{Regex, RegexEngine}
use secure_sudoers_setup.Models.{
  ParameterType, ParameterConfig, ToolPolicy, is_explicitly_disallowed, matches_allowed_or_regex,
}
use secure_sudoers_setup.Models.Parameter.{
  is_explicitly_disallowed_iff, matches_allowed_or_regex_iff,
}
use secure_sudoers_setup.Validator.Types.{ValidatedArg}
use secure_sudoers_setup.Validator.Helpers.{ValidationParams, take_flag_value}
use secure_sudoers_setup.Validator.Positional.{validate_path_value}
use secure_sudoers_setup.Validator.Flags.{
  Progress, push_string_flag_value, push_path_flag_value, process_typed,
}
use secure_sudoers_setup.Validator.Accepted.{
  Passes, PassesPath, Item, bool_flag, string_flag, path_flag,
}

module _ (fs : FileSystem) (engine : RegexEngine) (blocked_paths : List Text) where
  pub tests-Passes :
      (c : ParameterConfig) (val : Text)
      → is_explicitly_disallowed c val ≡ false
      → matches_allowed_or_regex engine c val ≡ true
      → Passes fs engine blocked_paths c val
  tests-Passes c val e f = (
    λ l. let back = (is_explicitly_disallowed_iff c val).1 l in cc,
    (matches_allowed_or_regex_iff engine c val).0 f,
  )

  pub validate_path_value-PassesPath :
      (raw : Text) (c : ParameterConfig) (context : ValidationContext)
      (disallowed_msg policy_msg : Text → Bool → Text) (sp : SecurePath)
      → validate_path_value fs engine raw c context blocked_paths disallowed_msg policy_msg ≡ ok sp
      → PassesPath fs engine blocked_paths c sp
  unfolding validate_path_value
  validate_path_value-PassesPath raw c context disallowed_msg policy_msg sp h =
      let (found, resolved, h') =
        >>=-eq-ok
          (map_err
            (λ e.
              validation
                (if c.sensitive then lit "Access to a sensitive path was denied" else to_text e))
            (check_path fs raw context blocked_paths))
          _ h in
      elim (Bool-cases (is_explicitly_disallowed c found.path)) [
        | inl e ↦ let never = rw e at h' in cc
        | inr e ↦ elim (Bool-cases (matches_allowed_or_regex engine c found.path)) [
          | inl f ↦
              let same : found ≡ sp = let h'' = rw (e, f) at h' in cc in
              rw (← same) (record {
                raw = raw;
                context = context;
                resolved = map_err-eq-ok _ (check_path fs raw context blocked_paths) resolved;
                passes = tests-Passes c found.path e f;
              })
          | inr f ↦ let never = rw (e, f) at h' in cc
        ]
      ]

  module _ (safe_re : Regex) (tool : ToolPolicy) (tool_name : Text) where
    abbrev pub params : ValidationParams
    params = record {
      tool_name = tool_name;
      parameters = tool.parameters;
      blocked_paths = blocked_paths;
    }

    abbrev pub ItemFrom : List ValidatedArg → List ValidatedArg → Type 0
    ItemFrom out out' =
        (xs : List ValidatedArg) × (out' ≡ out ++ xs) × Item fs engine blocked_paths safe_re tool xs

    push_string-Item :
        (name val : Text) (c : ParameterConfig) (out out' : List ValidatedArg)
        → get name tool.parameters ≡ some c
        → c.param_type ≡ ParameterType.string
        → push_string_flag_value fs engine params name val c out ≡ ok out'
        → ItemFrom out out'
    unfolding push_string_flag_value
    push_string-Item name val c out out' known typed h =
        elim (Bool-cases (is_explicitly_disallowed c val)) [
          | inl e ↦ let never = rw e at h in cc
          | inr e ↦ elim (Bool-cases (matches_allowed_or_regex engine c val)) [
            | inl f ↦
                let h' = rw (e, f) at h in
                (_, cc, string_flag name val c (known, typed) (tests-Passes c val e f) refl)
            | inr f ↦ let never = rw (e, f) at h in cc
          ]
        ]

    push_path-Item :
        (name val : Text) (c : ParameterConfig) (out out' : List ValidatedArg)
        → get name tool.parameters ≡ some c
        → c.param_type ≡ ParameterType.path
        → push_path_flag_value fs engine params name val c out ≡ ok out'
        → ItemFrom out out'
    unfolding push_path_flag_value
    push_path-Item name val c out out' known typed h =
        let (sp, valid, made) =
          >>=-eq-ok
            (validate_path_value fs engine val c (ValidationContext.flag name) blocked_paths _ _) _
            h in
        (
          _,
          cc,
          path_flag name sp c (known, typed)
              (validate_path_value-PassesPath val c (ValidationContext.flag name) _ _ sp valid)
              refl,
        )

    pub process_typed-Item :
        (type : ParameterType) (c : ParameterConfig) (name : Text) (o : Option Text)
        (iter : List Text) (out : List ValidatedArg) (p : Progress)
        → get name tool.parameters ≡ some c
        → c.param_type ≡ type
        → process_typed fs engine params type c name o iter out ≡ ok p
        → ItemFrom out p.out
    unfolding process_typed
    process_typed-Item ParameterType.bool c name none iter out p known typed h =
        (ValidatedArg.string name ∷ [], ground arith, bool_flag name c (known, typed) refl)
    process_typed-Item ParameterType.bool c name (some v) iter out p known typed h = cc
    process_typed-Item ParameterType.string c name o iter out p known typed h =
        let ((val, rest), taken, h') = >>=-eq-ok (take_flag_value name o iter) _ h in
        let (out', pushed, made) =
          >>=-eq-ok (push_string_flag_value fs engine params name val c out) _ h' in
        let e : record { iter = rest; out = out' } ≡ p = cc in
        rw (← e) (push_string-Item name val c out out' known typed pushed)
    process_typed-Item ParameterType.path c name o iter out p known typed h =
        let ((val, rest), taken, h') = >>=-eq-ok (take_flag_value name o iter) _ h in
        let (out', pushed, made) =
          >>=-eq-ok (push_path_flag_value fs engine params name val c out) _ h' in
        let e : record { iter = rest; out = out' } ≡ p = cc in
        rw (← e) (push_path-Item name val c out out' known typed pushed)
