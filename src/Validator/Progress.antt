-- ===== src/Validator/Progress.antt =====
-- About the loop of `validate_command` (validator.rs): the arguments that each step leaves, and fuel.
use secure_sudoers_setup.Base.{
  ℕ, zero, suc, ◌≤◌, List, [], ◌∷◌, Option, none, some, Result, ok, err, ◌≡◌, arith, length,
  Bool-cases, Option-cases, Result-cases, >>=-eq-ok, map_err-eq-ok, inl, inr, refl, map_err, sym,
  ap, ◌∙◌,
}
use secure_sudoers_setup.Text.{Text, text_eq, starts_with}
use secure_sudoers_setup.Map.{get}
use secure_sudoers_setup.Fs.{FileSystem}
use secure_sudoers_setup.Regex.{RegexEngine}
use secure_sudoers_setup.Models.{ParameterType, ParameterConfig, SecureSudoersPolicy, is_bool}
use secure_sudoers_setup.Validator.Types.{ValidatedArg, ValidationDenial, ValidationResult}
use secure_sudoers_setup.Validator.Helpers.{
  ValidationParams, PositionalParams, take_flag_value, split_flag, double_dash, is_flag_like,
}
use secure_sudoers_setup.Validator.Positional.{push_positional}
use secure_sudoers_setup.Validator.Flags
use secure_sudoers_setup.Validator.Flags.{
  Progress, push_string_flag_value, push_path_flag_value, process_typed, process_known,
  process_flag_with_value, process_long_flag, process_cluster, process_short_flag, short_flag,
  attached,
}
use secure_sudoers_setup.Validator.Cases.{
  cluster_unknown, cluster_switch, cluster_valued, args_delimited, args_denied, args_next, arg_long,
  arg_short, arg_positional,
}
use secure_sudoers_setup.Validator.Command.{
  process_arg, validate_args, validate_command, prepare, run_args, run_prepared, finish_with,
  Prepared, denied_as, blocked_argument,
}

take_flag_value-le :
    (name : Text) (o : Option Text) (iter rest : List Text) (val : Text)
    → take_flag_value name o iter ≡ ok (val, rest)
    → length rest ≤ length iter
unfolding take_flag_value
take_flag_value-le name (some v) iter rest val h = ground arith
take_flag_value-le name none [] rest val h = cc
take_flag_value-le name none (v ∷ iter) rest val h = ground arith

module _ (fs : FileSystem) (engine : RegexEngine) (params : ValidationParams) where
  process_typed-le :
      (type : ParameterType) (c : ParameterConfig) (name : Text) (o : Option Text)
      (iter : List Text) (out : List ValidatedArg) (p : Progress)
      → process_typed fs engine params type c name o iter out ≡ ok p
      → length p.iter ≤ length iter
  unfolding process_typed
  process_typed-le ParameterType.bool c name o iter out p h = ground arith
  process_typed-le ParameterType.string c name o iter out p h =
      let ((val, rest), taken, h') = >>=-eq-ok (take_flag_value name o iter) _ h in
      let (out', pushed, made) =
        >>=-eq-ok (push_string_flag_value fs engine params name val c out) _ h' in
      let e : record { iter = rest; out = out' } ≡ p = cc in
      rw (← e) (take_flag_value-le name o iter rest val taken)
  process_typed-le ParameterType.path c name o iter out p h =
      let ((val, rest), taken, h') = >>=-eq-ok (take_flag_value name o iter) _ h in
      let (out', pushed, made) =
        >>=-eq-ok (push_path_flag_value fs engine params name val c out) _ h' in
      let e : record { iter = rest; out = out' } ≡ p = cc in
      rw (← e) (take_flag_value-le name o iter rest val taken)

  process_known-le :
      (o : Option ParameterConfig) (name : Text) (val : Option Text) (iter : List Text)
      (out : List ValidatedArg) (p : Progress)
      → process_known fs engine params o name val iter out ≡ ok (some p)
      → length p.iter ≤ length iter
  unfolding process_known
  process_known-le none name val iter out p h = cc
  process_known-le (some c) name val iter out p h =
      ground (arith, process_typed-le c.param_type c name val iter out p)

  process_flag_with_value-le :
      (flag : Text) (val : Option Text) (iter : List Text) (out : List ValidatedArg) (p : Progress)
      → process_flag_with_value fs engine params flag val iter out ≡ ok (some p)
      → length p.iter ≤ length iter
  unfolding process_flag_with_value
  process_flag_with_value-le flag val iter out p h =
      process_known-le (get (split_flag flag val).0 params.parameters) (split_flag flag val).0
        (split_flag flag val).1 iter out p h

  process_long_flag-le :
      (flag : Text) (iter : List Text) (out : List ValidatedArg) (p : Progress)
      → process_long_flag fs engine params flag iter out ≡ ok p
      → length p.iter ≤ length iter
  unfolding process_long_flag
  process_long_flag-le flag iter out p h =
      let (handled, e, h') =
        >>=-eq-ok (process_flag_with_value fs engine params flag none iter out) _ h in
      finish handled e h'
    where
      finish :
          (o : Option Progress)
          → process_flag_with_value fs engine params flag none iter out ≡ ok o
          → Flags.or_not_permitted fs engine params flag o ≡ ok p
          → length p.iter ≤ length iter
      finish none e h = cc
      finish (some q) e h =
          let same : q ≡ p = cc in process_flag_with_value-le flag none iter out p (rw same at e)

  or_unchanged-le :
      (flag : Text) (val : Option Text) (iter : List Text) (out : List ValidatedArg)
      (o : Option Progress)
      → process_flag_with_value fs engine params flag val iter out ≡ ok o
      → length (Flags.or_unchanged fs engine params iter out o).iter ≤ length iter
  or_unchanged-le flag val iter out none e = omega arith
  or_unchanged-le flag val iter out (some q) e = process_flag_with_value-le flag val iter out q e

  process_cluster-le :
      (cs : List ℕ) (iter : List Text) (out : List ValidatedArg) (p : Progress)
      → process_cluster fs engine params cs iter out ≡ ok p
      → length p.iter ≤ length iter
  unfolding process_cluster
  process_cluster-le [] iter out p h = ground arith
  process_cluster-le (c ∷ cs) iter out p h =
      elim (Option-cases (get (short_flag fs engine params c) params.parameters)) [
        | inl unknown ↦ let e = cluster_unknown fs engine params c cs iter out unknown in cc
        | inr (config, known) ↦ elim (Bool-cases (is_bool config.param_type)) [
          | inl switch ↦
              process_cluster-le cs iter _ p
                (sym (cluster_switch fs engine params c cs iter out config known switch) ∙ h)
          | inr valued ↦
              let (handled, e, h') =
                >>=-eq-ok
                  (process_flag_with_value fs engine params (short_flag fs engine params c)
                    (attached fs engine params cs) iter out)
                  _ (sym (cluster_valued fs engine params c cs iter out config known valued) ∙ h) in
              let same : Flags.or_unchanged fs engine params iter out handled ≡ p = cc in
              rw (← same) (or_unchanged-le _ _ iter out handled e)
        ]
      ]

  process_short_flag-le :
      (arg : Text) (iter : List Text) (out : List ValidatedArg) (p : Progress)
      → process_short_flag fs engine params arg iter out ≡ ok p
      → length p.iter ≤ length iter
  unfolding process_short_flag
  process_short_flag-le arg iter out p h =
      let (handled, e, h') =
        >>=-eq-ok (process_flag_with_value fs engine params arg none iter out) _ h in
      finish handled e h'
    where
      finish :
          (o : Option Progress)
          → process_flag_with_value fs engine params arg none iter out ≡ ok o
          → Flags.or_cluster fs engine params arg iter out o ≡ ok p
          → length p.iter ≤ length iter
      finish none e h = process_cluster-le _ iter out p h
      finish (some q) e h =
          let same : q ≡ p = cc in process_flag_with_value-le arg none iter out p (rw same at e)

module _ (fs : FileSystem) (engine : RegexEngine) (rule_id : Text) (params : ValidationParams) where
  process_arg-le :
      (before : PositionalParams) (arg : Text) (iter : List Text) (out : List ValidatedArg)
      (p : Progress)
      → process_arg fs engine rule_id params before arg iter out ≡ ok p
      → length p.iter ≤ length iter
  process_arg-le before arg iter out p h = elim (Bool-cases (starts_with arg double_dash)) [
    | inl long ↦ process_long_flag-le fs engine params arg iter out p (
        map_err-eq-ok _ (process_long_flag fs engine params arg iter out)
          (sym (arg_long fs engine rule_id params before before arg iter out long) ∙ h))
    | inr e ↦ elim (Bool-cases (is_flag_like arg)) [
      | inl short ↦ process_short_flag-le fs engine params arg iter out p (
          map_err-eq-ok _ (process_short_flag fs engine params arg iter out)
            (sym (arg_short fs engine rule_id params before before arg iter out e short) ∙ h))
      | inr plain ↦
          let (out', pushed, made) =
            >>=-eq-ok
              (map_err (denied_as blocked_argument rule_id)
                (push_positional fs engine arg before out))
              _
              (sym (arg_positional fs engine rule_id params before before arg iter out e plain)
                ∙ h) in
          ground arith
    ]
  ]

  validate_args_total :
      (fuel : ℕ) (before behind : PositionalParams) (iter : List Text) (out : List ValidatedArg)
      → length iter ≤ fuel
      → (r : Result ValidationDenial (List ValidatedArg)) × (validate_args fs engine rule_id params
            fuel before behind iter out
          ≡ some r)
  unfolding validate_args
  validate_args_total fuel before behind [] out h = (ok out, refl)
  validate_args_total zero before behind (arg ∷ iter) out h = absurd (omega arith)
  validate_args_total (suc fuel) before behind (arg ∷ iter) out h =
      elim (Bool-cases (text_eq arg double_dash)) [
        | inl delimiter ↦
            (_, args_delimited fs engine rule_id params before behind arg iter out fuel delimiter)
        | inr other ↦
            elim (Result-cases (process_arg fs engine rule_id params before arg iter out)) [
              | inl (p, e) ↦
                  let shorter = process_arg-le before arg iter out p e in
                  let (r, found) =
                    validate_args_total fuel before behind p.iter p.out (omega arith) in
                  (
                    r,
                    args_next fs engine rule_id params before behind arg iter out fuel p other e
                        ∙ found,
                  )
              | inr (d, e) ↦ (
                err d,
                args_denied fs engine rule_id params before behind arg iter out fuel d other e,
              )
            ]
      ]

-- `validate_command` always answers: the loop over the arguments comes to its end.
pub validate_command_total :
    (fs : FileSystem) (engine : RegexEngine) (policy : SecureSudoersPolicy) (tool_name : Text)
    (raw_args : List Text)
    → (r : Result ValidationDenial ValidationResult) × (validate_command fs engine policy tool_name
          raw_args
        ≡ some r)
unfolding validate_command run_args
validate_command_total fs engine policy tool_name raw_args =
    answer (prepare fs engine policy tool_name raw_args)
  where
    finished :
        (p : Prepared) (r : Result ValidationDenial (List ValidatedArg))
        → run_args fs engine policy tool_name p ≡ some r
        → (q : Result ValidationDenial ValidationResult) × (run_prepared fs engine policy tool_name
              (ok p)
            ≡ some q)
    finished p (ok out) e = (_, ap (finish_with fs engine policy tool_name p) e)
    finished p (err d) e = (_, ap (finish_with fs engine policy tool_name p) e)

    answer :
        (prepared : Result ValidationDenial Prepared)
        → (q : Result ValidationDenial ValidationResult) × (run_prepared fs engine policy tool_name
              prepared
            ≡ some q)
    answer (err d) = (err d, refl)
    answer (ok p) =
        let (r, e) =
          validate_args_total fs engine p.rule_id _ (length p.iter) _ _ p.iter p.out
            (omega arith) in
        finished p r e
