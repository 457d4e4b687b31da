-- ===== src/Validator/Cases.antt =====
-- The branches of the validator's recursive functions, as equations under their tests.
use secure_sudoers_setup.Base.{
  ℕ, suc, true, false, List, [], ◌∷◌, ◌++◌, none, some, ok, err, ◌>>=◌, ◌≡◌, map_err,
}
use secure_sudoers_setup.Text.{Text, text_eq, starts_with}
use secure_sudoers_setup.Map.{get}
use secure_sudoers_setup.Fs.{FileSystem}
use secure_sudoers_setup.Regex.{RegexEngine}
use secure_sudoers_setup.Models.{ParameterConfig, is_bool}
use secure_sudoers_setup.Validator.Types.{ValidatedArg, ValidationDenial}
use secure_sudoers_setup.Validator.Helpers.{
  ValidationParams, PositionalParams, double_dash, is_flag_like, not_permitted,
}
use secure_sudoers_setup.Validator.Flags.{
  Progress, process_flag_with_value, process_cluster, process_long_flag, process_short_flag,
  short_flag, attached, or_unchanged,
}
use secure_sudoers_setup.Validator.Positional.{push_positional}
use secure_sudoers_setup.Validator.Command.{
  process_arg, push_delimited, validate_args, denied_as, unknown_flag, blocked_argument,
}

module _ (fs : FileSystem) (engine : RegexEngine) (params : ValidationParams) (c : ℕ) (cs : List ℕ)
    (iter : List Text) (out : List ValidatedArg) where
  pub cluster_unknown :
      get (short_flag fs engine params c) params.parameters ≡ none
      → process_cluster fs engine params (c ∷ cs) iter out
        ≡ err (not_permitted (short_flag fs engine params c) params.tool_name)
  unfolding process_cluster
  cluster_unknown e = rw (e, process_cluster)

  module _ (config : ParameterConfig)
      (known : get (short_flag fs engine params c) params.parameters ≡ some config) where
    pub cluster_switch :
        is_bool config.param_type ≡ true
        → process_cluster fs engine params (c ∷ cs) iter out
          ≡ process_cluster fs engine params cs iter
              (out ++ ValidatedArg.string (short_flag fs engine params c) ∷ [])
    unfolding process_cluster
    cluster_switch e = rw (known, e, process_cluster)

    pub cluster_valued :
        is_bool config.param_type ≡ false
        → process_cluster fs engine params (c ∷ cs) iter out ≡ (
            process_flag_with_value fs engine params
              (short_flag fs engine params c)
              (attached fs engine params cs)
              iter
              out
            >>= λ handled. ok (or_unchanged fs engine params iter out handled))
    unfolding process_cluster
    cluster_valued e = rw (known, e, process_cluster)

module _ (fs : FileSystem) (engine : RegexEngine) (rule_id : Text) (params : ValidationParams)
    (before behind : PositionalParams) (arg : Text) (iter : List Text)
    (out : List ValidatedArg) where
  pub args_delimited :
      (fuel : ℕ)
      → text_eq arg double_dash ≡ true
      → validate_args fs engine rule_id params (suc fuel) before behind (arg ∷ iter) out
        ≡ some (push_delimited fs engine rule_id params behind iter out)
  unfolding validate_args
  args_delimited fuel e = rw (e, validate_args)

  pub args_denied :
      (fuel : ℕ) (d : ValidationDenial)
      → text_eq arg double_dash ≡ false
      → process_arg fs engine rule_id params before arg iter out ≡ err d
      → validate_args fs engine rule_id params (suc fuel) before behind (arg ∷ iter) out
        ≡ some (err d)
  unfolding validate_args
  args_denied fuel d e f = rw (e, f, validate_args)

  pub args_next :
      (fuel : ℕ) (p : Progress)
      → text_eq arg double_dash ≡ false
      → process_arg fs engine rule_id params before arg iter out ≡ ok p
      → validate_args fs engine rule_id params (suc fuel) before behind (arg ∷ iter) out
        ≡ validate_args fs engine rule_id params fuel before behind p.iter p.out
  unfolding validate_args
  args_next fuel p e f = rw (e, f, validate_args)

  pub arg_long :
      starts_with arg double_dash ≡ true
      → process_arg fs engine rule_id params before arg iter out
        ≡ map_err (denied_as unknown_flag rule_id) (process_long_flag fs engine params arg iter out)
  unfolding process_arg
  arg_long e = rw e

  pub arg_short :
      starts_with arg double_dash ≡ false
      → is_flag_like arg ≡ true
      → process_arg fs engine rule_id params before arg iter out
        ≡ map_err
            (denied_as unknown_flag rule_id)
            (process_short_flag fs engine params arg iter out)
  unfolding process_arg
  arg_short e f = rw (e, f)

  pub arg_positional :
      starts_with arg double_dash ≡ false
      → is_flag_like arg ≡ false
      → process_arg fs engine rule_id params before arg iter out ≡ (
          map_err (denied_as blocked_argument rule_id) (push_positional fs engine arg before out)
          >>= λ out'. ok (record { iter = iter; out = out' }))
  unfolding process_arg
  arg_positional e f = rw (e, f)
