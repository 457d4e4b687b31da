-- ===== src/Validator/Forms.antt =====
-- The two ways to give a flag its value.
use secure_sudoers_setup.Base.{
  false, List, ◌∷◌, ◌++◌, none, some, Result, ok, err, ◌>>=◌, ◌≡◌, refl,
}
use secure_sudoers_setup.Text.{Text, has_char}
use secure_sudoers_setup.Text.Laws.{split_once-none, split_once_append}
use secure_sudoers_setup.Map.{get}
use secure_sudoers_setup.Error.{Error}
use secure_sudoers_setup.Fs.{FileSystem}
use secure_sudoers_setup.Regex.{RegexEngine}
use secure_sudoers_setup.Models.{ParameterType, ParameterConfig, is_bool}
use secure_sudoers_setup.Validator.Types.{ValidatedArg}
use secure_sudoers_setup.Validator.Helpers.{ValidationParams, take_flag_value}
use secure_sudoers_setup.Validator.Flags
use secure_sudoers_setup.Validator.Flags.{
  Progress, process_typed, process_known, process_flag_with_value, process_long_flag,
}

module _ (fs : FileSystem) (engine : RegexEngine) (params : ValidationParams) where
  typed_forms :
      (type : ParameterType) (c : ParameterConfig) (name val : Text) (iter : List Text)
      (out : List ValidatedArg)
      → is_bool type ≡ false
      → process_typed fs engine params type c name (some val) iter out
        ≡ process_typed fs engine params type c name none (val ∷ iter) out
  unfolding process_typed take_flag_value
  typed_forms ParameterType.bool c name val iter out h = cc
  typed_forms ParameterType.string c name val iter out h = refl
  typed_forms ParameterType.path c name val iter out h = refl

  attached_form :
      (name val : Text) (iter : List Text) (out : List ValidatedArg) (c : ParameterConfig)
      → has_char b'=' name ≡ false
      → get name params.parameters ≡ some c
      → process_flag_with_value fs engine params (name ++ b'=' ∷ val) none iter out
        ≡ process_known fs engine params (some c) name (some val) iter out
  unfolding process_flag_with_value
  attached_form name val iter out c clean known =
      rw (split_once_append b'=' name val clean) (rw known refl)

  detached_form :
      (name : Text) (iter : List Text) (out : List ValidatedArg) (c : ParameterConfig)
      → has_char b'=' name ≡ false
      → get name params.parameters ≡ some c
      → process_flag_with_value fs engine params name none iter out
        ≡ process_known fs engine params (some c) name none iter out
  unfolding process_flag_with_value
  detached_form name iter out c clean known =
      rw ((split_once-none b'=' name).1 clean) (rw known refl)

  -- A flag that is known either way is never reported as unknown.
  known_either_way :
      (flag flag' : Text) (r : Result Error Progress)
      → ((r >>= λ done. ok (some done)) >>= Flags.or_not_permitted fs engine params flag)
        ≡ ((r >>= λ done. ok (some done)) >>= Flags.or_not_permitted fs engine params flag')
  known_either_way flag flag' (ok done) = refl
  known_either_way flag flag' (err e) = refl

  -- A declared long flag that takes a value, and whose name holds no `=`, is processed alike whether the
  -- value is attached by `=` or is the next argument.
  pub process_long_flag_forms :
      (name val : Text) (iter : List Text) (out : List ValidatedArg) (c : ParameterConfig)
      → has_char b'=' name ≡ false
      → get name params.parameters ≡ some c
      → is_bool c.param_type ≡ false
      → process_long_flag fs engine params (name ++ b'=' ∷ val) iter out
        ≡ process_long_flag fs engine params name (val ∷ iter) out
  unfolding process_long_flag process_known
  process_long_flag_forms name val iter out c clean known valued =
      rw (attached_form name val iter out c clean known) (
        rw (detached_form name (val ∷ iter) out c clean known) (
          rw (typed_forms c.param_type c name val iter out valued)
            (known_either_way (name ++ b'=' ∷ val) name _)))
