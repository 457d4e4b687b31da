-- ===== src/Validator/Accepted.antt =====
-- What a tool's policy lets through, as a grammar of argument lists: a description that does not
-- follow the code. A flag of type `string` or `path` stands together with its own value.
use secure_sudoers_setup.Base.{
  true, false, List, [], ◌∷◌, ◌++◌, Option, none, some, ok, ◌≡◌, ◌⊎◌, In,
}
use secure_sudoers_setup.Text.{Text}
use secure_sudoers_setup.Map.{get}
use secure_sudoers_setup.Fs.{FileSystem, SecurePath, ValidationContext, check_path}
use secure_sudoers_setup.Regex.{Regex, RegexEngine}
use secure_sudoers_setup.Models.{ParameterType, ParameterConfig, ToolPolicy, is_path}
use secure_sudoers_setup.Models.Parameter.{Listed, Permits}
use secure_sudoers_setup.Validator.Types.{ValidatedArg}
use secure_sudoers_setup.Validator.Helpers.{is_flag_like}

module _ (fs : FileSystem) (engine : RegexEngine) (blocked_paths : List Text) where
  -- The value passes the lists and the pattern of its parameter.
  abbrev pub Passes : ParameterConfig → Text → Type 0
  Passes c val = (¬ Listed c.disallowed val) × Permits engine c val

  -- The path comes from `check_path`, and its canonical text passes.
  pub record PassesPath (c : ParameterConfig) (sp : SecurePath) : Type 0 where
    pub raw : Text
    pub context : ValidationContext
    pub resolved : check_path fs raw context blocked_paths ≡ ok sp
    pub passes : Passes c sp.path

  module _ (safe_re : Regex) (tool : ToolPolicy) where
    abbrev pub Declared : Text → ParameterType → ParameterConfig → Type 0
    Declared name type c = (get name tool.parameters ≡ some c) × (c.param_type ≡ type)

    -- A positional argument that is no path: unrestricted, or it passes.
    abbrev pub PlainPasses : Option ParameterConfig → Text → Type 0
    PlainPasses o arg =
        (o ≡ none)
        ⊎ ((c : ParameterConfig) × (o ≡ some c) × (is_path c.param_type ≡ false) × Passes c arg)

    pub data Item (xs : List ValidatedArg) : Type 0 where
      bool_flag :
          (name : Text) (c : ParameterConfig)
          → Declared name ParameterType.bool c
          → xs ≡ ValidatedArg.string name ∷ []
          → Item xs
      string_flag :
          (name val : Text) (c : ParameterConfig)
          → Declared name ParameterType.string c
          → Passes c val
          → xs ≡ ValidatedArg.string name ∷ ValidatedArg.string val ∷ []
          → Item xs
      path_flag :
          (name : Text) (sp : SecurePath) (c : ParameterConfig)
          → Declared name ParameterType.path c
          → PassesPath c sp
          → xs ≡ ValidatedArg.string name ∷ ValidatedArg.path sp ∷ []
          → Item xs
      plain :
          (arg : Text)
          → engine.is_match safe_re arg ≡ true
          → is_flag_like arg ≡ false
          → PlainPasses tool.positional arg
          → xs ≡ ValidatedArg.string arg ∷ []
          → Item xs
      positional_path :
          (sp : SecurePath) (c : ParameterConfig)
          → tool.positional ≡ some c
          → is_path c.param_type ≡ true
          → PassesPath c sp
          → xs ≡ ValidatedArg.path sp ∷ []
          → Item xs

    -- A verb of the tool, if it has verbs, and then items.
    pub data Accepted : List ValidatedArg → Type 0 where
      start : tool.verbs ≡ [] → Accepted []
      verb : (v : Text) → In v tool.verbs → Accepted (ValidatedArg.string v ∷ [])
      then_item :
          {out : List ValidatedArg} (xs : List ValidatedArg)
          → Accepted out
          → Item xs
          → Accepted (out ++ xs)
