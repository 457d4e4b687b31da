-- ===== src/Models/Validate.antt =====
-- `SecureSudoersPolicy::validate` and `lint`: the policy with its regular expressions compiled and its
-- paths canonical. The source changes the policy in place; a policy whose validation fails is
-- dropped by every caller, so an error carries none.
use secure_sudoers_setup.Base.{
  Bool, true, false, not, ◌||◌, List, [], ◌∷◌, ◌++◌, Option, none, some, Result, ok, err, ◌>>=◌,
  ◌>>◌, if◌then◌else◌, is_empty,
}
use secure_sudoers_setup.Text.{Text, lit, text_eq, starts_with_char}
use secure_sudoers_setup.Map.{Map}
use secure_sudoers_setup.Path.{is_absolute}
use secure_sudoers_setup.Error.{
  Error, IoError, ErrorKind, not_found, io_context, validation, parse, to_text,
}
use secure_sudoers_setup.Regex.{Regex, RegexEngine, regex_new}
use secure_sudoers_setup.Models.{ParameterConfig, ToolPolicy, SecureSudoersPolicy, is_path}

-- `std::fs::metadata`, as far as it is read.
pub record Metadata : Type 0 where
  pub is_file : Bool
  -- `mode() & 0o111 != 0`
  pub is_executable : Bool

-- The file system's answers.
pub record PathInfo : Type 0 where
  -- `std::fs::canonicalize`, as text
  pub canonicalize : Text → Result IoError Text
  pub metadata : Text → Result IoError Metadata

abbrev pub is_not_found : ErrorKind → Bool
is_not_found not_found = true
is_not_found _ = false

abbrev pub guard : Bool → Error → Result Error (Unit {0})
guard true e = ok tt
guard false e = err e

abbrev tool_name_pattern : Regex
tool_name_pattern = record { pattern = lit "^[a-zA-Z0-9._+-]+$" }

abbrev pub concat : List Text → Text
concat [] = []
concat (t ∷ ts) = t ++ concat ts

-- The path that is kept for an entry: its canonical form, or the entry if there is no such file.
abbrev pub canonical_or : Text → Text → Result IoError Text → Result Error Text
canonical_or entry failure (ok path) = ok path
canonical_or entry failure (err e) =
    if is_not_found e.kind then ok entry else err (io_context failure e)

abbrev relative_entry : Text → Text → Text → Text → Error
relative_entry list_name entry config_label tool_name = Error.config (
    concat (
      list_name
      ∷ lit " entry '"
      ∷ entry
      ∷ lit "' for "
      ∷ config_label
      ∷ lit " in tool '"
      ∷ tool_name
      ∷ lit "' must be an absolute path"
      ∷ []))

abbrev uncanonical_entry : Text → Text → Text → Text → Text
uncanonical_entry list_name entry config_label tool_name = concat (
    lit "Security failure: cannot canonicalize "
    ∷ list_name
    ∷ lit " path '"
    ∷ entry
    ∷ lit "' for "
    ∷ config_label
    ∷ lit " in tool '"
    ∷ tool_name
    ∷ lit "'"
    ∷ [])

abbrev pub parameter_label : Text → Text
parameter_label flag = lit "parameter '" ++ (flag ++ lit "'")

module _ (engine : RegexEngine) (info : PathInfo) where
  unfoldable pub is_valid_tool_name : Text → Bool
  is_valid_tool_name name =
      if is_empty name || text_eq name (lit ".") || text_eq name (lit "..")
      then false
      else engine.is_match tool_name_pattern name

  unfoldable pub canonicalize_path_list_entries :
      Text → Text → Text → List Text → Result Error (List Text)
  canonicalize_path_list_entries list_name tool_name config_label [] = ok []
  canonicalize_path_list_entries list_name tool_name config_label (entry ∷ entries) = do
    guard (is_absolute entry) (relative_entry list_name entry config_label tool_name)
    path ←
        canonical_or entry (uncanonical_entry list_name entry config_label tool_name)
          (info.canonicalize entry)
    paths ← canonicalize_path_list_entries list_name tool_name config_label entries
    ok (path ∷ paths)

  abbrev pub canonicalize_list :
      Text → Text → Text → Option (List Text) → Result Error (Option (List Text))
  canonicalize_list list_name tool_name config_label none = ok none
  canonicalize_list list_name tool_name config_label (some entries) = do
    paths ← canonicalize_path_list_entries list_name tool_name config_label entries
    ok (some paths)

  unfoldable pub canonicalize_path_list_config_entries :
      Text → Text → ParameterConfig → Result Error ParameterConfig
  canonicalize_path_list_config_entries tool_name config_label c =
      if not (is_path c.param_type) then ok c else (do
        allowed ← canonicalize_list (lit "allowed") tool_name config_label c.allowed
        disallowed ← canonicalize_list (lit "disallowed") tool_name config_label c.disallowed
        ok (record c { allowed = allowed; disallowed = disallowed }))

  abbrev invalid_regex : Text → Text → Text → Error
  invalid_regex pattern config_label tool_name = parse (
      concat (
        lit "Invalid regex '"
        ∷ pattern
        ∷ lit "' in "
        ∷ config_label
        ∷ lit " for tool '"
        ∷ tool_name
        ∷ lit "'"
        ∷ []))

  abbrev pub compile_pattern : Text → Text → Option Text → Result Error (Option Regex)
  compile_pattern tool_name config_label none = ok none
  compile_pattern tool_name config_label (some pattern) = elim (regex_new engine pattern) [
    | none ↦ err (invalid_regex pattern config_label tool_name)
    | some re ↦ ok (some re)
  ]

  unfoldable pub compile_parameter_regex :
      Text → Text → ParameterConfig → Result Error ParameterConfig
  compile_parameter_regex tool_name config_label c = do
    compiled ← compile_pattern tool_name config_label c.regex
    ok (record c { compiled_regex = compiled })

  -- The two calls for one configuration.
  unfoldable pub validate_config : Text → Text → ParameterConfig → Result Error ParameterConfig
  validate_config tool_name config_label c = do
    compiled ← compile_parameter_regex tool_name config_label c
    canonicalize_path_list_config_entries tool_name config_label compiled

  unfoldable pub validate_parameters :
      Text → Map ParameterConfig → Result Error (Map ParameterConfig)
  validate_parameters tool_name [] = ok []
  validate_parameters tool_name ((flag, c) ∷ parameters) = do
    c' ← validate_config tool_name (parameter_label flag) c
    rest ← validate_parameters tool_name parameters
    ok ((flag, c') ∷ rest)

  abbrev pub validate_positional :
      Text → Option ParameterConfig → Result Error (Option ParameterConfig)
  validate_positional tool_name none = ok none
  validate_positional tool_name (some c) = do
    c' ← validate_config tool_name (lit "positional config") c
    ok (some c')

  abbrev invalid_name : Text → Error
  invalid_name name =
      validation (concat (lit "Invalid tool name in policy: '" ∷ name ∷ lit "'" ∷ []))

  abbrev relative_binary : Text → Error
  relative_binary name =
      Error.config
        (concat (lit "real_binary for tool '" ∷ name ∷ lit "' must be an absolute path" ∷ []))

  unfoldable pub validate_tool : Text → ToolPolicy → Result Error ToolPolicy
  validate_tool name tool = do
    guard (is_valid_tool_name name) (invalid_name name)
    guard (starts_with_char tool.real_binary b'/') (relative_binary name)
    parameters ← validate_parameters name tool.parameters
    positional ← validate_positional name tool.positional
    ok (record tool { parameters = parameters; positional = positional })

  unfoldable pub validate_tools : Map ToolPolicy → Result Error (Map ToolPolicy)
  validate_tools [] = ok []
  validate_tools ((name, tool) ∷ tools) = do
    tool' ← validate_tool name tool
    rest ← validate_tools tools
    ok ((name, tool') ∷ rest)

  abbrev relative_blocked : Text → Error
  relative_blocked path = Error.config (lit "Blocked path must be absolute: " ++ path)

  abbrev uncanonical_blocked : Text → Text
  uncanonical_blocked path =
      concat (lit "Security failure: cannot canonicalize blocked path '" ∷ path ∷ lit "'" ∷ [])

  unfoldable pub canonicalize_blocked : List Text → Result Error (List Text)
  canonicalize_blocked [] = ok []
  canonicalize_blocked (path ∷ paths) = do
    guard (starts_with_char path b'/') (relative_blocked path)
    canonical ← canonical_or path (uncanonical_blocked path) (info.canonicalize path)
    rest ← canonicalize_blocked paths
    ok (canonical ∷ rest)

  unfoldable pub validate : SecureSudoersPolicy → Result Error SecureSudoersPolicy
  validate policy = do
    guard (engine.compiles policy.global_settings.safe_arg_regex)
        (parse (lit "Invalid regex in safe_arg_regex"))
    blocked ← canonicalize_blocked policy.global_settings.blocked_paths
    tools ← validate_tools policy.tools
    ok (record policy {
      global_settings = record policy.global_settings { blocked_paths = blocked };
      tools = tools;
    })

  abbrev lint_message : Text → Text → Text → Text
  lint_message name binary what =
      concat (lit "Tool '" ∷ name ∷ lit "': real_binary '" ∷ binary ∷ what ∷ [])

  abbrev lint_metadata : Text → Text → Result IoError Metadata → List Text
  lint_metadata name binary (err e) =
      (if is_not_found e.kind
        then lint_message name binary (lit "' does not exist on the filesystem")
        else concat (
            lit "Tool '"
            ∷ name
            ∷ lit "': cannot inspect real_binary '"
            ∷ binary
            ∷ lit "': "
            ∷ e.message
            ∷ []))
      ∷ []
  lint_metadata name binary (ok m) =
      if not m.is_file
      then lint_message name binary (lit "' exists but is not a file") ∷ []
      else if not m.is_executable
      then lint_message name binary (lit "' exists but is not executable") ∷ []
      else []

  unfoldable pub lint_tools : Map ToolPolicy → List Text
  lint_tools [] = []
  lint_tools ((name, tool) ∷ tools) =
      lint_metadata name tool.real_binary (info.metadata tool.real_binary) ++ lint_tools tools

  abbrev lint_validated : Result Error SecureSudoersPolicy → List Text
  lint_validated (err e) = (lit "Validation failed: " ++ to_text e) ∷ []
  lint_validated (ok policy) = lint_tools policy.tools

  unfoldable pub lint : SecureSudoersPolicy → List Text
  lint policy = lint_validated (validate policy)
