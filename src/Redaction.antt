-- ===== src/Redaction.antt =====
-- `crates/secure-sudoers/src/helpers/redaction.rs`: what the audit log shows of the arguments.
-- The parameters of a tool are listed in the order in which iterating over the map meets them.
pub mod Hides
pub mod Panics
pub mod Outline
use secure_sudoers_setup.Base.{
  ℕ, Bool, true, false, not, ◌&&◌, ◌||◌, List, [], ◌∷◌, ◌++◌, Option, none, some, if◌then◌else◌,
  length, ltb, ◌==◌, is_empty,
}
use secure_sudoers_setup.Text.{
  Text, lit, text_eq, starts_with, starts_with_char, split_once, byte_len, utf8_len, show,
}
use secure_sudoers_setup.Map.{Map, get, contains_key}
use secure_sudoers_setup.Models.{
  ParameterConfig, ToolPolicy, SecureSudoersPolicy, UnauthorizedAuditMode, minimal, keys_only, full,
  is_bool,
}

abbrev pub dash : Text
dash = b'-' ∷ []

abbrev pub double_dash : Text
double_dash = b'-' ∷ b'-' ∷ []

abbrev pub redacted : Text
unfolding lit
redacted = lit "[REDACTED]"

abbrev pub equals_redacted : Text → Text
equals_redacted key = key ++ (b'=' ∷ redacted)

-- The loop over the characters of a cluster.
unfoldable pub is_known_cluster : Map ParameterConfig → List ℕ → Bool
is_known_cluster parameters [] = true
is_known_cluster parameters (c ∷ cs) = elim (get (b'-' ∷ c ∷ []) parameters) [
  | none ↦ false
  | some config ↦ not (is_bool config.param_type) || is_known_cluster parameters cs
]

abbrev behind_dash : Text → List ℕ
behind_dash [] = []
behind_dash (c ∷ cs) = cs

abbrev key_or_all : Text → Option (Text × Text) → Text
key_or_all arg none = arg
key_or_all arg (some (key, rest)) = key

unfoldable pub is_known_flag_argument : Text → Map ParameterConfig → Bool
unfolding is_known_cluster
is_known_flag_argument arg parameters =
    if starts_with arg double_dash
    then contains_key (key_or_all arg (split_once b'=' arg)) parameters
    else if not (starts_with arg dash) || text_eq arg dash
    then false
    else if contains_key arg parameters
    then true
    else is_known_cluster parameters (behind_dash arg)

-- What one argument adds to the log, and the two flags of the loop behind it.
pub record State : Type 0 where
  pub skip_next : Bool
  pub after_double_dash : Bool

pub record Step : Type 0 where
  pub pushed : List Text
  pub state : State

abbrev pub push : State → Text → Step
push s t = record { pushed = t ∷ []; state = s }

abbrev pub push_and_skip : State → Text → Step
push_and_skip s t = record { pushed = t ∷ []; state = record s { skip_next = true } }

abbrev pub is_sensitive_config : Option ParameterConfig → Bool
is_sensitive_config none = false
is_sensitive_config (some c) = c.sensitive

-- The character of a sensitive flag of two bytes, `-c`: both are ASCII.
abbrev pub short_char : Text → Option ℕ
short_char (d ∷ c ∷ []) = if d == b'-' && (not (c == b'-') && utf8_len c == 1) then some c else none
short_char _ = none

abbrev pub is_single_dash : Text → Bool
is_single_dash arg = starts_with arg dash && not (starts_with arg double_dash)

-- The end of the argument behind the flag's character decides between the two pushes.
abbrev pub attached_step : State → Text → ℕ → Text → Text → Step
attached_step s arg c before [] = push_and_skip s arg
attached_step s arg c before (x ∷ rest) = push s (before ++ (c ∷ redacted))

abbrev attached_at : State → Text → ℕ → Option (Text × Text) → Option Step
attached_at s arg c none = none
attached_at s arg c (some (before, rest)) = some (attached_step s arg c before rest)

abbrev first_of : Option Step → Option Step → Option Step
first_of none o = o
first_of (some x) o = some x

abbrev attached_flag : State → Text → Bool → Option ℕ → Option Step
attached_flag s arg sensitive none = none
attached_flag s arg sensitive (some c) =
    if sensitive && is_single_dash arg then attached_at s arg c (split_once c arg) else none

-- `for (f_name, config) in &tool.parameters`
unfoldable pub find_attached : State → Text → Map ParameterConfig → Option Step
find_attached s arg [] = none
find_attached s arg ((f_name, config) ∷ parameters) =
    first_of (attached_flag s arg config.sensitive (short_char f_name))
      (find_attached s arg parameters)

-- The tests behind the search for attached values.
abbrev unknown_long : State → Map ParameterConfig → Text → Option (Text × Text) → Step
unknown_long s parameters arg (some (key, rest)) =
    if contains_key key parameters
    then record { pushed = []; state = s }
    else push s (equals_redacted key)
unknown_long s parameters arg none =
    if contains_key arg parameters then record { pushed = []; state = s } else push_and_skip s arg

unfoldable pub redact_plain : ToolPolicy → State → Text → Step
redact_plain tool s arg =
    if is_sensitive_config (get arg tool.parameters)
    then push_and_skip s arg
    else if not s.after_double_dash && starts_with arg double_dash
    then unknown_long s tool.parameters arg (split_once b'=' arg)
    else if is_sensitive_config tool.positional
    then (if starts_with arg dash && is_known_flag_argument arg tool.parameters
        then push s arg
        else push s redacted)
    else push s arg

abbrev or_plain : ToolPolicy → State → Text → Option Step → Step
or_plain tool s arg none = redact_plain tool s arg
or_plain tool s arg (some step) = step

unfoldable pub redact_flag : ToolPolicy → State → Text → Step
redact_flag tool s arg = or_plain tool s arg (find_attached s arg tool.parameters)

-- `key=value` with a sensitive key.
abbrev redact_assignment : ToolPolicy → State → Text → Option (Text × Text) → Step
redact_assignment tool s arg none = redact_flag tool s arg
redact_assignment tool s arg (some (key, rest)) =
    if is_sensitive_config (get key tool.parameters)
    then push s (equals_redacted key)
    else redact_flag tool s arg

-- The body of the loop.
unfoldable pub redact_step : ToolPolicy → State → Text → Step
redact_step tool s arg =
    if s.skip_next
    then record { pushed = redacted ∷ []; state = record s { skip_next = false } }
    else if text_eq arg double_dash
    then record { pushed = arg ∷ []; state = record s { after_double_dash = true } }
    else if s.after_double_dash && is_sensitive_config tool.positional
    then push s redacted
    else redact_assignment tool s arg (split_once b'=' arg)

unfoldable pub redact_loop : ToolPolicy → State → List Text → List Text
redact_loop tool s [] = []
redact_loop tool s (arg ∷ args) =
    let step = redact_step tool s arg in step.pushed ++ redact_loop tool step.state args

abbrev pub start : State
start = record { skip_next = false; after_double_dash = false }

abbrev second_char : ℕ → Text → Option Text
second_char a [] = none
second_char a (b ∷ s) = if utf8_len a == 1 && utf8_len b == 1 then some (a ∷ b ∷ []) else none

-- `&arg[..2]` panics, `none` here, where the second byte is inside a character.
abbrev slice_two : Text → Option Text
slice_two [] = none
slice_two (a ∷ s) = if utf8_len a == 2 then some (a ∷ []) else second_char a s

abbrev append_redacted : Option Text → Option Text
append_redacted none = none
append_redacted (some t) = some (t ++ redacted)

abbrev redact_key : Text → Option (Text × Text) → Option Text
redact_key arg (some (key, rest)) =
    if starts_with key dash then some (equals_redacted key) else some redacted
redact_key arg none =
    if starts_with arg dash
    then (if not (starts_with arg double_dash) && ltb 2 (byte_len arg)
        then append_redacted (slice_two arg)
        else some arg)
    else some redacted

-- The closure of `UnauthorizedAuditMode::KeysOnly`; `none` is a panic.
unfoldable pub redact_keys_only : Text → Option Text
redact_keys_only arg = redact_key arg (split_once b'=' arg)

abbrev push_both : Option Text → Option (List Text) → Option (List Text)
push_both none o = none
push_both (some t) none = none
push_both (some t) (some ts) = some (t ∷ ts)

unfoldable pub redact_all_keys : List Text → Option (List Text)
redact_all_keys [] = some []
redact_all_keys (arg ∷ args) = push_both (redact_keys_only arg) (redact_all_keys args)

unfoldable pub redact_unauthorized : UnauthorizedAuditMode → List Text → Option (List Text)
redact_unauthorized minimal args =
    some ((lit "[" ++ (show (length args) ++ lit " arguments suppressed]")) ∷ [])
redact_unauthorized keys_only args = redact_all_keys args
redact_unauthorized full args = some args

abbrev redact_for : Option ToolPolicy → UnauthorizedAuditMode → List Text → Option (List Text)
redact_for none mode args = redact_unauthorized mode args
redact_for (some tool) mode args = some (redact_loop tool start args)

-- `none` is a panic.
unfoldable pub redact_args : List Text → SecureSudoersPolicy → Text → Option (List Text)
redact_args args policy tool_name =
    redact_for (get tool_name policy.tools) policy.global_settings.unauthorized_audit_mode args
