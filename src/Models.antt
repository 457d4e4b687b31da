-- ===== src/Models.antt =====
-- The policy data of `crates/secure-sudoers-common/src/models.rs`, and the tests on one parameter.
-- Deserialisation is serde's; a policy enters as a value.
pub mod Parameter
pub mod Validate
pub mod Ready
pub mod Validated
use secure_sudoers_setup.Base.{
  ℤ, Bool, true, false, ◌||◌, List, [], ◌∷◌, Option, none, some, if◌then◌else◌, String, map,
}
use secure_sudoers_setup.Text.{Text, lit, contains}
use secure_sudoers_setup.Map.{Map}
use secure_sudoers_setup.Regex.{Regex, RegexEngine}

pub data ParameterType : Type 0 where
  bool string path : ParameterType

abbrev pub is_bool : ParameterType → Bool
is_bool bool = true
is_bool _ = false

abbrev pub is_path : ParameterType → Bool
is_path path = true
is_path _ = false

pub record ParameterConfig : Type 0 where
  pub param_type : ParameterType
  pub sensitive : Bool
  pub regex : Option Text
  pub compiled_regex : Option Regex
  pub allowed : Option (List Text)
  pub disallowed : Option (List Text)
  pub help : Option Text

abbrev listed : Option (List Text) → Text → Bool
listed none val = false
listed (some entries) val = contains entries val

unfoldable pub is_explicitly_disallowed : ParameterConfig → Text → Bool
is_explicitly_disallowed c val = listed c.disallowed val

abbrev is_some_and_match : RegexEngine → Option Regex → Text → Bool
is_some_and_match engine none val = false
is_some_and_match engine (some re) val = engine.is_match re val

-- The final `match` on the two optional results.
abbrev either_match : Option Bool → Option Bool → Bool
either_match (some a) (some r) = a || r
either_match (some a) none = a
either_match none (some r) = r
either_match none none = true

abbrev map_test {ℓ} : {A : Type ℓ} → (A → Bool) → Option A → Option Bool
map_test f none = none
map_test f (some a) = some (f a)

unfoldable pub matches_allowed_or_regex : RegexEngine → ParameterConfig → Text → Bool
matches_allowed_or_regex engine c val =
    let allowed_match = map_test (λ entries. contains entries val) c.allowed in
    let regex_match = map_test (λ _. is_some_and_match engine c.compiled_regex val) c.regex in
    either_match allowed_match regex_match

unfoldable pub matches : RegexEngine → ParameterConfig → Text → Bool
matches engine c val =
    if is_explicitly_disallowed c val then false else matches_allowed_or_regex engine c val

pub record IsolationSettings : Type 0 where
  pub unshare_network : Bool
  pub unshare_pid : Bool
  pub unshare_ipc : Bool
  pub unshare_uts : Bool
  pub private_mounts : List Text
  pub readonly_mounts : List Text

-- `IsolationSettings::default()`
abbrev pub default_isolation_settings : IsolationSettings
default_isolation_settings = record {
  unshare_network = false;
  unshare_pid = false;
  unshare_ipc = true;
  unshare_uts = true;
  private_mounts = [];
  readonly_mounts = [];
}

pub record ToolPolicy : Type 0 where
  pub id : Option Text
  pub real_binary : Text
  pub verbs : List Text
  pub parameters : Map ParameterConfig
  pub positional : Option ParameterConfig
  pub help_description : Text
  pub isolation : Option IsolationSettings
  pub env_whitelist : List Text

pub data UnauthorizedAuditMode : Type 0 where
  minimal keys_only full : UnauthorizedAuditMode

pub record GlobalSettings : Type 0 where
  pub log_destination : Text
  pub log_format : Text
  pub admin_contact : Text
  pub safe_arg_regex : Text
  pub common_env_whitelist : List Text
  pub blocked_paths : List Text
  pub unauthorized_audit_mode : UnauthorizedAuditMode
  pub default_isolation : Option IsolationSettings

pub record SecureSudoersPolicy : Type 0 where
  pub version : Text
  pub serial : ℤ
  pub global_settings : GlobalSettings
  pub tools : Map ToolPolicy

-- The values that serde fills in for `global_settings: {}`.
abbrev pub default_blocked_paths : List Text
unfolding lit
default_blocked_paths = map lit (
    "/etc/shadow" ∷ "/etc/gshadow" ∷ "/etc/sudoers" ∷ "/etc/secure-sudoers" ∷ "/etc/ssh"
    ∷ "/etc/pam.d" ∷ "/root" ∷ "/dev/mem" ∷ "/dev/kmem" ∷ "/dev/port" ∷ "/proc/kcore" ∷ [])

abbrev pub default_global_settings : GlobalSettings
unfolding lit
default_global_settings = record {
  log_destination = lit "syslog";
  log_format = lit "text";
  admin_contact = lit "Please contact your administrator.";
  safe_arg_regex = lit "^[a-zA-Z0-9._+\\-=:,@/]+$";
  common_env_whitelist = lit "TERM" ∷ lit "LANG" ∷ lit "LC_ALL" ∷ lit "LS_COLORS" ∷ [];
  blocked_paths = default_blocked_paths;
  unauthorized_audit_mode = minimal;
  default_isolation = none;
}
