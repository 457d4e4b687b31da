-- ===== src/Validator/Types.antt =====
-- The results of `validate_command`: accepted arguments, the command, and denials.
use secure_sudoers_setup.Base.{List, Option, none, some}
use secure_sudoers_setup.Text.{Text}
use secure_sudoers_setup.Fs.{SecurePath}
use secure_sudoers_setup.Models.{IsolationSettings}

pub data ValidatedArg : Type 0 where
  string : Text → ValidatedArg
  path : SecurePath → ValidatedArg

-- `ValidatedArg::as_str`
abbrev pub as_str : ValidatedArg → Text
as_str (ValidatedArg.string s) = s
as_str (ValidatedArg.path p) = p.path

-- `ValidatedArg::path`
abbrev pub secure_path : ValidatedArg → Option SecurePath
secure_path (ValidatedArg.string s) = none
secure_path (ValidatedArg.path p) = some p

pub record ValidatedCommand : Type 0 where
  pub binary : SecurePath
  pub args : List ValidatedArg
  pub isolation : IsolationSettings
  pub env_whitelist : List Text

pub record ValidationResult : Type 0 where
  pub command : ValidatedCommand
  pub rule_id : Text

pub record ValidationDenial : Type 0 where
  pub reason : Text
  pub reason_slug : Text
  pub rule_id : Option Text

-- `ValidationDenial::new`
abbrev pub denial : Text → Text → ValidationDenial
denial reason slug = record { reason = reason; reason_slug = slug; rule_id = none }

-- `ValidationDenial::with_rule`
abbrev pub with_rule : ValidationDenial → Text → ValidationDenial
with_rule d rule_id = record d { rule_id = some rule_id }
