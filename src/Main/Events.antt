-- ===== src/Main/Events.antt =====
-- `crates/secure-sudoers-common/src/telemetry.rs`: security events.
use secure_sudoers_setup.Base.{ℕ, List, Option}
use secure_sudoers_setup.Text.{Text, lit}

abbrev pub command_approved : Text
command_approved = lit "SEC-101"

abbrev pub policy_violation : Text
policy_violation = lit "SEC-403"

abbrev pub identity_spoofing : Text
identity_spoofing = lit "SEC-500"

abbrev pub exec_failure : Text
exec_failure = lit "SEC-503"

pub data AccountType : Type 0 where
  system local network unknown : AccountType

pub record IdentityInfo : Type 0 where
  pub user : Text
  pub uid : ℕ
  pub euid : ℕ
  pub sudo_uid : Option ℕ
  pub account_type : AccountType

pub record ContextInfo : Type 0 where
  pub tool : Text
  pub binary_path : Text
  pub binary_hash : Text

pub record PolicyInfo : Type 0 where
  pub status : Text
  pub rule_id : Option Text
  pub reason : Option Text

pub record SecurityEvent : Type 0 where
  pub event_id : Text
  pub txn_id : Text
  pub timestamp : Text
  pub identity : IdentityInfo
  pub context : ContextInfo
  pub policy : PolicyInfo
  pub args : List Text
