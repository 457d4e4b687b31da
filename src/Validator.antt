-- ===== src/Validator.antt =====
-- `crates/secure-sudoers-common/src/validator.rs` and `validator/helpers.rs`.
pub mod Types
pub mod Helpers
pub mod Flags
pub mod Positional
pub mod Command
pub mod Accepted
pub mod Cases
pub mod Progress
pub mod Items
pub mod AcceptedFlags
pub mod AcceptedPositional
pub mod Sound
pub mod Env
pub mod Denied
pub mod Forms
