-- ===== src/Error.antt =====
-- `crates/secure-sudoers-common/src/error.rs`, and the part of `std::io::Error` that is read.
use secure_sudoers_setup.Base.{ℕ, ◌++◌, Option}
use secure_sudoers_setup.Text.{Text, lit}

-- `std::io::ErrorKind`, as far as the program tells kinds apart.
pub data ErrorKind : Type 0 where
  not_found permission_denied already_exists other : ErrorKind

pub record IoError : Type 0 where
  pub kind : ErrorKind
  pub raw_os_error : Option ℕ
  pub message : Text

pub data Error : Type 0 where
  io : IoError → Error
  io_context : Text → IoError → Error
  validation security config parse system spoofing network execution : Text → Error

-- The `#[error(…)]` attributes.
unfoldable pub to_text : Error → Text
to_text (io e) = lit "IO error: " ++ e.message
to_text (io_context t e) = t ++ (lit ": " ++ e.message)
to_text (validation t) = t
to_text (security t) = t
to_text (config t) = t
to_text (parse t) = t
to_text (system t) = t
to_text (spoofing t) = t
to_text (network t) = t
to_text (execution t) = t
