-- ===== src/Update.antt =====
-- `crates/secure-sudoers-utils/src/modules/network.rs`: replacing the policy and its signature by
-- those of a server. `Update.Fetch` reads from the server, `Update.Install` replaces the files.
pub mod Fetch
pub mod Check
pub mod Install
pub mod Saved
pub mod Drafts
pub mod Relock
pub mod Rollback
pub mod Replaced
pub mod Installed
pub mod Atomic
pub mod Verified
pub mod Limits
use secure_sudoers_setup.Base.{
  ℕ, ℤ, leb_ℤ, Bool, true, false, ◌==◌, not, ◌&&◌, List, [], ◌∷◌, ◌++◌, Option, none, some, Result,
  ok, err, map_err, if◌then◌else◌, length,
}
use secure_sudoers_setup.Text.{Text, lit, text_eq, show, show_int}
use secure_sudoers_setup.Error.{
  Error, IoError, io_context, validation, security, config, parse, to_text,
}
use secure_sudoers_setup.Fs.{FileSystem}
use secure_sudoers_setup.Regex.{RegexEngine}
use secure_sudoers_setup.Models.{SecureSudoersPolicy}
use secure_sudoers_setup.Models.Validate.{PathInfo, concat, validate}
use secure_sudoers_setup.Policy.{Codecs}
use secure_sudoers_setup.Policy.Pem.{PemFiles}
use secure_sudoers_setup.Keys.{load_verifying_key}
use secure_sudoers_setup.PathSecurity.{Owners}
use secure_sudoers_setup.Steps.{
  Step, ◌>>=◌, ◌>>◌, pure, fail, answer, attempt, or_error, continue, handled, renamed,
}
use secure_sudoers_setup.Disk.{Disk}
use secure_sudoers_setup.Update.Fetch.{
  Urls, Client, parse_policy_url, sanitize_url_for_logs, signature_url_for_policy, fetch_limited,
}
use secure_sudoers_setup.Update.Check.{
  Surroundings, serial_of, check_serial, check_scheme, verify_download,
}
use secure_sudoers_setup.Update.Install.{install_update}

module _ (w : Surroundings) where
  abbrev pub read_serial : Result IoError Text → Option ℤ
  read_serial (ok src) = serial_of (w.from_str src)
  read_serial (err e) = none

  -- The serial of the policy that is installed, if there is one.
  unfoldable pub current_serial : Text → Step w.disk.State Error (Option ℤ)
  current_serial policy_path =
      attempt (w.disk.read_to_string policy_path) (λ r. pure (read_serial r))

  -- The line that is printed at the end is left out.
  unfoldable pub run_with_client : Text → Text → Text → Bool → Step w.disk.State Error (Unit {0})
  run_with_client url pubkey_path policy_path require_https = do
    policy_url ← answer (parse_policy_url w.urls url)
    allowed ← answer (check_scheme w policy_url require_https)
    policy_bytes ← answer (fetch_limited w.urls w.client policy_url)
    sig_bytes ← answer (fetch_limited w.urls w.client (signature_url_for_policy w.urls policy_url))
    new_policy ← answer (verify_download w pubkey_path policy_bytes sig_bytes)
    current ← current_serial policy_path
    newer ← answer (check_serial new_policy.serial current)
    install_update w.fs w.owners w.disk policy_path policy_bytes sig_bytes

  -- `run`: only over HTTPS, for the policy that the gatekeeper loads.
  abbrev pub run : Text → Text → Step w.disk.State Error (Unit {0})
  run url pubkey_path = run_with_client url pubkey_path (lit "/etc/secure-sudoers/policy.json") true
