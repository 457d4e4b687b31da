-- ===== src/Update/Check.antt =====
-- `crates/secure-sudoers-utils/src/modules/network.rs`: what is checked of a download.
use secure_sudoers_setup.Base.{
  ℕ, ℤ, leb_ℤ, Bool, ◌==◌, not, ◌&&◌, List, [], ◌∷◌, ◌++◌, Option, none, some, Result, ok, err,
  ◌>>=◌, ◌>>◌, map_err, if◌then◌else◌, length,
}
use secure_sudoers_setup.Text.{Text, lit, text_eq, show, show_int}
use secure_sudoers_setup.Error.{Error, validation, security, config, parse, to_text}
use secure_sudoers_setup.Fs.{FileSystem}
use secure_sudoers_setup.Regex.{RegexEngine}
use secure_sudoers_setup.Models.{SecureSudoersPolicy}
use secure_sudoers_setup.Models.Validate.{PathInfo, concat, validate, guard}
use secure_sudoers_setup.Policy.{Codecs}
use secure_sudoers_setup.Policy.Pem.{PemFiles}
use secure_sudoers_setup.Keys.{load_verifying_key}
use secure_sudoers_setup.PathSecurity.{Owners}
use secure_sudoers_setup.Disk.{Disk}
use secure_sudoers_setup.Update.Fetch.{Urls, Client, sanitize_url_for_logs}

-- What the update asks of its surroundings.
pub record Surroundings : Type 1 where
  pub fs : FileSystem
  pub owners : Owners
  pub disk : Disk
  pub engine : RegexEngine
  pub info : PathInfo
  pub files : PemFiles
  pub codecs : Codecs
  -- `serde_json::from_str`
  pub from_str : Text → Option SecureSudoersPolicy
  pub urls : Urls
  pub client : Client urls

abbrev pub serial_of : Option SecureSudoersPolicy → Option ℤ
serial_of none = none
serial_of (some policy) = some policy.serial

abbrev pub downgrade : ℤ → ℤ → Error
downgrade incoming current = config (
    concat (
      lit "Downgrade rejected: incoming serial "
      ∷ show_int incoming
      ∷ lit " <= current serial "
      ∷ show_int current
      ∷ []))

abbrev pub check_serial : ℤ → Option ℤ → Result Error (Unit {0})
check_serial incoming none = ok tt
check_serial incoming (some current) =
    if leb_ℤ incoming current then err (downgrade incoming current) else ok tt

abbrev pub bad_length : List ℕ → Error
bad_length sig_bytes =
    validation (lit "Signature must be 64 bytes; got " ++ show (length sig_bytes))

abbrev pub bad_signature : Text → Error
bad_signature e = security (lit "Signature verification failed: " ++ e)

abbrev pub bad_json : Text → Error
bad_json e = parse (lit "Downloaded policy is not valid JSON: " ++ e)

module _ (w : Surroundings) where
  -- The bytes are signed, they are a policy, and it is valid.
  unfoldable pub verify_download : Text → List ℕ → List ℕ → Result Error SecureSudoersPolicy
  verify_download pubkey_path policy_bytes sig_bytes = do
    verifying_key ← load_verifying_key w.fs w.files w.codecs pubkey_path
    guard (length sig_bytes == 64) (bad_length sig_bytes)
    map_err bad_signature (w.codecs.verify verifying_key policy_bytes sig_bytes)
    new_policy ← map_err bad_json (w.codecs.from_slice policy_bytes)
    map_err (λ e. validation (lit "Downloaded policy failed semantic validation: " ++ to_text e))
        (validate w.engine w.info new_policy)

  abbrev pub check_scheme : w.urls.Url → Bool → Result Error (Unit {0})
  check_scheme policy_url require_https =
      if require_https && not (text_eq (w.urls.scheme policy_url) (lit "https"))
      then err (
          security (
            lit "Security violation: URL must use HTTPS. Received: "
            ++ sanitize_url_for_logs w.urls policy_url))
      else ok tt
