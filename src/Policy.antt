-- ===== src/Policy.antt =====
-- `crates/secure-sudoers/src/helpers/policy.rs`: loading the policy. Ed25519, JSON, base64 and the
-- reading of files are parameters. The paths are those of a release build.
pub mod Pem
pub mod Authentic
use secure_sudoers_setup.Base.{
  ℕ, Bool, true, false, not, ◌==◌, List, [], ◌∷◌, ◌++◌, Option, none, some, Result, ok, err, ◌>>=◌,
  ◌>>◌, map_err, if◌then◌else◌, length,
}
use secure_sudoers_setup.Text.{Text, lit, show}
use secure_sudoers_setup.Fs.{FileSystem}
use secure_sudoers_setup.Error.{Error, IoError, io_context, validation, security, parse, to_text}
use secure_sudoers_setup.Regex.{RegexEngine}
use secure_sudoers_setup.Models.{SecureSudoersPolicy}
use secure_sudoers_setup.Models.Validate.{PathInfo, validate, concat, guard}
use secure_sudoers_setup.Policy.Pem.{PemFiles, read_pem_bytes}

-- What the crates for signatures and JSON answer; an error is known by its text.
pub record Codecs : Type 0 where
  -- `VerifyingKey::from_bytes`
  pub from_bytes : List ℕ → Result Text (Unit {0})
  -- `verifying_key.verify(message, signature)`
  pub verify : List ℕ → List ℕ → List ℕ → Result Text (Unit {0})
  -- `serde_json::from_slice`
  pub from_slice : List ℕ → Result Text SecureSudoersPolicy

abbrev pub public_key_label : Text
public_key_label = lit "SECURE SUDOERS PUBLIC KEY"

abbrev pub public_key_path : Text
public_key_path = lit "/etc/secure-sudoers/secure_sudoers_public_key.pem"

module _ (fs : FileSystem) (engine : RegexEngine) (info : PathInfo) (files : PemFiles)
    (codecs : Codecs)
    -- `std::fs::read`
    (read : Text → Result IoError (List ℕ)) where
  -- The key's text is read, decoded, measured and checked.
  unfoldable pub read_verifying_key : Text → Result Error (List ℕ)
  read_verifying_key pubkey_path = do
    pubkey_bytes ← read_pem_bytes fs files pubkey_path public_key_label
    guard (length pubkey_bytes == 32)
        (validation (lit "Integrity failure: public key must be 32 bytes"))
    valid ←
        map_err (λ e. validation (lit "Integrity failure: invalid public key: " ++ e))
          (codecs.from_bytes pubkey_bytes)
    ok pubkey_bytes

  unfoldable pub read_signature : Text → Result Error (List ℕ)
  read_signature sig_path = do
    sig_bytes ←
        map_err
          (io_context (
            concat (
              lit "Integrity failure: policy signature file "
              ∷ sig_path
              ∷ lit " missing or unreadable"
              ∷ [])))
          (read sig_path)
    guard (length sig_bytes == 64) (
        validation (
          concat (
            lit "Integrity failure: signature must be 64 bytes (got "
            ∷ show (length sig_bytes)
            ∷ lit ")"
            ∷ [])))
    ok sig_bytes

  unfoldable pub load_policy_with_pubkey : Text → Text → Result Error SecureSudoersPolicy
  load_policy_with_pubkey path pubkey_path = do
    policy_bytes ← map_err (io_context (lit "Failed to read policy " ++ path)) (read path)
    verifying_key ← read_verifying_key pubkey_path
    signature ← read_signature (path ++ lit ".sig")
    verified ←
        map_err
          (λ e. security (
            concat (
              lit "Integrity failure: policy signature verification failed for "
              ∷ path
              ∷ lit ": "
              ∷ e
              ∷ [])))
          (codecs.verify verifying_key policy_bytes signature)
    policy ←
        map_err (λ e. parse (lit "Failed to parse validated policy JSON: " ++ e))
          (codecs.from_slice policy_bytes)
    map_err (λ e. validation (lit "Policy validation failed: " ++ to_text e))
        (validate engine info policy)

  -- `load_policy`, with the path of the key that a release build uses.
  unfoldable pub load_policy : Text → Result Error SecureSudoersPolicy
  load_policy path = load_policy_with_pubkey path public_key_path
