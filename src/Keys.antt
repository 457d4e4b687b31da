-- ===== src/Keys.antt =====
-- `crates/secure-sudoers-utils/src/modules/keys.rs`: reading keys.
use secure_sudoers_setup.Base.{ℕ, ◌==◌, List, [], ◌∷◌, Result, ok, ◌>>=◌, ◌>>◌, map_err, length}
use secure_sudoers_setup.Text.{Text, lit, show}
use secure_sudoers_setup.Error.{Error, validation}
use secure_sudoers_setup.Fs.{FileSystem}
use secure_sudoers_setup.Models.Validate.{concat, guard}
use secure_sudoers_setup.Policy.{Codecs, public_key_label}
use secure_sudoers_setup.Policy.Pem.{PemFiles, read_pem_bytes}

module _ (fs : FileSystem) (files : PemFiles) where
  -- A key is known by its bytes.
  unfoldable pub load_signing_key : Text → Result Error (List ℕ)
  load_signing_key path = do
    bytes ← read_pem_bytes fs files path (lit "SECURE SUDOERS PRIVATE KEY")
    guard (length bytes == 32) (
        validation
          (concat (lit "Private key must be 32 bytes (got " ∷ show (length bytes) ∷ lit ")" ∷ [])))
    ok bytes

  unfoldable pub load_verifying_key : Codecs → Text → Result Error (List ℕ)
  load_verifying_key codecs path = do
    bytes ← read_pem_bytes fs files path public_key_label
    guard (length bytes == 32) (
        validation
          (concat (lit "Public key must be 32 bytes (got " ∷ show (length bytes) ∷ lit ")" ∷ [])))
    valid ←
        map_err (λ e. validation (concat (lit "Invalid public key in " ∷ path ∷ lit ": " ∷ e ∷ [])))
          (codecs.from_bytes bytes)
    ok bytes
