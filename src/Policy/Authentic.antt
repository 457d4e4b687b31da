-- ===== src/Policy/Authentic.antt =====
-- About `load_policy_with_pubkey` (helpers/policy.rs).
use secure_sudoers_setup.Base.{
  ℕ, ◌++◌, ◌==◌, List, Result, ok, ◌≡◌, >>=-eq-ok, map_err-eq-ok, map_err, length, ==_iff,
}
use secure_sudoers_setup.Text.{Text, lit}
use secure_sudoers_setup.Fs.{FileSystem}
use secure_sudoers_setup.Error.{IoError}
use secure_sudoers_setup.Regex.{RegexEngine}
use secure_sudoers_setup.Models.{SecureSudoersPolicy}
use secure_sudoers_setup.Models.Validate.{PathInfo, validate, guard}
use secure_sudoers_setup.Models.Ready.{guard-eq-ok}
use secure_sudoers_setup.Models.Validated.{IsReady, validate-IsReady}
use secure_sudoers_setup.Policy.Pem.{PemFiles, read_pem_bytes}
use secure_sudoers_setup.Policy.{
  Codecs, public_key_label, read_verifying_key, read_signature, load_policy_with_pubkey,
}

module _ (fs : FileSystem) (engine : RegexEngine) (info : PathInfo) (files : PemFiles)
    (codecs : Codecs) (read : Text → Result IoError (List ℕ)) where
  -- The bytes that were parsed are the bytes that the signature beside them signs, under the key.
  pub record IsAuthentic (path pubkey_path : Text) (policy : SecureSudoersPolicy) : Type 0 where
    pub bytes : List ℕ
    pub key : List ℕ
    pub signature : List ℕ
    pub parsed : SecureSudoersPolicy
    pub stored : read path ≡ ok bytes
    pub trusted : read_pem_bytes fs files pubkey_path public_key_label ≡ ok key
    pub key_length : length key ≡ 32
    pub beside : read (path ++ lit ".sig") ≡ ok signature
    pub signature_length : length signature ≡ 64
    pub signed : codecs.verify key bytes signature ≡ ok tt
    pub decoded : codecs.from_slice bytes ≡ ok parsed
    pub ready : IsReady engine info parsed policy

  read_verifying_key-ok :
      (pubkey_path : Text) (key : List ℕ)
      → read_verifying_key fs engine info files codecs read pubkey_path ≡ ok key
      → (read_pem_bytes fs files pubkey_path public_key_label ≡ ok key) × (length key ≡ 32)
  unfolding read_verifying_key
  read_verifying_key-ok pubkey_path key h =
      let (bytes, found, h1) =
        >>=-eq-ok (read_pem_bytes fs files pubkey_path public_key_label) _ h in
      let (_, sized, h2) = >>=-eq-ok (guard (length bytes == 32) _) _ h1 in
      let (_, valid, h3) = >>=-eq-ok (map_err _ (codecs.from_bytes bytes)) _ h2 in
      let same : bytes ≡ key = cc in
      rw (← same) (found, (==_iff (length bytes) 32).0 (guard-eq-ok _ _ sized))

  read_signature-ok :
      (sig_path : Text) (signature : List ℕ)
      → read_signature fs engine info files codecs read sig_path ≡ ok signature
      → (read sig_path ≡ ok signature) × (length signature ≡ 64)
  unfolding read_signature
  read_signature-ok sig_path signature h =
      let (bytes, found, h1) = >>=-eq-ok (map_err _ (read sig_path)) _ h in
      let (_, sized, h2) = >>=-eq-ok (guard (length bytes == 64) _) _ h1 in
      let same : bytes ≡ signature = cc in
      rw (← same) (
        map_err-eq-ok _ (read sig_path) found,
        (==_iff (length bytes) 64).0 (guard-eq-ok _ _ sized),
      )

  -- A policy that is loaded was signed: its bytes verify under the public key with the signature that
  -- stands beside them, it was parsed from those very bytes, and it is validated.
  pub load_policy-IsAuthentic :
      (path pubkey_path : Text) (policy : SecureSudoersPolicy)
      → load_policy_with_pubkey fs engine info files codecs read path pubkey_path ≡ ok policy
      → IsAuthentic path pubkey_path policy
  unfolding load_policy_with_pubkey
  load_policy-IsAuthentic path pubkey_path policy h =
      let (bytes, stored, h1) = >>=-eq-ok (map_err _ (read path)) _ h in
      let (key, trusted, h2) =
        >>=-eq-ok (read_verifying_key fs engine info files codecs read pubkey_path) _ h1 in
      let (signature, beside, h3) =
        >>=-eq-ok (read_signature fs engine info files codecs read (path ++ lit ".sig")) _ h2 in
      let (_, signed, h4) = >>=-eq-ok (map_err _ (codecs.verify key bytes signature)) _ h3 in
      let (parsed, decoded, h5) = >>=-eq-ok (map_err _ (codecs.from_slice bytes)) _ h4 in
      let (is_trusted, key_length) = read_verifying_key-ok pubkey_path key trusted in
      let (is_beside, signature_length) = read_signature-ok _ signature beside in
      record {
        bytes = bytes;
        key = key;
        signature = signature;
        parsed = parsed;
        stored = map_err-eq-ok _ (read path) stored;
        trusted = is_trusted;
        key_length = key_length;
        beside = is_beside;
        signature_length = signature_length;
        signed = map_err-eq-ok _ (codecs.verify key bytes signature) signed;
        decoded = map_err-eq-ok _ (codecs.from_slice bytes) decoded;
        ready =
            validate-IsReady engine info parsed policy
              (map_err-eq-ok _ (validate engine info parsed) h5);
      }
