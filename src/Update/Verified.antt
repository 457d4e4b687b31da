-- ===== src/Update/Verified.antt =====
-- About `run_with_client` (network.rs): what is installed.
use secure_sudoers_setup.Base.{
  ℕ, ℤ, leb_ℤ, Bool, true, false, List, Option, none, some, Result, ok, err, ◌≡◌, refl, inl, inr,
  ◌⊎◌, length, ◌==◌, ==_iff, map_err-eq-ok, map_err, >>=-eq-ok, Bool-cases, Option-cases,
}
use secure_sudoers_setup.Text.{Text, lit, text_eq}
use secure_sudoers_setup.Text.Laws.{text_eq_iff}
use secure_sudoers_setup.Error.{Error, IoError}
use secure_sudoers_setup.Models.{SecureSudoersPolicy}
use secure_sudoers_setup.Models.Validate.{validate, guard}
use secure_sudoers_setup.Keys.{load_verifying_key}
use secure_sudoers_setup.Steps.{Step, Post, good, bad, Post-weaken, Post-itself, answer, ◌>>=◌}
use secure_sudoers_setup.Disk.Laws.{View, IsLawful, Same, SameFiles}
use secure_sudoers_setup.Update.Fetch.{parse_policy_url, signature_url_for_policy, fetch_limited}
use secure_sudoers_setup.Update.Install.{install_update}
use secure_sudoers_setup.Update.Check.{
  Surroundings, check_serial, check_scheme, downgrade, verify_download, bad_length, bad_signature,
  bad_json,
}
use secure_sudoers_setup.Update.{current_serial, read_serial, run_with_client}
use secure_sudoers_setup.Models.Ready.{guard-eq-ok}

module _ (w : Surroundings) where
  -- The bytes are signed under the key, and the policy is what they say, validated.
  pub record IsSigned (pubkey_path : Text) (policy_bytes sig_bytes : List ℕ)
      (new_policy : SecureSudoersPolicy) : Type 0 where
    pub key : List ℕ
    pub parsed : SecureSudoersPolicy
    pub loaded : load_verifying_key w.fs w.files w.codecs pubkey_path ≡ ok key
    pub measured : length sig_bytes ≡ 64
    pub verified : w.codecs.verify key policy_bytes sig_bytes ≡ ok tt
    pub read : w.codecs.from_slice policy_bytes ≡ ok parsed
    pub validated : validate w.engine w.info parsed ≡ ok new_policy

  verify_download-IsSigned :
      (pubkey_path : Text) (policy_bytes sig_bytes : List ℕ) (p : SecureSudoersPolicy)
      → verify_download w pubkey_path policy_bytes sig_bytes ≡ ok p
      → IsSigned pubkey_path policy_bytes sig_bytes p
  unfolding verify_download
  verify_download-IsSigned pubkey_path policy_bytes sig_bytes p h =
      let (key, loaded, h1) =
        >>=-eq-ok (load_verifying_key w.fs w.files w.codecs pubkey_path) _ h in
      let (unit, measured, h2) =
        >>=-eq-ok (guard (length sig_bytes == 64) (bad_length sig_bytes)) _ h1 in
      let (also, verified, h3) =
        >>=-eq-ok (map_err bad_signature (w.codecs.verify key policy_bytes sig_bytes)) _ h2 in
      let (parsed, read, validated) =
        >>=-eq-ok (map_err bad_json (w.codecs.from_slice policy_bytes)) _ h3 in
      record {
        key = key;
        parsed = parsed;
        loaded = loaded;
        measured = (==_iff (length sig_bytes) 64).0 (guard-eq-ok _ _ measured);
        verified = map_err-eq-ok _ (w.codecs.verify key policy_bytes sig_bytes) verified;
        read = map_err-eq-ok _ (w.codecs.from_slice policy_bytes) read;
        validated = map_err-eq-ok _ (validate w.engine w.info parsed) validated;
      }

  module _ (url pubkey_path policy_path : Text) (require_https : Bool) (view : View w.disk) where
    -- What has passed before the files are replaced.
    pub record IsVerified (s : w.disk.State) (p : Result Error Unit × w.disk.State) : Type 0 where
      pub policy_url : w.urls.Url
      pub policy_bytes : List ℕ
      pub sig_bytes : List ℕ
      pub new_policy : SecureSudoersPolicy
      pub current : Option ℤ
      pub parsed : w.urls.parse url ≡ some policy_url
      pub https : require_https ≡ true → w.urls.scheme policy_url ≡ lit "https"
      pub fetched : fetch_limited w.urls w.client policy_url ≡ ok policy_bytes
      pub fetched_sig :
          fetch_limited w.urls w.client (signature_url_for_policy w.urls policy_url) ≡ ok sig_bytes
      pub signed : IsSigned pubkey_path policy_bytes sig_bytes new_policy
      pub found : current ≡ read_serial w (w.disk.read_to_string policy_path s).0
      pub newer : (serial : ℤ) → current ≡ some serial → leb_ℤ new_policy.serial serial ≡ false
      pub before : w.disk.State
      pub same : SameFiles view s before
      pub installed :
          install_update w.fs w.owners w.disk policy_path policy_bytes sig_bytes before ≡ p

    check_serial-newer :
        (incoming : ℤ) (o : Option ℤ)
        → check_serial incoming o ≡ ok tt
        → (serial : ℤ) → o ≡ some serial
        → leb_ℤ incoming serial ≡ false
    check_serial-newer incoming none h serial e = absurd cc
    check_serial-newer incoming (some current) h serial e =
        elim (Bool-cases (leb_ℤ incoming current)) [
          | inl older ↦ absurd (refused (rw older at h))
          | inr newer ↦ (let same : current ≡ serial = cc in rw (← same) newer)
        ]
      where
        refused : err (downgrade incoming current) ≡ ok tt → ⊥
        refused h = cc

    check_scheme-https :
        (u : w.urls.Url)
        → check_scheme w u require_https ≡ ok tt
        → require_https ≡ true
        → w.urls.scheme u ≡ lit "https"
    check_scheme-https u h required = elim (Bool-cases (text_eq (w.urls.scheme u) (lit "https"))) [
      | inl same ↦ (text_eq_iff (w.urls.scheme u) (lit "https")).0 same
      | inr other ↦ absurd (refused _ (rw (required, other) at h))
    ]
      where
        refused : (e : Error) → err e ≡ ok tt → ⊥
        refused e h = cc

    parse_policy_url-parsed :
        (u : w.urls.Url) → parse_policy_url w.urls url ≡ ok u → w.urls.parse url ≡ some u
    unfolding parse_policy_url
    parse_policy_url-parsed u h = elim (Option-cases (w.urls.parse url)) [
      | inl none_there ↦ absurd (refused _ (rw (none_there, parse_policy_url) at h))
      | inr (v, e) ↦ (let same : v ≡ u = kept v (rw (e, parse_policy_url) at h) in rw (← same) e)
    ]
      where
        refused : (e : Error) → err e ≡ ok u → ⊥
        refused e h = cc

        kept : (v : w.urls.Url) → ◌≡◌ {A = Result Error w.urls.Url} (ok v) (ok u) → v ≡ u
        kept v h = cc

    -- Where the file system is lawful, `run_with_client` changes no file, or all of this has passed:
    -- the URL is parsed, and its scheme is `https` where this is required; the policy and its
    -- signature were fetched, the signature has 64 bytes and verifies the policy's bytes under the
    -- key, the policy was parsed from these bytes and is valid, and its serial is greater than that of
    -- the installed policy, if one is read. Then the run is `install_update` with these bytes, from a
    -- state with the same files.
    pub run_with_client-IsVerified :
        IsLawful view
        → (s : w.disk.State)
        → Post
            (λ done t. IsVerified s (ok done, t))
            (λ e t. SameFiles view s t ⊎ IsVerified s (err e, t))
            (run_with_client w url pubkey_path policy_path require_https s)
    unfolding run_with_client current_serial
    run_with_client-IsVerified lawful s =
        by_answer (parse_policy_url w.urls url) _ s (same s) λ policy_url parsed.
          by_answer (check_scheme w policy_url require_https) _ s (same s) λ allowed https.
            by_answer (fetch_limited w.urls w.client policy_url) _ s (same s)
              λ policy_bytes fetched.
                by_answer
                  (fetch_limited w.urls w.client (signature_url_for_policy w.urls policy_url)) _ s
                  (same s)
                  λ sig_bytes fetched_sig.
                    by_answer (verify_download w pubkey_path policy_bytes sig_bytes) _ s (same s)
                      λ new_policy signed.
                        let read = w.disk.read_to_string policy_path s in
                        by_answer (check_serial new_policy.serial (read_serial w read.0)) _ read.1
                          (files_of read (lawful.read_to_string_lem policy_path s))
                          λ newer checked.
                            by_install policy_url policy_bytes sig_bytes new_policy parsed https
                              fetched fetched_sig signed checked read.1
                              (files_of read (lawful.read_to_string_lem policy_path s))
      where
        same : (t : w.disk.State) → SameFiles view t t
        same t fd name = refl

        files_of :
            (p : Result IoError Text × w.disk.State)
            → Post (λ src t. Same view s t) (λ e t. Same view s t) p
            → SameFiles view s p.1
        files_of (ok src, t) (good all) = all.0
        files_of (err e, t) (bad all) = all.0

        by_install :
            (policy_url : w.urls.Url) (policy_bytes sig_bytes : List ℕ)
            (new_policy : SecureSudoersPolicy)
            → parse_policy_url w.urls url ≡ ok policy_url
            → check_scheme w policy_url require_https ≡ ok tt
            → fetch_limited w.urls w.client policy_url ≡ ok policy_bytes
            → fetch_limited w.urls w.client (signature_url_for_policy w.urls policy_url)
              ≡ ok sig_bytes
            → verify_download w pubkey_path policy_bytes sig_bytes ≡ ok new_policy
            → check_serial new_policy.serial (read_serial w (w.disk.read_to_string policy_path s).0)
              ≡ ok tt
            → (t : w.disk.State) → SameFiles view s t
            → Post
                (λ done u. IsVerified s (ok done, u))
                (λ e u. SameFiles view s u ⊎ IsVerified s (err e, u))
                (install_update w.fs w.owners w.disk policy_path policy_bytes sig_bytes t)
        by_install policy_url policy_bytes sig_bytes new_policy parsed https fetched fetched_sig
              signed checked t files =
            Post-weaken _
              (Post-itself
                (install_update w.fs w.owners w.disk policy_path policy_bytes sig_bytes t))
              (λ done u e. verified (ok done, u) e) (λ e u h. inr (verified (err e, u) h))
          where
            verified :
                (p : Result Error Unit × w.disk.State)
                → install_update w.fs w.owners w.disk policy_path policy_bytes sig_bytes t ≡ p
                → IsVerified s p
            verified p e = record {
              policy_url = policy_url;
              policy_bytes = policy_bytes;
              sig_bytes = sig_bytes;
              new_policy = new_policy;
              current = read_serial w (w.disk.read_to_string policy_path s).0;
              parsed = parse_policy_url-parsed policy_url parsed;
              https = check_scheme-https policy_url https;
              fetched = fetched;
              fetched_sig = fetched_sig;
              signed =
                  verify_download-IsSigned pubkey_path policy_bytes sig_bytes new_policy signed;
              found = refl;
              newer = check_serial-newer new_policy.serial _ checked;
              before = t;
              same = files;
              installed = e;
            }

        by_answer :
            {A : Type 0} (r : Result Error A) (next : A → Step w.disk.State Error Unit)
            (t : w.disk.State)
            → SameFiles view s t
            → ((a : A)
                → r ≡ ok a
                → Post
                    (λ done u. IsVerified s (ok done, u))
                    (λ e u. SameFiles view s u ⊎ IsVerified s (err e, u))
                    (next a t))
            → Post
                (λ done u. IsVerified s (ok done, u))
                (λ e u. SameFiles view s u ⊎ IsVerified s (err e, u))
                ((answer r >>= next) t)
        by_answer (ok a) next t files rest = rest a refl
        by_answer (err e) next t files rest = bad (inl files)
