-- ===== src/Binding/Identity.antt =====
-- About `verify_sudo_command_binding_internal` (helpers/binding.rs).
use secure_sudoers_setup.Base.{
  Bool, true, false, not, Option, some, Result, ok, err, ◌≡◌, ◌↔◌, ◌⊎◌, inl, inr, refl, arith,
  Bool-cases, map_err, >>=-eq-ok, map_err-eq-ok, is_empty, if◌then◌else◌,
}
use secure_sudoers_setup.Text.{Text, lit, text_eq, has_char}
use secure_sudoers_setup.Text.Laws.{text_eq_iff}
use secure_sudoers_setup.Fs.{Fd, SecurePath}
use secure_sudoers_setup.SudoCommand.{
  SudoCommandTokenError, invalid_prefix, missing_delegated_command, basename,
  delegated_command_token_from_sudo_command,
}
use secure_sudoers_setup.Binding.{
  ExecutableIdentity, SudoBindingError, Kernel, token_of, executable_identity_from_fd,
  executable_identity_from_path, compare_identities, verify_token,
  verify_sudo_command_binding_internal, same_identity,
}

same_identity_refl : (id : ExecutableIdentity) → same_identity id id ≡ true
same_identity_refl id = ground arith

token_of-ok : (r : Result SudoCommandTokenError Text) (t : Text) → token_of r ≡ ok t → r ≡ ok t
token_of-ok (ok u) t h = cc
token_of-ok (err invalid_prefix) t h = cc
token_of-ok (err missing_delegated_command) t h = cc

module _ (kernel : Kernel) (expected_binary : SecurePath) where
  -- The path has no zero byte, it opens, and it is the file behind the descriptor of the validated binary.
  abbrev pub IsSameFile : Text → Type 0
  IsSameFile path =
      (fd : Fd) × (id : ExecutableIdentity) × (has_char 0 path ≡ false)
      × (kernel.open_path path ≡ ok fd)
      × (kernel.fstat fd ≡ ok id)
      × (kernel.fstat expected_binary.fd ≡ ok id)

  -- The delegated word names the tool, and if it is a path, it is the validated file.
  pub record IsBound (tool_name sudo_cmd : Text) : Type 0 where
    pub token : Text
    pub delegated : delegated_command_token_from_sudo_command sudo_cmd ≡ ok token
    pub named : is_empty token ≡ false
    pub same_name : basename token ≡ basename tool_name
    pub same_file : (has_char b'/' token ≡ false) ⊎ IsSameFile token

  same_identity-eq : (a b : ExecutableIdentity) → same_identity a b ≡ true → a ≡ b
  same_identity-eq a b h = ground arith

  identity_from_path-ok :
      (path : Text) (id : ExecutableIdentity)
      → executable_identity_from_path kernel path ≡ ok id
      → (fd : Fd) × (has_char 0 path ≡ false)
        × (kernel.open_path path ≡ ok fd)
        × (kernel.fstat fd ≡ ok id)
  unfolding executable_identity_from_fd executable_identity_from_path
  identity_from_path-ok path id h = elim (Bool-cases (has_char 0 path)) [
    | inl nul ↦ let h' = rw nul at h in cc
    | inr clean ↦
        let (fd, opened, h') = >>=-eq-ok (map_err _ (kernel.open_path path)) _ (rw clean at h) in
        (
          fd,
          clean,
          map_err-eq-ok _ (kernel.open_path path) opened,
          map_err-eq-ok _ (kernel.fstat fd) (map_err-eq-ok _ (map_err _ (kernel.fstat fd)) h'),
        )
  ]

  compare_identities-IsSameFile :
      (tool path : Text)
      → compare_identities kernel tool expected_binary path ≡ ok tt
      → IsSameFile path
  unfolding compare_identities executable_identity_from_fd
  compare_identities-IsSameFile tool path h =
      let (id, found, h1) = >>=-eq-ok (map_err _ (executable_identity_from_path kernel path)) _ h in
      let (id', expected, h2) =
        >>=-eq-ok (map_err _ (map_err _ (kernel.fstat expected_binary.fd))) _ h1 in
      let (fd, clean, opened, stat) =
        identity_from_path-ok path id
          (map_err-eq-ok _ (executable_identity_from_path kernel path) found) in
      let same : id ≡ id' = same_identity-eq id id' (accepted (same_identity id id') _ h2) in
      (
        fd,
        id,
        clean,
        opened,
        stat,
        rw same (
            map_err-eq-ok _ _
              (map_err-eq-ok _ (map_err _ (kernel.fstat expected_binary.fd)) expected)),
      )
    where
      accepted :
          (b : Bool) (e : SudoBindingError) → (if not b then err e else ok tt) ≡ ok tt → b ≡ true
      accepted true e h = refl
      accepted false e h = cc

  IsSameFile-compare_identities :
      (tool path : Text)
      → IsSameFile path
      → compare_identities kernel tool expected_binary path ≡ ok tt
  unfolding compare_identities executable_identity_from_fd executable_identity_from_path
  IsSameFile-compare_identities tool path (fd, id, clean, opened, stat, expected) =
      rw (clean, opened) (rw (stat, expected) (rw (same_identity_refl id) refl))

  verify_token-ok :
      (tool_name token : Text)
      → (verify_token kernel tool_name expected_binary token ≡ ok tt) ↔ (
          (is_empty token ≡ false)
          × (basename token ≡ basename tool_name)
          × ((has_char b'/' token ≡ false) ⊎ IsSameFile token))
  unfolding verify_token
  verify_token-ok tool_name token = elim (Bool-cases (is_empty token)) [
    | inl empty ↦ (λ h. let h' = rw empty at h in cc, λ p. let never = p.0 in cc)
    | inr named ↦ elim (Bool-cases (text_eq (basename token) (basename tool_name))) [
      | inr other ↦ (
        λ h. let h' = rw (named, other) at h in cc,
        λ p. let e = (text_eq_iff (basename token) (basename tool_name)).1 p.1 in cc,
      )
      | inl same ↦
          let e = (text_eq_iff (basename token) (basename tool_name)).0 same in
          elim (Bool-cases (has_char b'/' token)) [
            | inr bare ↦ (λ h. (named, e, inl bare), λ p. rw (named, same, bare) refl)
            | inl path ↦ (
              λ h. (
                named,
                e,
                inr (compare_identities-IsSameFile _ token (rw (named, same, path) at h)),
              ),
              λ p. rw (named, same, path) (IsSameFile-compare_identities _ token (file p.2 path)),
            )
          ]
    ]
  ]
    where
      file :
          (has_char b'/' token ≡ false) ⊎ IsSameFile token
          → has_char b'/' token ≡ true
          → IsSameFile token
      file (inl bare) path = cc
      file (inr same) path = same

  -- Under sudo, the binding is accepted exactly when `SUDO_COMMAND` delegates to a word that is not
  -- empty and names the tool, and that word, if it is a path, opens the very file (device and inode)
  -- behind the descriptor of the validated binary.
  pub verify_sudo_command_binding_iff :
      (tool_name sudo_cmd : Text) (get_env : Text → Option Text)
      → get_env (lit "SUDO_COMMAND") ≡ some sudo_cmd
      → (verify_sudo_command_binding_internal kernel tool_name expected_binary get_env ≡ ok tt)
        ↔ IsBound tool_name sudo_cmd
  unfolding verify_sudo_command_binding_internal
  verify_sudo_command_binding_iff tool_name sudo_cmd get_env under = (
    λ h.
        let (token, found, h') =
          >>=-eq-ok (token_of (delegated_command_token_from_sudo_command sudo_cmd)) _
            (rw under at h) in
        let (named, same, file) = (verify_token-ok tool_name token).0 h' in
        record {
          token = token;
          delegated = token_of-ok _ token found;
          named = named;
          same_name = same;
          same_file = file;
        },
    λ b. rw (under) (
        rw (b.delegated)
          ((verify_token-ok tool_name b.token).1 (b.named, b.same_name, b.same_file))),
  )
