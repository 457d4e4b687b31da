-- ===== src/Invocation/Agreement.antt =====
-- About `parse_invocation_internal` (helpers/invocation.rs) under sudo.
use secure_sudoers_setup.Base.{
  true, false, List, [], ◌∷◌, Option, none, some, Result, ok, err, ◌≡◌, ◌≢◌, inl, inr, refl, arith,
  Bool-cases, ◌>>=◌, >>=-eq-ok, is_empty, sym, ◌∙◌,
}
use secure_sudoers_setup.Text.{Text, lit, text_eq}
use secure_sudoers_setup.Text.Laws.{text_eq_iff}
use secure_sudoers_setup.Path.{file_name}
use secure_sudoers_setup.Error.{Error, spoofing}
use secure_sudoers_setup.SudoCommand.{
  SudoCommandTokenError, invalid_prefix, missing_delegated_command, basename, is_own_name,
  delegated_command_token_from_sudo_command,
}
use secure_sudoers_setup.Invocation.{
  Called, read_argv, called_through, invalid_prefix_error, missing_token_error, mismatch_error,
  agree, token_of, parse_invocation_internal, or_empty, with_sudo_command,
}

-- The word for the tool in `argv`, and the arguments behind it.
pub data CalledAs : List Text → Text → List Text → Type 0 where
  direct :
      (argv0 : Text) (args : List Text)
      → is_own_name (or_empty (file_name argv0)) ≡ false
      → CalledAs (argv0 ∷ args) argv0 args
  through :
      (argv0 token : Text) (args : List Text)
      → is_own_name (or_empty (file_name argv0)) ≡ true
      → CalledAs (argv0 ∷ token ∷ args) token args
  alone :
      (argv0 : Text) → is_own_name (or_empty (file_name argv0)) ≡ true → CalledAs (argv0 ∷ []) [] []

read_argv-CalledAs :
    (argv0 : Text) (argv : List Text)
    → CalledAs (argv0 ∷ argv) (read_argv argv0 argv).token (read_argv argv0 argv).args
unfolding read_argv
read_argv-CalledAs argv0 argv = elim (Bool-cases (is_own_name (or_empty (file_name argv0)))) [
  | inl own ↦ rw own (behind argv own)
  | inr other ↦ rw other (direct argv0 argv other)
]
  where
    behind :
        (argv : List Text)
        → is_own_name (or_empty (file_name argv0)) ≡ true
        → CalledAs (argv0 ∷ argv) (called_through argv).token (called_through argv).args
    behind [] own = alone argv0 own
    behind (t ∷ args) own = through argv0 t args own

-- The word that sudo was asked for is there, and it names the same tool as `argv`.
pub record Agrees (sudo_cmd : Text) (argv : List Text) (tool : Text) (args : List Text)
    : Type 0 where
  pub sudo_token : Text
  pub argv_token : Text
  pub delegated : delegated_command_token_from_sudo_command sudo_cmd ≡ ok sudo_token
  pub named : sudo_token ≢ []
  pub called : CalledAs argv argv_token args
  pub from_sudo : tool ≡ basename sudo_token
  pub from_argv : tool ≡ basename argv_token

token_of-ok : (r : Result SudoCommandTokenError Text) (t : Text) → token_of r ≡ ok t → r ≡ ok t
token_of-ok (ok u) t h = cc
token_of-ok (err invalid_prefix) t h = cc
token_of-ok (err missing_delegated_command) t h = cc

agree-ok :
    (called : Called) (token tool : Text) (args : List Text)
    → agree called token ≡ ok (tool, args)
    → (is_empty token ≡ false)
      × (basename token ≡ basename called.token)
      × (tool ≡ basename token)
      × (args ≡ called.args)
unfolding agree
agree-ok called token tool args h =
    ground (arith, text_eq_iff (basename token) (basename called.token))

named_of : (t : Text) → is_empty t ≡ false → t ≢ []
named_of [] h e = cc
named_of (c ∷ t) h e = cc

-- Under sudo, an invocation with an `argv` that is not empty is accepted only if it names the tool that
-- sudo was asked for, by a word that
-- is not empty, and the arguments are those of `argv`.
pub parse_invocation-Agrees :
    (argv : List Text) (get_env : Text → Option Text) (sudo_cmd tool : Text) (args : List Text)
    → argv ≢ []
    → get_env (lit "SUDO_COMMAND") ≡ some sudo_cmd
    → parse_invocation_internal argv get_env ≡ ok (tool, args)
    → Agrees sudo_cmd argv tool args
unfolding parse_invocation_internal
parse_invocation-Agrees [] get_env sudo_cmd tool args called under h = absurd (called refl)
parse_invocation-Agrees (argv0 ∷ argv) get_env sudo_cmd tool args called under h =
    let (token, found, h') =
      >>=-eq-ok (token_of (delegated_command_token_from_sudo_command sudo_cmd)) _ (rw under at h) in
    let (named, same, tool_name, same_args) = agree-ok (read_argv argv0 argv) token tool args h' in
    record {
      sudo_token = token;
      argv_token = (read_argv argv0 argv).token;
      delegated = token_of-ok _ token found;
      named = named_of token named;
      called = rw same_args (read_argv-CalledAs argv0 argv);
      from_sudo = tool_name;
      from_argv = tool_name ∙ same;
    }

abbrev pub IsSpoofing : Error → Type 0
IsSpoofing e = (t : Text) × (e ≡ spoofing t)

token_of-IsSpoofing :
    (r : Result SudoCommandTokenError Text) (e : Error) → token_of r ≡ err e → IsSpoofing e
token_of-IsSpoofing (ok u) e h = cc
token_of-IsSpoofing (err invalid_prefix) e h =
    let same : invalid_prefix_error ≡ e = cc in (_, sym same)
token_of-IsSpoofing (err missing_delegated_command) e h =
    let same : missing_token_error ≡ e = cc in (_, sym same)

agree-IsSpoofing :
    (called : Called) (token : Text) (e : Error) → agree called token ≡ err e → IsSpoofing e
unfolding agree
agree-IsSpoofing called token e h = elim (Bool-cases (is_empty token)) [
  | inl empty ↦ let h' = rw empty at h in let same : missing_token_error ≡ e = cc in (_, sym same)
  | inr named ↦ elim (Bool-cases (text_eq (basename token) (basename called.token))) [
    | inl same ↦ let h' = rw (named, same) at h in cc
    | inr other ↦
        let h' = rw (named, other) at h in
        let same : mismatch_error (basename called.token) (basename token) ≡ e = cc in (_, sym same)
  ]
]

-- The only refusals of an invocation are spoofing errors, and there are none outside sudo.
pub parse_invocation-IsSpoofing :
    (argv : List Text) (get_env : Text → Option Text) (e : Error)
    → parse_invocation_internal argv get_env ≡ err e
    → IsSpoofing e × (get_env (lit "SUDO_COMMAND") ≢ none)
unfolding parse_invocation_internal
parse_invocation-IsSpoofing [] get_env e h = cc
parse_invocation-IsSpoofing (argv0 ∷ argv) get_env e h = by_env (get_env (lit "SUDO_COMMAND")) h
  where
    by_token :
        (r : Result Error Text)
        → ((e' : Error) → r ≡ err e' → IsSpoofing e')
        → (r >>= agree (read_argv argv0 argv)) ≡ err e
        → IsSpoofing e
    by_token (ok token) bad h = agree-IsSpoofing (read_argv argv0 argv) token e h
    by_token (err e') bad h = bad e cc

    by_env :
        (o : Option Text)
        → with_sudo_command (read_argv argv0 argv) o ≡ err e
        → IsSpoofing e × (o ≢ none)
    by_env none h = cc
    by_env (some sudo_cmd) h = (
      by_token (token_of (delegated_command_token_from_sudo_command sudo_cmd))
          (token_of-IsSpoofing (delegated_command_token_from_sudo_command sudo_cmd)) h,
      λ never. cc,
    )
