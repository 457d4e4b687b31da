-- ===== src/Redaction/Outline.antt =====
-- About `redact_args` (helpers/redaction.rs) for tools that the policy does not list.
use secure_sudoers_setup.Base.{
  ℕ, suc, ◌<◌, false, List, [], ◌∷◌, ◌++◌, none, some, ◌≡◌, ◌≢◌, refl, ◌∙◌, sym, ap, length, arith,
  ◌==◌,
}
use secure_sudoers_setup.Text.{Text, starts_with, split_once, byte_len, utf8_len, has_char}
use secure_sudoers_setup.Map.{get}
use secure_sudoers_setup.Models.{
  SecureSudoersPolicy, UnauthorizedAuditMode, minimal, keys_only, full,
}
use secure_sudoers_setup.Redaction.{
  redacted, dash, redact_key, redact_keys_only, redact_all_keys, redact_unauthorized, redact_args,
}
use secure_sudoers_setup.Redaction.Hides.{keys_only_hides}

-- Two arguments that differ in a value only: behind the first `=`, behind a flag of one ASCII
-- character, or as a whole where neither begins with a dash.
pub data SameKey : Text → Text → Type 0 where
  same : {arg : Text} → SameKey arg arg
  other_value :
      (key v v' : Text) → has_char b'=' key ≡ false → SameKey (key ++ b'=' ∷ v) (key ++ b'=' ∷ v')
  other_attached :
      {c x x' : ℕ} {v v' : Text}
      → (c == b'-') ≡ false
      → c < 0x80
      → split_once b'=' (b'-' ∷ c ∷ x ∷ v) ≡ none
      → split_once b'=' (b'-' ∷ c ∷ x' ∷ v') ≡ none
      → SameKey (b'-' ∷ c ∷ x ∷ v) (b'-' ∷ c ∷ x' ∷ v')
  other_positional :
      {arg arg' : Text}
      → starts_with arg dash ≡ false
      → starts_with arg' dash ≡ false
      → SameKey arg arg'

pub data SameKeys : List Text → List Text → Type 0 where
  no_args : SameKeys [] []
  next_arg :
      {arg arg' : Text} {args args' : List Text}
      → SameKey arg arg'
      → SameKeys args args'
      → SameKeys (arg ∷ args) (arg' ∷ args')

attached_lem :
    (c x : ℕ) (v : Text)
    → (c == b'-') ≡ false
    → c < 0x80
    → redact_key (b'-' ∷ c ∷ x ∷ v) none ≡ some ((b'-' ∷ c ∷ []) ++ redacted)
unfolding starts_with byte_len utf8_len
attached_lem c x v short ascii = ground arith

same_shown : (arg arg' : Text) → SameKey arg arg' → redact_keys_only arg ≡ redact_keys_only arg'
unfolding redact_keys_only starts_with has_char
same_shown arg _ same = refl
same_shown _ _ (other_value key v v' clean) =
    (keys_only_hides key v [] clean refl).0 ∙ sym (keys_only_hides key v' [] clean refl).0
same_shown _ _ (other_attached {c} {x} {x'} {v} {v'} short ascii plain plain') =
    rw (plain, plain') (attached_lem c x v short ascii ∙ sym (attached_lem c x' v' short ascii))
same_shown arg arg' (other_positional plain plain') =
    (keys_only_hides [] [] arg refl plain).1 ∙ sym (keys_only_hides [] [] arg' refl plain').1

same_all :
    (args args' : List Text) → SameKeys args args' → redact_all_keys args ≡ redact_all_keys args'
unfolding redact_all_keys
same_all _ _ no_args = refl
same_all _ _ (next_arg {arg} {arg'} {args} {args'} first rest) =
    rw (same_shown arg arg' first, same_all args args' rest) refl

same_length : (args args' : List Text) → SameKeys args args' → length args ≡ length args'
same_length _ _ no_args = refl
same_length _ _ (next_arg {arg} {arg'} {args} {args'} first rest) =
    ap suc (same_length args args' rest)

-- For a tool that the policy does not list, and in every mode but `full`, two invocations whose
-- arguments differ in values only, each at its place, leave the same log: values behind the first `=`,
-- values attached to a flag of one ASCII character, and arguments that do not begin with a dash.
pub unlisted_hides :
    (args args' : List Text) (policy : SecureSudoersPolicy) (tool_name : Text)
    → get tool_name policy.tools ≡ none
    → policy.global_settings.unauthorized_audit_mode ≢ full
    → SameKeys args args'
    → redact_args args policy tool_name ≡ redact_args args' policy tool_name
unfolding redact_args redact_unauthorized
unlisted_hides args args' policy tool_name unlisted hidden alike =
    rw unlisted (by_mode policy.global_settings.unauthorized_audit_mode hidden)
  where
    by_mode :
        (mode : UnauthorizedAuditMode)
        → mode ≢ full
        → redact_unauthorized mode args ≡ redact_unauthorized mode args'
    by_mode minimal h = rw (same_length args args' alike) refl
    by_mode keys_only h = same_all args args' alike
    by_mode full h = absurd (h refl)
