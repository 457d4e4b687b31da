-- ===== src/Examples/Logs.antt =====
-- Arguments and their trace in the log.
use secure_sudoers_setup.Base.{
  true, false, [], ◌∷◌, ◌++◌, none, some, ◌≡◌, refl, arith, map, if◌then◌else◌,
}
use secure_sudoers_setup.Text.{Text, lit, text_eq, starts_with, split_once, has_char}
use secure_sudoers_setup.Map.{get, contains_key}
use secure_sudoers_setup.Redaction.{
  State, start, redacted, equals_redacted, dash, double_dash, redact_loop, redact_keys_only,
  redact_args,
}
use secure_sudoers_setup.Redaction.Hides.{
  sensitive_long_flag_hides, sensitive_short_flag_hides, delimited_hides, known_long_flag_dropped,
  keys_only_hides,
}
use secure_sudoers_setup.Base.{List, here, ◌↔◌, ◌≢◌}
use secure_sudoers_setup.Models.{SecureSudoersPolicy, keys_only, full}
use secure_sudoers_setup.Redaction.Panics.{Panics, cut, redact_args-Panics_iff}
use secure_sudoers_setup.Redaction.Outline.{
  SameKeys, no_args, next_arg, other_value, other_attached, other_positional, unlisted_hides,
}
use secure_sudoers_setup.Examples.Data.{apt, policy}

abbrev token : Text
unfolding lit
token = lit "--token"

abbrev quiet : Text
unfolding lit
quiet = lit "--quiet"

sensitive_long_flag_hides_example :
    redact_loop apt start (token ∷ lit "hunter2" ∷ []) ≡ token ∷ redacted ∷ redact_loop apt start []
unfolding lit starts_with text_eq split_once get
sensitive_long_flag_hides_example =
    sensitive_long_flag_hides apt start token (lit "hunter2") [] (refl, refl) refl refl refl refl

sensitive_short_flag_hides_example :
    redact_loop apt start ((b'-' ∷ b'p' ∷ []) ∷ lit "hunter2" ∷ [])
    ≡ (b'-' ∷ b'p' ∷ []) ∷ redacted ∷ redact_loop apt start []
unfolding lit text_eq get
sensitive_short_flag_hides_example =
    sensitive_short_flag_hides apt start b'p' (lit "hunter2") [] (refl, refl) refl refl refl

abbrev behind : State
behind = record { skip_next = false; after_double_dash = true }

delimited_hides_example :
    redact_loop apt behind (lit "hunter2" ∷ token ∷ [])
    ≡ map
        (λ (a : Text). if text_eq a double_dash then double_dash else redacted)
        (lit "hunter2" ∷ token ∷ [])
unfolding lit
delimited_hides_example = delimited_hides apt behind (lit "hunter2" ∷ token ∷ []) refl refl refl

known_long_flag_dropped_example : redact_loop apt start (quiet ∷ []) ≡ redact_loop apt start []
unfolding lit starts_with text_eq split_once get contains_key
known_long_flag_dropped_example =
    known_long_flag_dropped apt start quiet [] (refl, refl) refl refl refl refl refl

keys_only_hides_example :
    (redact_keys_only (lit "--pw" ++ b'=' ∷ lit "hunter2")
      ≡ some (if starts_with (lit "--pw") dash then equals_redacted (lit "--pw") else redacted))
    × (redact_keys_only (lit "hunter2") ≡ some redacted)
unfolding lit has_char starts_with
keys_only_hides_example = keys_only_hides (lit "--pw") (lit "hunter2") (lit "hunter2") refl refl

-- The policy, in the mode that shows keys only.
abbrev open_keys : SecureSudoersPolicy
open_keys = record policy {
  global_settings = record policy.global_settings { unauthorized_audit_mode = keys_only };
}

accent : Panics ((b'-' ∷ 0xe9 ∷ []) ∷ []) open_keys (lit "rm")
unfolding lit get text_eq split_once
accent = record {
  unlisted = refl;
  mode = refl;
  arg = b'-' ∷ 0xe9 ∷ [];
  place = here;
  broken = cut 0xe9 [] (omega arith) refl;
}

redact_args-Panics_iff_example :
    (redact_args ((b'-' ∷ 0xe9 ∷ []) ∷ []) open_keys (lit "rm") ≡ none)
    ↔ Panics ((b'-' ∷ 0xe9 ∷ []) ∷ []) open_keys (lit "rm")
redact_args-Panics_iff_example =
    redact_args-Panics_iff ((b'-' ∷ 0xe9 ∷ []) ∷ []) open_keys (lit "rm")

-- Two passwords, each in three places.
abbrev first_call : List Text
unfolding lit
first_call = lit "--pw=abc" ∷ lit "-pabc" ∷ lit "abc" ∷ []

abbrev second_call : List Text
unfolding lit
second_call = lit "--pw=secret" ∷ lit "-psecret" ∷ lit "secret" ∷ []

two_passwords : SameKeys first_call second_call
unfolding lit has_char split_once starts_with
two_passwords = next_arg (other_value (lit "--pw") (lit "abc") (lit "secret") refl) (
    next_arg (other_attached refl (omega arith) refl refl)
      (next_arg (other_positional refl refl) no_args))

hides_keys : open_keys.global_settings.unauthorized_audit_mode ≢ full
hides_keys e = cc

unlisted_hides_example :
    redact_args first_call open_keys (lit "rm") ≡ redact_args second_call open_keys (lit "rm")
unfolding lit get text_eq
unlisted_hides_example =
    unlisted_hides first_call second_call open_keys (lit "rm") refl hides_keys two_passwords
