-- ===== src/Redaction/Panics.antt =====
-- About the slice `&arg[..2]` in `redact_args` (helpers/redaction.rs).
use secure_sudoers_setup.Base.{
  ℕ, List, [], ◌∷◌, Option, none, some, ◌≡◌, ◌≢◌, refl, ◌↔◌, ◌⊎◌, ◌≤◌, inl, inr, Bool-cases,
  Option-cases, In, here, there, arith,
}
use secure_sudoers_setup.Text.{Text, starts_with, split_once, byte_len, utf8_len}
use secure_sudoers_setup.Map.{get}
use secure_sudoers_setup.Models.{
  ToolPolicy, SecureSudoersPolicy, UnauthorizedAuditMode, minimal, keys_only, full,
}
use secure_sudoers_setup.Redaction.{
  dash, redact_key, redact_keys_only, redact_all_keys, push_both, redact_unauthorized, redact_for,
  redact_args,
}

-- A flag without `=` whose second character is not ASCII.
pub data IsCut : Text → Type 0 where
  cut : (c : ℕ) (s : Text) → 0x80 ≤ c → split_once b'=' (b'-' ∷ c ∷ s) ≡ none → IsCut (b'-' ∷ c ∷ s)

shown : (arg key rest : Text) → redact_key arg (some (key, rest)) ≢ none
shown arg key rest e = elim (Bool-cases (starts_with key dash)) [
  | inl flag ↦ absurd cc (rw flag at e)
  | inr value ↦ absurd cc (rw value at e)
]

shape_lem : (a c : ℕ) (s : Text) → redact_key (a ∷ c ∷ s) none ≡ none → (a ≡ b'-') × (0x80 ≤ c)
unfolding starts_with byte_len utf8_len
shape_lem a c s e = ground arith

-- A text of one character is short enough.
one_char_lem : (a : ℕ) → redact_key (a ∷ []) none ≢ none
unfolding starts_with byte_len utf8_len
one_char_lem a e = ground arith

by_shape : (arg : Text) → split_once b'=' arg ≡ none → redact_key arg none ≡ none → IsCut arg
unfolding starts_with
by_shape [] plain e = absurd cc
by_shape (a ∷ []) plain e = absurd (one_char_lem a e)
by_shape (a ∷ c ∷ s) plain e =
    let (is_dash, wide) = shape_lem a c s e in rw is_dash (cut c s wide (rw is_dash at plain))

cut_lem : (c : ℕ) (s : Text) → 0x80 ≤ c → redact_key (b'-' ∷ c ∷ s) none ≡ none
unfolding starts_with byte_len utf8_len
cut_lem c s wide = ground arith

-- The flags on which the slice panics.
redact_keys_only_iff : (arg : Text) → (redact_keys_only arg ≡ none) ↔ IsCut arg
unfolding redact_keys_only
redact_keys_only_iff arg = (forth, back arg)
  where
    forth : redact_keys_only arg ≡ none → IsCut arg
    forth e = elim (Option-cases (split_once b'=' arg)) [
      | inl plain ↦ by_shape arg plain (rw plain at e)
      | inr ((key, rest), found) ↦ absurd (shown arg key rest (rw found at e))
    ]

    back : (arg : Text) → IsCut arg → redact_keys_only arg ≡ none
    back _ (cut c s wide plain) = rw plain (cut_lem c s wide)

push_both-none :
    (o : Option Text) (os : Option (List Text)) → push_both o os ≡ none → (o ≡ none) ⊎ (os ≡ none)
push_both-none none os e = inl refl
push_both-none (some t) none e = inr refl
push_both-none (some t) (some ts) e = absurd cc

push_both-broken : (o : Option Text) → push_both o none ≡ none
push_both-broken none = refl
push_both-broken (some t) = refl

abbrev HasCut : List Text → Type 0
HasCut args = (arg : Text) × In arg args × IsCut arg

cut_forth : (args : List Text) → redact_all_keys args ≡ none → HasCut args
unfolding redact_all_keys
cut_forth [] e = absurd cc
cut_forth (arg ∷ args) e = elim (push_both-none (redact_keys_only arg) (redact_all_keys args) e) [
  | inl first ↦ (arg, here, (redact_keys_only_iff arg).0 first)
  | inr later ↦ let (found, place, broken) = cut_forth args later in (found, there place, broken)
]

cut_back : (args : List Text) (arg : Text) → In arg args → IsCut arg → redact_all_keys args ≡ none
unfolding redact_all_keys
cut_back [] arg i c = elim i [ ]
cut_back (_ ∷ args) arg here c = rw ((redact_keys_only_iff arg).1 c) refl
cut_back (x ∷ args) arg (there i) c =
    rw (cut_back args arg i c) (push_both-broken (redact_keys_only x))

-- The invocations on which the redaction panics.
pub record Panics (args : List Text) (policy : SecureSudoersPolicy) (tool_name : Text)
    : Type 0 where
  pub unlisted : get tool_name policy.tools ≡ none
  pub mode : policy.global_settings.unauthorized_audit_mode ≡ keys_only
  pub arg : Text
  pub place : In arg args
  pub broken : IsCut arg

-- `redact_args` panics exactly where the tool is not listed, the mode shows keys only, and an argument
-- without `=` has a dash first and then a character that is not ASCII.
pub redact_args-Panics_iff :
    (args : List Text) (policy : SecureSudoersPolicy) (tool_name : Text)
    → (redact_args args policy tool_name ≡ none) ↔ Panics args policy tool_name
unfolding redact_args redact_unauthorized
redact_args-Panics_iff args policy tool_name = (
  λ e.
      by_tool (get tool_name policy.tools) policy.global_settings.unauthorized_audit_mode refl refl
        e,
  λ p. rw (p.unlisted, p.mode) (cut_back args p.arg p.place p.broken),
)
  where
    by_tool :
        (tool : Option ToolPolicy) (mode : UnauthorizedAuditMode)
        → get tool_name policy.tools ≡ tool
        → policy.global_settings.unauthorized_audit_mode ≡ mode
        → redact_for tool mode args ≡ none
        → Panics args policy tool_name
    by_tool (some tool) mode t u e = absurd cc
    by_tool none minimal t u e = absurd cc
    by_tool none full t u e = absurd cc
    by_tool none keys_only t u e =
        let (arg, place, broken) = cut_forth args e in
        record { unlisted = t; mode = u; arg = arg; place = place; broken = broken }
