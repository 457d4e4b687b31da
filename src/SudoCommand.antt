-- ===== src/SudoCommand.antt =====
-- `crates/secure-sudoers/src/helpers/sudo_command.rs`: reading the first words of `SUDO_COMMAND`.
pub mod Words
use secure_sudoers_setup.Base.{
  ℕ, zero, suc, Bool, true, false, not, ◌&&◌, ◌||◌, ◌==◌, List, [], ◌∷◌, ◌++◌, Option, none, some,
  Result, ok, err, ◌>>=◌, ok_or, if◌then◌else◌, is_empty,
}
use secure_sudoers_setup.Text.{Text, lit, text_eq, is_whitespace, trim_start}
use secure_sudoers_setup.Path.{file_name}

abbrev or_token : Text → Option Text → Text
or_token token none = token
or_token token (some name) = name

-- Every text is UTF-8, so `to_str` succeeds.
unfoldable pub basename : Text → Text
basename token = or_token token (file_name token)

pub data SudoCommandTokenError : Type 0 where
  invalid_prefix missing_delegated_command : SudoCommandTokenError

abbrev pub backslash : ℕ
backslash = 0x5c

abbrev pub single_quote : ℕ
single_quote = 0x27

abbrev pub double_quote : ℕ
double_quote = 0x22

-- The variables of the loop over the characters of a token.
pub record Lexer : Type 0 where
  pub token : Text
  pub quote : Option ℕ
  pub escaped : Bool

abbrev pub fresh : Lexer
fresh = record { token = []; quote = none; escaped = false }

abbrev pub push_char : Lexer → ℕ → Lexer
push_char l ch = record l { token = l.token ++ ch ∷ [] }

abbrev pub is_quote : Option ℕ → ℕ → Bool
is_quote none c = false
is_quote (some q) c = q == c

-- A character that neither follows a backslash nor is one; `none` is the `break`.
abbrev pub consume_plain : Lexer → ℕ → Option ℕ → Option Lexer
consume_plain l ch (some q) = some (if ch == q then record l { quote = none } else push_char l ch)
consume_plain l ch none =
    if ch == single_quote || ch == double_quote
    then some (record l { quote = some ch })
    else if is_whitespace ch
    then none
    else some (push_char l ch)

-- The body of the loop.
unfoldable pub consume : ℕ → Lexer → Option Lexer
consume ch l =
    if l.escaped
    then some (record (push_char l ch) { escaped = false })
    else if ch == backslash && not (is_quote l.quote single_quote)
    then some (record l { escaped = true })
    else consume_plain l ch l.quote

abbrev is_some_quote : Option ℕ → Bool
is_some_quote none = false
is_some_quote (some q) = true

-- One token and the text behind it; `none` if it ends inside quotes or behind a backslash.
unfoldable pub read_token : Text → Lexer → Option (Text × Text)
read_token [] l = if l.escaped || is_some_quote l.quote then none else some (l.token, [])
read_token (ch ∷ s) l = elim (consume ch l) [ none ↦ some (l.token, s) | some l' ↦ read_token s l' ]

abbrev pub push_token : Text → Option (List Text) → Option (List Text)
push_token t none = none
push_token t (some ts) = some (t ∷ ts)

-- The outer loop runs at most `max_tokens` rounds: each round pushes a token.
unfoldable pub split_sudo_command_prefix_tokens : ℕ → Text → Option (List Text)
split_sudo_command_prefix_tokens zero s = some []
split_sudo_command_prefix_tokens (suc n) s = elim (trim_start s) [
  | [] ↦ some []
  | c ∷ r ↦ elim (read_token (c ∷ r) fresh) [
    | none ↦ none
    | some (token, rest) ↦ push_token token (split_sudo_command_prefix_tokens n rest)
  ]
]

abbrev first_or_empty : List Text → Text
first_or_empty [] = []
first_or_empty (t ∷ ts) = t

abbrev second : List Text → Option Text
second [] = none
second (t ∷ []) = none
second (t ∷ u ∷ ts) = some u

-- The two names under which the program itself may stand first.
abbrev pub is_own_name : Text → Bool
is_own_name name = text_eq name (lit "secure-sudoers") || text_eq name (lit "secure_sudoers")

unfoldable pub delegated_command_token_from_sudo_command : Text → Result SudoCommandTokenError Text
delegated_command_token_from_sudo_command sudo_cmd = do
  first_tokens ← ok_or (split_sudo_command_prefix_tokens 1 sudo_cmd) invalid_prefix
  let first_token = first_or_empty first_tokens
  if is_own_name (basename first_token) && not (is_empty first_token)
      then (do
        tokens ← ok_or (split_sudo_command_prefix_tokens 2 sudo_cmd) invalid_prefix
        ok_or (second tokens) missing_delegated_command)
      else ok first_token
