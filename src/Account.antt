-- ===== src/Account.antt =====
-- `classify_account_type_from_reader` of `crates/secure-sudoers/src/main.rs`: whether `/etc/passwd` has
-- an account. The reader is the list of what `read_line` gives; behind it is the end of the file.
pub mod Listed
use secure_sudoers_setup.Base.{
  ℕ, Bool, true, false, ◌||◌, ◌==◌, ltb, List, [], ◌∷◌, Option, none, some, Result, ok, err,
  if◌then◌else◌, is_empty,
}
use secure_sudoers_setup.Text.{Text, text_eq, split_once, starts_with_char}
use secure_sudoers_setup.Error.{IoError}
use secure_sudoers_setup.Main.Events.{AccountType, system, local, network}

-- `trim_end_matches(['\n', '\r'])`
unfoldable pub trim_newlines : Text → Text
trim_newlines [] = []
trim_newlines (c ∷ s) = elim (trim_newlines s) [
  | [] ↦ if c == 0x0a || c == 0x0d then [] else c ∷ []
  | d ∷ r ↦ c ∷ d ∷ r
]

abbrev pub is_user : Text → Option (Text × Text) → Bool
is_user username none = false
is_user username (some (entry_username, rest)) = text_eq entry_username username

-- The line is no comment, and its entry is that of the user.
unfoldable pub is_entry_of : Text → Text → Bool
unfolding trim_newlines
is_entry_of username line =
    let entry = trim_newlines line in
    if is_empty entry || starts_with_char entry b'#'
    then false
    else is_user username (split_once b':' entry)

unfoldable pub classify_account_type_from_reader :
    Text → ℕ → List (Result IoError Text) → Result IoError AccountType
unfolding is_entry_of
classify_account_type_from_reader username uid [] = ok network
classify_account_type_from_reader username uid (err e ∷ reader) = err e
classify_account_type_from_reader username uid (ok [] ∷ reader) = ok network
classify_account_type_from_reader username uid (ok (c ∷ line) ∷ reader) =
    let rest = classify_account_type_from_reader username uid reader in
    if is_entry_of username (c ∷ line) then ok (if ltb uid 1000 then system else local) else rest
