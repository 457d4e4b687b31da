-- ===== src/Account/Listed.antt =====
-- About `classify_account_type_from_reader` (main.rs).
use secure_sudoers_setup.Base.{
  ℕ, true, false, ◌||◌, ltb, List, [], ◌∷◌, ◌++◌, Option, none, some, Result, ok, ◌≡◌, ◌↔◌, ◌⊎◌,
  inl, inr, refl, ◌∙◌, if◌then◌else◌, is_empty, Bool-cases, All,
}
use secure_sudoers_setup.Text.{Text, split_once, starts_with_char, has_char}
use secure_sudoers_setup.Text.Laws.{text_eq_iff, text_eq_refl, split_once_sound, split_once_append}
use secure_sudoers_setup.Error.{IoError}
use secure_sudoers_setup.Main.Events.{system, local, network}
use secure_sudoers_setup.Account.{
  trim_newlines, is_user, is_entry_of, classify_account_type_from_reader,
}

-- The line's entry begins with the user's name and a colon.
abbrev pub IsEntry : Text → Text → Type 0
IsEntry username line = (rest : Text) × (trim_newlines line ≡ username ++ b':' ∷ rest)

-- A name that an entry can begin with.
abbrev pub IsName : Text → Type 0
IsName username =
    (is_empty username ≡ false)
    × (starts_with_char username b'#' ≡ false)
    × (has_char b':' username ≡ false)

is_user-IsEntry :
    (username entry : Text) (o : Option (Text × Text))
    → split_once b':' entry ≡ o
    → is_user username o ≡ true
    → (rest : Text) × (entry ≡ username ++ b':' ∷ rest)
is_user-IsEntry username entry none e h = cc
is_user-IsEntry username entry (some (k, v)) e h =
    let same : k ≡ username = (text_eq_iff k username).0 h in
    (v, rw same at ((split_once_sound b':' entry k v e).0))

-- The two texts in front of the colon begin alike.
skipped_append :
    (username rest : Text)
    → is_empty username ≡ false
    → starts_with_char username b'#' ≡ false
    → (is_empty (username ++ b':' ∷ rest) || starts_with_char (username ++ b':' ∷ rest) b'#')
      ≡ false
skipped_append [] rest h c = cc
skipped_append (x ∷ username) rest h c = c

is_entry_of_iff :
    (username line : Text)
    → IsName username
    → (is_entry_of username line ≡ true) ↔ IsEntry username line
unfolding is_entry_of
is_entry_of_iff username line (named, plain, clean) = (
  λ h.
      elim (Bool-cases
        (is_empty (trim_newlines line) || starts_with_char (trim_newlines line) b'#')) [
          | inl skipped ↦ let h' = rw skipped at h in cc
          | inr kept ↦
              is_user-IsEntry username (trim_newlines line) (split_once b':' (trim_newlines line))
                refl (rw kept at h)
        ],
  λ (rest, shape). rw shape (
      rw (skipped_append username rest named plain)
        (rw (split_once_append b':' username rest clean) (text_eq_refl username))),
)

-- Some line is the entry of the user.
abbrev pub IsListed : Text → List Text → Type 0
IsListed username [] = ⊥
IsListed username (line ∷ lines) = IsEntry username line ⊎ IsListed username lines

-- What `read_line` gives for these lines: no line is empty before the end of the file.
abbrev pub answers : List Text → List (Result IoError Text)
answers [] = []
answers (line ∷ lines) = ok line ∷ answers lines

classify-found :
    (username : Text) (uid c : ℕ) (line : Text) (reader : List (Result IoError Text))
    → is_entry_of username (c ∷ line) ≡ true
    → classify_account_type_from_reader username uid (ok (c ∷ line) ∷ reader)
      ≡ ok (if ltb uid 1000 then system else local)
unfolding classify_account_type_from_reader
classify-found username uid c line reader h = rw h refl

classify-other :
    (username : Text) (uid c : ℕ) (line : Text) (reader : List (Result IoError Text))
    → is_entry_of username (c ∷ line) ≡ false
    → classify_account_type_from_reader username uid (ok (c ∷ line) ∷ reader)
      ≡ classify_account_type_from_reader username uid reader
unfolding classify_account_type_from_reader
classify-other username uid c line reader h = rw h refl

-- In a file whose lines can all be read, a user whose name can stand in an entry is local (or a
-- system account, below 1000) if a line is the user's entry, and a network account if none is.
pub classify_account_type_lem :
    (username : Text) (uid : ℕ) (lines : List Text)
    → IsName username
    → All (λ (l : Text). is_empty l ≡ false) lines
    → (IsListed username lines
        × (classify_account_type_from_reader username uid (answers lines)
            ≡ ok (if ltb uid 1000 then system else local)))
      ⊎ ((¬ IsListed username lines)
          × (classify_account_type_from_reader username uid (answers lines) ≡ ok network))
unfolding classify_account_type_from_reader
classify_account_type_lem username uid [] name full = inr (λ h. h, refl)
classify_account_type_lem username uid ([] ∷ lines) name full = cc (full.0)
classify_account_type_lem username uid ((c ∷ line) ∷ lines) name full =
    elim (Bool-cases (is_entry_of username (c ∷ line))) [
      | inl found ↦ inl (
        inl ((is_entry_of_iff username (c ∷ line) name).0 found),
        classify-found username uid c line (answers lines) found,
      )
      | inr other ↦
          let skip = classify-other username uid c line (answers lines) other in
          elim (classify_account_type_lem username uid lines name full.1) [
            | inl (listed, e) ↦ inl (inr listed, skip ∙ e)
            | inr (absent, e) ↦ inr (
              λ h. elim h [
                | inl entry ↦ let e' = (is_entry_of_iff username (c ∷ line) name).1 entry in cc
                | inr later ↦ absent later
              ],
              skip ∙ e,
            )
          ]
    ]
