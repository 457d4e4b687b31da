-- ===== src/SudoCommand/Words.antt =====
-- About `split_sudo_command_prefix_tokens` and the delegated token (helpers/sudo_command.rs).
use secure_sudoers_setup.Base.{
  ℕ, zero, suc, ◌≤◌, true, false, List, [], ◌∷◌, ◌++◌, Option, none, some, ◌≡◌, refl, arith, All,
  append_assoc, append-nil, ◌≢◌, ◌⊎◌, Bool-cases, inl, inr, take, ap, ◌∙◌, sym, ok, is_empty,
  Option-cases, Result, ok_or, head, if◌then◌else◌, not, ◌&&◌,
}
use secure_sudoers_setup.Text.{Text, trim_start, is_whitespace, text_eq, split, lit}
use secure_sudoers_setup.Path.{file_name, components, relative, segments, last_component}
use secure_sudoers_setup.SudoCommand.{
  fresh, backslash, consume, read_token, split_sudo_command_prefix_tokens, push_token,
  delegated_command_token_from_sudo_command, SudoCommandTokenError, missing_delegated_command,
  is_own_name, basename,
}

-- A backslash before every character.
abbrev pub escape : Text → Text
escape [] = []
escape (c ∷ cs) = backslash ∷ c ∷ escape cs

-- Words in one line, one space between two and none behind the last.
abbrev pub escape_words : List Text → Text
escape_words [] = []
escape_words (w ∷ []) = escape w
escape_words (w ∷ v ∷ ws) = escape w ++ (b' ' ∷ escape_words (v ∷ ws))

read_token-escape :
    (w rest token : Text)
    → read_token (escape w ++ (b' ' ∷ rest)) (record fresh { token = token })
      ≡ some (token ++ w, rest)
unfolding read_token consume is_whitespace
read_token-escape [] rest token = rw append-nil refl
read_token-escape (c ∷ cs) rest token =
    read_token-escape cs rest (token ++ c ∷ []) ∙ rw append_assoc refl

-- The last word ends with the line.
read_token-escape_last :
    (w token : Text)
    → read_token (escape w) (record fresh { token = token }) ≡ some (token ++ w, [])
unfolding read_token consume is_whitespace
read_token-escape_last [] token = rw append-nil refl
read_token-escape_last (c ∷ cs) token =
    read_token-escape_last cs (token ++ c ∷ []) ∙ rw append_assoc refl

split_nothing : (n : ℕ) → split_sudo_command_prefix_tokens n [] ≡ some []
unfolding split_sudo_command_prefix_tokens trim_start
split_nothing zero = refl
split_nothing (suc n) = refl

take_nothing : (n : ℕ) → take {A = Text} n [] ≡ []
take_nothing zero = refl
take_nothing (suc n) = refl

-- Escaped words that are not empty, with one space between two and none behind the last, are read
-- back, as many as are asked for.
pub split-escape_words :
    (max : ℕ) (ws : List Text)
    → All (λ (w : Text). w ≢ []) ws
    → split_sudo_command_prefix_tokens max (escape_words ws) ≡ some (take max ws)
unfolding split_sudo_command_prefix_tokens trim_start is_whitespace read_token consume
split-escape_words zero ws words = refl
split-escape_words (suc n) [] words = refl
split-escape_words (suc n) ([] ∷ ws) words = absurd (words.0 refl)
split-escape_words (suc n) ((c ∷ cs) ∷ []) words =
    rw (read_token-escape_last (c ∷ cs) [], split_nothing n, take_nothing n) refl
split-escape_words (suc n) ((c ∷ cs) ∷ v ∷ ws) words =
    rw (read_token-escape (c ∷ cs) (escape_words (v ∷ ws)) [])
      (ap (push_token (c ∷ cs)) (split-escape_words n (v ∷ ws) words.1))

module _ (n : ℕ) (s : Text) where
  split_blank : trim_start s ≡ [] → split_sudo_command_prefix_tokens (suc n) s ≡ some []
  unfolding split_sudo_command_prefix_tokens
  split_blank e = rw (e, split_sudo_command_prefix_tokens) refl

  module _ (c : ℕ) (r : Text) (e : trim_start s ≡ c ∷ r) where
    split_broken :
        read_token (c ∷ r) fresh ≡ none → split_sudo_command_prefix_tokens (suc n) s ≡ none
    unfolding split_sudo_command_prefix_tokens
    split_broken f =
        rw (e, split_sudo_command_prefix_tokens) (rw (f, split_sudo_command_prefix_tokens) refl)

    split_word :
        (token rest : Text)
        → read_token (c ∷ r) fresh ≡ some (token, rest)
        → split_sudo_command_prefix_tokens (suc n) s
          ≡ push_token token (split_sudo_command_prefix_tokens n rest)
    unfolding split_sudo_command_prefix_tokens
    split_word token rest f =
        rw (e, split_sudo_command_prefix_tokens) (rw (f, split_sudo_command_prefix_tokens) refl)

push_token-some :
    (t : Text) (o : Option (List Text)) (ts : List Text)
    → push_token t o ≡ some ts
    → (us : List Text) × (o ≡ some us) × (ts ≡ t ∷ us)
push_token-some t none ts h = cc
push_token-some t (some us) ts h = (us, refl, cc)

List-cases : (t : Text) → (t ≡ []) ⊎ ((c : ℕ) × (r : Text) × (t ≡ c ∷ r))
List-cases [] = inl refl
List-cases (c ∷ r) = inr (c, r, refl)

-- Where a longer prefix is read, a shorter one is read too and is its start.
pub split-take :
    (n m : ℕ) (s : Text) (ts : List Text)
    → n ≤ m
    → split_sudo_command_prefix_tokens m s ≡ some ts
    → split_sudo_command_prefix_tokens n s ≡ some (take n ts)
unfolding split_sudo_command_prefix_tokens
split-take zero m s ts le h = refl
split-take (suc n) zero s ts le h = absurd (omega arith)
split-take (suc n) (suc m) s ts le h = elim (List-cases (trim_start s)) [
  | inl blank ↦ let same : ts ≡ [] = cc (split_blank m s blank) in rw same (split_blank n s blank)
  | inr (c, r, e) ↦ elim (Option-cases (read_token (c ∷ r) fresh)) [
    | inl broken ↦ let never = split_broken m s c r e broken in cc
    | inr ((token, rest), f) ↦
        let (us, found, shape) =
          push_token-some token (split_sudo_command_prefix_tokens m rest) ts
            (sym (split_word m s c r e token rest f) ∙ h) in
        rw shape (
          split_word n s c r e token rest f
          ∙ ap (push_token token) (split-take n m rest us (omega arith) found))
  ]
]

-- The word that names the tool: the first one, or the second if the program itself stands first.
abbrev pub delegated_word : List Text → Result SudoCommandTokenError Text
delegated_word [] = ok []
delegated_word (w ∷ ws) =
    if is_own_name (basename w) then ok_or (head ws) missing_delegated_command else ok w

own_empty : is_own_name (basename []) ≡ false
unfolding basename file_name components relative segments text_eq split last_component lit
own_empty = refl

own-ne-nil : (s : Text) → is_own_name (basename s) ≡ true → is_empty s ≡ false
unfolding basename file_name components relative segments text_eq split last_component lit
own-ne-nil [] h = cc own_empty
own-ne-nil (c ∷ s) h = refl

-- The program's own name in front is passed over.
choose_own :
    (w : Text) (r : Result SudoCommandTokenError Text)
    → (if is_own_name (basename w) && not (is_empty w) then r else ok w)
      ≡ (if is_own_name (basename w) then r else ok w)
choose_own w r = elim (Bool-cases (is_own_name (basename w))) [
  | inl own ↦ rw (own, own-ne-nil w own) refl
  | inr other ↦ rw other refl
]

-- On a line of escaped words that are not empty, with one space between two, the delegated token is the
-- word that names the tool: the first one, or the second if the program itself stands first.
pub delegated-escape_words :
    (ws : List Text)
    → All (λ (w : Text). w ≢ []) ws
    → delegated_command_token_from_sudo_command (escape_words ws) ≡ delegated_word ws
unfolding delegated_command_token_from_sudo_command
delegated-escape_words [] words =
    rw (split-escape_words 1 [] words) (choose_own [] _ ∙ rw own_empty refl)
delegated-escape_words (w ∷ []) words =
    rw (split-escape_words 1 (w ∷ []) words)
      (rw (split-escape_words 2 (w ∷ []) words) (choose_own w _))
delegated-escape_words (w ∷ v ∷ ws) words =
    rw (split-escape_words 1 (w ∷ v ∷ ws) words)
      (rw (split-escape_words 2 (w ∷ v ∷ ws) words) (choose_own w _))
