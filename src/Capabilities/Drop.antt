-- ===== src/Capabilities/Drop.antt =====
-- `drop_capabilities` of `crates/secure-sudoers/src/isolation/capabilities.rs`.
use secure_sudoers_setup.Base.{
  ℕ, zero, suc, ◌+◌, ◌*◌, ◌-◌, ◌^◌, leb, not, ◌==◌, [], ◌∷◌, Result, ok, err, map_err,
  if◌then◌else◌, is_empty,
}
use secure_sudoers_setup.Text.{Text, lit, trim, is_ascii_digit}
use secure_sudoers_setup.Error.{Error, IoError, io_context, system}
use secure_sudoers_setup.Models.Validate.{concat}
use secure_sudoers_setup.Steps.{Step, ◌>>=◌, ◌>>◌, pure, answer, or_error}
use secure_sudoers_setup.Calls.{Machine, History, drop_bounding, capset, call}
use secure_sudoers_setup.Capabilities.{drop_failure}

-- `str::parse::<u32>` reads a sign `+` too.
abbrev pub without_plus : Text → Text
without_plus [] = []
without_plus (c ∷ t) = if c == b'+' then t else c ∷ t

-- The digits from left to right: the first that is wrong or too much gives the error.
unfoldable pub read_digits : ℕ → Text → Result Text ℕ
read_digits n [] = ok n
read_digits n (c ∷ t) =
    let rest = read_digits (n * 10 + (c - b'0')) t in
    if not (is_ascii_digit c)
    then err (lit "invalid digit found in string")
    else if leb (2 ^ 32) (n * 10 + (c - b'0'))
    then err (lit "number too large to fit in target type")
    else rest

-- `str::parse::<u32>`, with the text of its error.
unfoldable pub parse_number : Text → Result Text ℕ
unfolding read_digits
parse_number t =
    let digits = without_plus t in
    if is_empty t
    then err (lit "cannot parse integer from empty string")
    else if is_empty digits
    then err (lit "invalid digit found in string")
    else read_digits 0 digits

unfoldable pub parse_cap_last_cap : Text → Result Error ℕ
parse_cap_last_cap value =
    let trimmed = trim value in
    map_err
      (λ e. system (
        concat (
          lit "Security failure: invalid /proc/sys/kernel/cap_last_cap value '"
          ∷ trimmed
          ∷ lit "': "
          ∷ e
          ∷ [])))
      (parse_number trimmed)

abbrev parse_read : Result IoError Text → Result Error ℕ
parse_read (err e) =
    err (io_context (lit "Security failure: cannot read /proc/sys/kernel/cap_last_cap") e)
parse_read (ok value) = parse_cap_last_cap value

module _ (m : Machine) where
  -- `drop_bounding_capabilities_with` over calls: the rounds that are left, and the next capability.
  unfoldable pub drop_bounding_from : ℕ → ℕ → Step History Error (Unit {0})
  drop_bounding_from zero cap = pure tt
  drop_bounding_from (suc rounds) cap =
      or_error (io_context (drop_failure cap)) (call m (drop_bounding cap))
      >>= (λ n. drop_bounding_from rounds (cap + 1))

  -- All bounding capabilities, and then the sets of the process.
  unfoldable pub drop_capabilities : Step History Error (Unit {0})
  unfolding drop_bounding_from
  drop_capabilities = do
    last_cap ← answer (parse_read m.cap_last_cap)
    drop_bounding_from (last_cap + 1) 0
    cleared ← or_error (io_context (lit "Security failure: capset failed")) (call m capset)
    pure tt
