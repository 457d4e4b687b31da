-- ===== src/Kernel.antt =====
-- `crates/secure-sudoers-common/src/kernel.rs`: the oldest kernel that is supported.
pub mod Release
use secure_sudoers_setup.Base.{
  ℕ, ◌+◌, ◌-◌, ◌*◌, ◌^◌, Bool, true, false, ◌&&◌, ◌||◌, ◌==◌, ltb, leb, List, [], ◌∷◌, ◌++◌, Option,
  none, some, Result, ok, err, ◌>>=◌, if◌then◌else◌, is_empty,
}
use secure_sudoers_setup.Text.{Text, lit, trim, split, is_ascii_digit, show}
use secure_sudoers_setup.Error.{Error, parse, system}

abbrev pub min_supported_kernel_major : ℕ
min_supported_kernel_major = 4

abbrev pub min_supported_kernel_minor : ℕ
min_supported_kernel_minor = 19

-- `&component[..end]`, with `end` at the first character that is no digit.
unfoldable pub leading_digits : Text → Text
leading_digits [] = []
leading_digits (c ∷ s) = let rest = c ∷ leading_digits s in if is_ascii_digit c then rest else []

unfoldable pub value_from : ℕ → Text → ℕ
value_from v [] = v
value_from v (c ∷ s) = value_from (v * 10 + (c - b'0')) s

-- `digits.parse::<u32>()` on digits, at least one: it fails on overflow only.
unfoldable pub parse_u32 : Text → Option ℕ
unfolding value_from
parse_u32 digits = let v = value_from 0 digits in if ltb v (2 ^ 32) then some v else none

abbrev missing_component : Text → Text → Error
missing_component label release = parse (
    lit "Invalid Linux kernel release '"
    ++ (release ++ (lit "': missing " ++ (label ++ lit " component"))))

abbrev malformed_component : Text → Text → Text → Error
malformed_component label release component = parse (
    lit "Invalid Linux kernel release '"
    ++ (release
        ++ (lit "': malformed " ++ (label ++ (lit " component '" ++ (component ++ lit "'"))))))

abbrev unparsable_component : Text → Text → Text → Error
unparsable_component label release component = parse (
    lit "Invalid Linux kernel release '"
    ++ (release
        ++ (lit "': cannot parse "
            ++ (label
                ++ (lit " component '"
                    ++ (component ++ lit "': number too large to fit in target type"))))))

abbrev or_unparsable : Text → Text → Text → Option ℕ → Result Error ℕ
or_unparsable label release component none = err (unparsable_component label release component)
or_unparsable label release component (some n) = ok n

unfoldable pub parse_component : Option Text → Text → Text → Result Error ℕ
unfolding leading_digits parse_u32
parse_component none label release = err (missing_component label release)
parse_component (some component) label release =
    let digits = leading_digits component in
    if is_empty digits
    then err (malformed_component label release component)
    else or_unparsable label release component (parse_u32 digits)

abbrev first_part : List Text → Option Text
first_part [] = none
first_part (p ∷ ps) = some p

abbrev second_part : List Text → Option Text
second_part [] = none
second_part (p ∷ []) = none
second_part (p ∷ q ∷ ps) = some q

unfoldable pub parse_kernel_release : Text → Result Error (ℕ × ℕ)
unfolding parse_component
parse_kernel_release release =
    let trimmed = trim release in
    let parts = split b'.' trimmed in
    if is_empty trimmed then err (parse (lit "Kernel release is empty")) else (do
      major ← parse_component (first_part parts) (lit "major") trimmed
      minor ← parse_component (second_part parts) (lit "minor") trimmed
      ok (major, minor))

abbrev unsupported : Text → Error
unsupported release = system (
    lit "Unsupported Linux kernel release '"
    ++ (release
        ++ (lit "': secure-sudoers requires Linux kernel "
            ++ (show min_supported_kernel_major
                ++ (lit "." ++ (show min_supported_kernel_minor ++ lit " or newer."))))))

abbrev pub is_supported : ℕ → ℕ → Bool
is_supported major minor =
    ltb min_supported_kernel_major major
    || (major == min_supported_kernel_major && leb min_supported_kernel_minor minor)

unfoldable pub ensure_minimum_kernel_version_for_release : Text → Result Error (Unit {0})
ensure_minimum_kernel_version_for_release release = do
  (major, minor) ← parse_kernel_release release
  if is_supported major minor then ok tt else err (unsupported release)
