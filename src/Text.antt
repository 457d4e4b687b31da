-- ===== src/Text.antt =====
-- Rust's `str` and `String` as lists of Unicode code points, with the operations of the standard
-- library that the program calls. Byte lengths are those of UTF-8.
pub mod Laws
use secure_sudoers_setup.Base.{
  ℕ, zero, suc, ◌+◌, ◌/◌, ◌%◌, Bool, true, false, not, ◌&&◌, ◌||◌, List, [], ◌∷◌, ◌++◌, Option,
  none, some, String, ℤ, pos, negsuc, ltb, leb, ◌==◌, if◌then◌else◌, any,
}
use Prim.Native.Char.{code}

abbrev pub Text : Type 0
Text = List ℕ

-- A literal of the source.
unfoldable pub lit : String → Text
lit String.[] = []
lit (String.◌∷◌ c s) = code c ∷ lit s

unfoldable pub text_eq : Text → Text → Bool
text_eq [] [] = true
text_eq [] (y ∷ ys) = false
text_eq (x ∷ xs) [] = false
text_eq (x ∷ xs) (y ∷ ys) = x == y && text_eq xs ys

-- `list.contains(text)`
unfoldable pub contains : List Text → Text → Bool
contains [] t = false
contains (x ∷ xs) t = text_eq x t || contains xs t

-- `text.starts_with(prefix)`
unfoldable pub starts_with : Text → Text → Bool
starts_with s [] = true
starts_with [] (p ∷ ps) = false
starts_with (c ∷ s) (p ∷ ps) = c == p && starts_with s ps

abbrev pub starts_with_char : Text → ℕ → Bool
starts_with_char [] p = false
starts_with_char (c ∷ s) p = c == p

-- `text.contains(char)`
unfoldable pub has_char : ℕ → Text → Bool
has_char c [] = false
has_char c (x ∷ xs) = x == c || has_char c xs

abbrev pub push_front : ℕ → Option (Text × Text) → Option (Text × Text)
push_front c none = none
push_front c (some (k, v)) = some (c ∷ k, v)

-- `text.split_once(char)`, and `text.find(char)` with the slices on both sides of the index
unfoldable pub split_once : ℕ → Text → Option (Text × Text)
split_once c [] = none
split_once c (x ∷ xs) =
    let later = push_front x (split_once c xs) in if x == c then some ([], xs) else later

-- The bytes of a code point in UTF-8, and of a text: `text.len()`.
unfoldable pub utf8_len : ℕ → ℕ
utf8_len c = if ltb c 0x80 then 1 else if ltb c 0x800 then 2 else if ltb c 0x1_0000 then 3 else 4

unfoldable pub byte_len : Text → ℕ
unfolding utf8_len
byte_len [] = 0
byte_len (c ∷ s) = utf8_len c + byte_len s

-- `char::is_whitespace`: the code points with the property White_Space.
unfoldable pub is_whitespace : ℕ → Bool
is_whitespace c =
    (leb 9 c && leb c 13)
    || c == 0x20
    || c == 0x85
    || c == 0xa0
    || c == 0x1680
    || (leb 0x2000 c && leb c 0x200a)
    || c == 0x2028
    || c == 0x2029
    || c == 0x202f
    || c == 0x205f
    || c == 0x3000

unfoldable pub trim_start : Text → Text
trim_start [] = []
trim_start (c ∷ s) = let rest = trim_start s in if is_whitespace c then rest else c ∷ s

-- Drops the whitespace at the end.
unfoldable pub trim_end : Text → Text
trim_end [] = []
trim_end (c ∷ s) = elim (trim_end s) [
  | [] ↦ if is_whitespace c then [] else c ∷ []
  | d ∷ r ↦ c ∷ d ∷ r
]

unfoldable pub trim : Text → Text
unfolding trim_start trim_end is_whitespace
trim s = trim_end (trim_start s)

-- `char::is_ascii_digit`
abbrev pub is_ascii_digit : ℕ → Bool
is_ascii_digit c = leb b'0' c && leb c b'9'

abbrev pub add_to_first : ℕ → List Text → List Text
add_to_first c [] = (c ∷ []) ∷ []
add_to_first c (p ∷ ps) = (c ∷ p) ∷ ps

-- `text.split(char)`: never empty.
unfoldable pub split : ℕ → Text → List Text
split c [] = [] ∷ []
split c (x ∷ xs) = let more = split c xs in if x == c then [] ∷ more else add_to_first x more

unfoldable pub digits_onto : ℕ → ℕ → Text → Text
digits_onto zero n acc = acc
digits_onto (suc fuel) n acc =
    let more = digits_onto fuel (n / 10) ((b'0' + n % 10) ∷ acc) in
    if ltb n 10 then (b'0' + n) ∷ acc else more

-- `format!("{n}")` of an unsigned number: it has at most `n + 1` digits.
unfoldable pub show : ℕ → Text
unfolding digits_onto
show n = digits_onto (suc n) n []

-- `format!("{n}")` of a signed number.
unfoldable pub show_int : ℤ → Text
unfolding show
show_int (pos n) = show n
show_int (negsuc n) = b'-' ∷ show (n + 1)
