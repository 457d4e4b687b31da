-- ===== src/Policy/Pem.antt =====
-- `read_pem_bytes` of `crates/secure-sudoers-common/src/util.rs`: a key in a PEM file.
use secure_sudoers_setup.Base.{
  ℕ, false, ◌==◌, List, [], ◌∷◌, ◌++◌, Result, ok, err, ◌>>=◌, map_err, if◌then◌else◌, is_empty,
  ◌≡◌, refl, All, map, ap,
}
use secure_sudoers_setup.Text.{Text, lit, text_eq, trim, split}
use secure_sudoers_setup.Text.Laws.{text_eq_refl}
use secure_sudoers_setup.Path.{is_absolute, push_path}
use secure_sudoers_setup.Fs.{Fd, FileSystem, positional, check_path}
use secure_sudoers_setup.Error.{Error, IoError, io_context, validation, parse, to_text}
use secure_sudoers_setup.Models.Validate.{concat}

pub record PemFiles : Type 0 where
  -- `std::env::current_dir`
  pub current_dir : Result IoError Text
  -- `read_to_string("/proc/self/fd/{fd}")`
  pub read_fd : Fd → Result IoError Text
  -- `BASE64_STANDARD.decode`; an error is known by its text
  pub decode_base64 : Text → Result Text (List ℕ)

-- The pieces that `lines` makes of those between line feeds: the last one is dropped if it is empty.
unfoldable pub drop_last_empty : List Text → List Text
drop_last_empty [] = []
drop_last_empty (l ∷ []) = if is_empty l then [] else l ∷ []
drop_last_empty (l ∷ m ∷ ls) = l ∷ drop_last_empty (m ∷ ls)

-- One carriage return at the end of a line goes.
unfoldable pub strip_cr : Text → Text
strip_cr [] = []
strip_cr (c ∷ []) = if c == 0x0d then [] else c ∷ []
strip_cr (c ∷ d ∷ s) = c ∷ strip_cr (d ∷ s)

-- A last line without a line feed keeps its carriage return.
unfoldable pub strip_all : List Text → List Text
unfolding strip_cr
strip_all [] = []
strip_all (l ∷ []) = l ∷ []
strip_all (l ∷ m ∷ ls) = strip_cr l ∷ strip_all (m ∷ ls)

-- `content.lines()`
unfoldable pub lines : Text → List Text
unfolding drop_last_empty strip_all
lines content = drop_last_empty (strip_all (split 0x0a content))

-- `skip_while(|l| l != begin).skip(1)`
unfoldable pub behind_line : Text → List Text → List Text
behind_line begin [] = []
behind_line begin (l ∷ ls) = let rest = behind_line begin ls in if text_eq l begin then ls else rest

-- `take_while(|l| l != end)`, trimmed and joined
unfoldable pub joined_until : Text → List Text → Text
joined_until end [] = []
joined_until end (l ∷ ls) =
    let rest = trim l ++ joined_until end ls in if text_eq l end then [] else rest

abbrev pub begin_line : Text → Text
begin_line label = lit "-----BEGIN " ++ (label ++ lit "-----")

abbrev pub end_line : Text → Text
end_line label = lit "-----END " ++ (label ++ lit "-----")

unfoldable pub pem_section : Text → List Text → Text
pem_section label ls = joined_until (end_line label) (behind_line (begin_line label) ls)

module _ (fs : FileSystem) (files : PemFiles) where
  unfoldable pub absolute_path : Text → Result Error Text
  absolute_path path = if is_absolute path then ok path else (do
    cwd ←
        map_err (io_context (lit "Cannot resolve current directory while reading " ++ path))
          files.current_dir
    ok (push_path cwd path))

  unfoldable pub read_file_to_string_securely : Text → Result Error Text
  read_file_to_string_securely path = do
    absolute ← absolute_path path
    secure_path ←
        map_err (λ e. validation (concat (lit "Cannot read " ∷ path ∷ lit ": " ∷ to_text e ∷ [])))
          (check_path fs absolute positional [])
    map_err (io_context (lit "Cannot read " ++ path)) (files.read_fd secure_path.fd)

  -- `base64_to_bytes` trims its argument once more.
  unfoldable pub decode_section : Text → Text → Text → Result Error (List ℕ)
  decode_section path label b64_content =
      if is_empty b64_content
      then err
          (parse (concat (lit "No '" ∷ label ∷ lit "' section found in PEM file " ∷ path ∷ [])))
      else map_err
          (λ e. parse (
            concat (
              lit "Invalid base64 in '"
              ∷ label
              ∷ lit "' section of "
              ∷ path
              ∷ lit ": Invalid base64: "
              ∷ e
              ∷ [])))
          (files.decode_base64 (trim b64_content))

  unfoldable pub read_pem_bytes : Text → Text → Result Error (List ℕ)
  read_pem_bytes path label = do
    content ← read_file_to_string_securely path
    decode_section path label (pem_section label (lines content))

behind_line-append :
    (begin : Text) (before ls : List Text)
    → All (λ (l : Text). text_eq l begin ≡ false) before
    → behind_line begin (before ++ begin ∷ ls) ≡ ls
unfolding behind_line
behind_line-append begin [] ls h = rw (text_eq_refl begin) refl
behind_line-append begin (l ∷ before) ls h = rw (h.0) (behind_line-append begin before ls h.1)

joined_until-append :
    (end : Text) (body ls : List Text)
    → All (λ (l : Text). text_eq l end ≡ false) body
    → joined_until end (body ++ end ∷ ls) ≡ concat (map trim body)
unfolding joined_until
joined_until-append end [] ls h = rw (text_eq_refl end) refl
joined_until-append end (l ∷ body) ls h =
    rw (h.0) (ap (λ (t : Text). trim l ++ t) (joined_until-append end body ls h.1))

-- The section of a label is what stands between its first begin line and the next end line, whatever
-- stands around them: its lines, trimmed and joined.
pub pem_section-append :
    (label : Text) (before body after : List Text)
    → All (λ (l : Text). text_eq l (begin_line label) ≡ false) before
    → All (λ (l : Text). text_eq l (end_line label) ≡ false) body
    → pem_section label (before ++ begin_line label ∷ (body ++ end_line label ∷ after))
      ≡ concat (map trim body)
unfolding pem_section
pem_section-append label before body after hb he =
    rw (behind_line-append (begin_line label) before (body ++ end_line label ∷ after) hb)
      (joined_until-append (end_line label) body after he)
