-- ===== src/Invocation/Cmdline.antt =====
-- About `parse_proc_self_cmdline_bytes` (helpers/invocation.rs).
use secure_sudoers_setup.Base.{
  ℕ, false, List, [], ◌∷◌, ◌++◌, Option, some, ok, ◌≡◌, refl, All, map, ap,
}
use secure_sudoers_setup.Text.{Text, has_char, split}
use secure_sudoers_setup.Text.Laws.{split-append}
use secure_sudoers_setup.Invocation.{parse_proc_self_cmdline_bytes, decode_chunks, drop_last}

-- `/proc/self/cmdline`: every argument with a zero byte behind it.
abbrev pub cmdline : List (List ℕ) → List ℕ
cmdline [] = []
cmdline (a ∷ argv) = a ++ (0 ∷ cmdline argv)

split-cmdline :
    (argv : List (List ℕ))
    → All (λ (a : List ℕ). has_char 0 a ≡ false) argv
    → split 0 (cmdline argv) ≡ argv ++ [] ∷ []
unfolding split
split-cmdline [] clean = refl
split-cmdline (a ∷ argv) clean =
    rw (split-append 0 a (cmdline argv) clean.0)
      (ap (λ (t : List (List ℕ)). a ∷ t) (split-cmdline argv clean.1))

drop_last-append : (argv : List (List ℕ)) → drop_last (argv ++ [] ∷ []) ≡ argv
drop_last-append [] = refl
drop_last-append (a ∷ []) = refl
drop_last-append (a ∷ b ∷ argv) = ap (λ (t : List (List ℕ)). a ∷ t) (drop_last-append (b ∷ argv))

module _ (from_utf8 : List ℕ → Option Text) (encode : Text → List ℕ) where
  decode_chunks-map :
      (argv : List Text)
      → ((t : Text) → from_utf8 (encode t) ≡ some t)
      → decode_chunks from_utf8 (map encode argv) ≡ ok argv
  unfolding decode_chunks
  decode_chunks-map [] utf8 = refl
  decode_chunks-map (a ∷ argv) utf8 = rw (utf8 a) (rw (decode_chunks-map argv utf8) refl)

  -- What the kernel lists for at least one argument is read back, empty arguments included, if
  -- `from_utf8` decodes what was encoded and no argument holds a zero byte.
  pub parse-cmdline :
      (argv0 : Text) (argv : List Text)
      → ((t : Text) → from_utf8 (encode t) ≡ some t)
      → All (λ (a : List ℕ). has_char 0 a ≡ false) (map encode (argv0 ∷ argv))
      → parse_proc_self_cmdline_bytes from_utf8 (cmdline (map encode (argv0 ∷ argv)))
        ≡ ok (argv0 ∷ argv)
  unfolding parse_proc_self_cmdline_bytes
  parse-cmdline argv0 argv utf8 clean =
      rw (split-cmdline (map encode (argv0 ∷ argv)) clean)
        (rw (drop_last-append (map encode (argv0 ∷ argv))) (decode_chunks-map (argv0 ∷ argv) utf8))
