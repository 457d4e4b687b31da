-- ===== src/Kernel/Release.antt =====
-- About `parse_kernel_release` and the supported releases (kernel.rs).
use secure_sudoers_setup.Base.{
  ℕ, zero, suc, ◌+◌, ◌/◌, ◌%◌, ◌^◌, ◌<◌, ◌≤◌, Bool, true, false, ltb, List, [], ◌∷◌, ◌++◌, some, ok,
  err, ◌≡◌, ◌↔◌, refl, arith, All, All-append, Bool-cases, inl, inr, ap, ◌∙◌, ◌⊎◌, is_empty,
  append-nil, if◌then◌else◌, ◌==◌,
}
use secure_sudoers_setup.Text.{
  Text, trim, trim_start, trim_end, split, is_ascii_digit, show, is_whitespace, digits_onto,
  has_char,
}
use secure_sudoers_setup.Text.Laws.{split-append, split-append_first, split-ne-nil}
use secure_sudoers_setup.Kernel.{
  leading_digits, value_from, parse_u32, parse_component, parse_kernel_release, is_supported,
  unsupported, ensure_minimum_kernel_version_for_release,
}

abbrev IsDigits : Text → Type 0
IsDigits s = All (λ (c : ℕ). is_ascii_digit c ≡ true) s

digits_onto-IsDigits : (fuel n : ℕ) (acc : Text) → IsDigits acc → IsDigits (digits_onto fuel n acc)
unfolding digits_onto
digits_onto-IsDigits zero n acc h = h
digits_onto-IsDigits (suc fuel) n acc h = elim (Bool-cases (ltb n 10)) [
  | inl last ↦ rw last (ground arith, h)
  | inr more ↦
      rw more (digits_onto-IsDigits fuel (n / 10) ((b'0' + n % 10) ∷ acc) (ground arith, h))
]

value-digits_onto :
    (fuel n : ℕ) (acc : Text) → n < fuel → value_from 0 (digits_onto fuel n acc) ≡ value_from n acc
unfolding digits_onto value_from
value-digits_onto zero n acc h = absurd (omega arith)
value-digits_onto (suc fuel) n acc h = elim (Bool-cases (ltb n 10)) [
  | inl last ↦ rw last (ap (λ (v : ℕ). value_from v acc) (omega arith))
  | inr more ↦ rw more (
      value-digits_onto fuel (n / 10) ((b'0' + n % 10) ∷ acc) (ground arith)
      ∙ ap (λ (v : ℕ). value_from v acc) (omega arith))
]

digits_onto-ne-nil : (fuel n c : ℕ) (acc : Text) → is_empty (digits_onto fuel n (c ∷ acc)) ≡ false
unfolding digits_onto
digits_onto-ne-nil zero n c acc = refl
digits_onto-ne-nil (suc fuel) n c acc = elim (Bool-cases (ltb n 10)) [
  | inl last ↦ rw last refl
  | inr more ↦ rw more (digits_onto-ne-nil fuel (n / 10) _ (c ∷ acc))
]

show-ne-nil : (n : ℕ) → is_empty (show n) ≡ false
unfolding show digits_onto
show-ne-nil n = elim (Bool-cases (ltb n 10)) [
  | inl last ↦ rw last refl
  | inr more ↦ rw more (digits_onto-ne-nil n (n / 10) _ [])
]

show-IsDigits : (n : ℕ) → IsDigits (show n)
unfolding show
show-IsDigits n = digits_onto-IsDigits (suc n) n [] tt

value-show : (n : ℕ) → value_from 0 (show n) ≡ n
unfolding show value_from
value-show n = value-digits_onto (suc n) n [] (omega arith)

parse_u32-show : (n : ℕ) → n < 2 ^ 32 → parse_u32 (show n) ≡ some n
unfolding parse_u32
parse_u32-show n h = rw (value-show n) (ground arith)

-- No digit stands at the start.
abbrev Stops : Text → Type 0
Stops t = leading_digits t ≡ []

leading_digits-append : (ds t : Text) → IsDigits ds → Stops t → leading_digits (ds ++ t) ≡ ds
unfolding leading_digits
leading_digits-append [] t h stops = stops
leading_digits-append (d ∷ ds) t h stops =
    rw (h.0) (ap (λ (r : Text). d ∷ r) (leading_digits-append ds t h.1 stops))

parse_component-show :
    (n : ℕ) (t label release : Text)
    → n < 2 ^ 32
    → Stops t
    → parse_component (some (show n ++ t)) label release ≡ ok n
unfolding parse_component
parse_component-show n t label release bound stops =
    rw (leading_digits-append (show n) t (show-IsDigits n) stops)
      (rw (show-ne-nil n, parse_u32-show n bound) refl)

IsDigits-no_dot : (ds : Text) → IsDigits ds → has_char b'.' ds ≡ false
unfolding has_char
IsDigits-no_dot [] h = refl
IsDigits-no_dot (d ∷ ds) h = ground (arith, IsDigits-no_dot ds h.1)

-- The first piece of a text that starts with no digit starts with none.
split-Stops :
    (t : Text) → Stops t → (p : Text) × (ps : List Text) × (split b'.' t ≡ p ∷ ps) × Stops p
unfolding split leading_digits
split-Stops [] stops = ([], [], refl, refl)
split-Stops (c ∷ t) stops = elim (Bool-cases (is_ascii_digit c)) [
  | inl digit ↦ let never = rw digit at stops in cc
  | inr other ↦ elim (Bool-cases (c == b'.')) [
    | inl point ↦ ([], split b'.' t, rw point refl, refl)
    | inr within ↦
        let (p, ps, shape) = split-ne-nil b'.' t in
        (c ∷ p, ps, rw within (rw shape refl), rw other refl)
  ]
]

trim_end-solid : (s : Text) → All (λ (c : ℕ). is_whitespace c ≡ false) s → trim_end s ≡ s
unfolding trim_end
trim_end-solid [] h = refl
trim_end-solid (c ∷ []) h = rw (h.0) refl
trim_end-solid (c ∷ d ∷ s) h = rw (trim_end-solid (d ∷ s) h.1, trim_end) refl

trim-solid : (s : Text) → All (λ (c : ℕ). is_whitespace c ≡ false) s → trim s ≡ s
unfolding trim trim_start
trim-solid [] h = trim_end-solid [] tt
trim-solid (c ∷ s) h = rw (h.0) (trim_end-solid (c ∷ s) h)

digits-solid : (ds : Text) → IsDigits ds → All (λ (c : ℕ). is_whitespace c ≡ false) ds
unfolding is_whitespace
digits-solid [] h = tt
digits-solid (d ∷ ds) h = (ground (arith, h.0), digits-solid ds h.1)

append-ne-nil : (a b : Text) → is_empty a ≡ false → is_empty (a ++ b) ≡ false
append-ne-nil [] b h = cc
append-ne-nil (c ∷ a) b h = refl

-- `major.minor` and what follows it, such as `.0-91-generic`.
abbrev pub release_text : ℕ → ℕ → Text → Text
release_text major minor tail = show major ++ (b'.' ∷ (show minor ++ tail))

module _ (major minor : ℕ) (tail : Text) (major_fits : major < 2 ^ 32) (minor_fits : minor < 2 ^ 32)
    (solid : All (λ (c : ℕ). is_whitespace c ≡ false) tail) (stops : leading_digits tail ≡ []) where
  release-solid : trim (release_text major minor tail) ≡ release_text major minor tail
  unfolding is_whitespace
  release-solid = trim-solid _ (
      All-append _ (show major) _ (digits-solid (show major) (show-IsDigits major)) (
        refl,
        All-append _ (show minor) tail (digits-solid (show minor) (show-IsDigits minor)) solid,
      ))

  release-named : is_empty (release_text major minor tail) ≡ false
  release-named = append-ne-nil (show major) _ (show-ne-nil major)

  -- A release is read as its two numbers, below 2^32, whatever follows them without a space or a digit.
  pub parse_kernel_release-show :
      parse_kernel_release (release_text major minor tail) ≡ ok (major, minor)
  unfolding parse_kernel_release
  parse_kernel_release-show =
      let (p, ps, shape, stops') = split-Stops tail stops in
      let behind : split b'.' (show minor ++ tail) ≡ (show minor ++ p) ∷ ps =
        split-append_first b'.' (show minor) tail p ps
          (IsDigits-no_dot (show minor) (show-IsDigits minor)) shape in
      let pieces : split b'.' (release_text major minor tail)
          ≡ (show major ++ []) ∷ (show minor ++ p) ∷ ps =
        rw append-nil (
          split-append b'.' (show major) (show minor ++ tail)
            (IsDigits-no_dot (show major) (show-IsDigits major))
          ∙ ap (λ (t : List Text). show major ∷ t) behind) in
      rw (release-solid) (
        rw (release-named, pieces)
          (rw (parse_component-show major [] _ _ major_fits refl)
            (rw (parse_component-show minor p _ _ minor_fits stops') refl)))

  supported :
      (b : Bool)
      → is_supported major minor ≡ b
      → ((if b then ok tt else err (unsupported (release_text major minor tail))) ≡ ok tt)
        ↔ ((4 < major) ⊎ ((major ≡ 4) × (19 ≤ minor)))
  supported true e = (λ _. enough e, λ _. refl)
    where
      enough : is_supported major minor ≡ true → (4 < major) ⊎ ((major ≡ 4) × (19 ≤ minor))
      enough e = grind arith
  supported false e = (λ h. cc, λ h. absurd (too_old e h))
    where
      too_old : is_supported major minor ≡ false → (4 < major) ⊎ ((major ≡ 4) × (19 ≤ minor)) → ⊥
      too_old e (inl h) = ground arith
      too_old e (inr h) = ground arith

  -- A release of two numbers below 2^32, and what follows them without a space or a digit, is accepted
  -- exactly when it is 4.19 or newer.
  pub ensure_minimum_kernel_version_iff :
      (ensure_minimum_kernel_version_for_release (release_text major minor tail) ≡ ok tt)
      ↔ ((4 < major) ⊎ ((major ≡ 4) × (19 ≤ minor)))
  unfolding ensure_minimum_kernel_version_for_release
  ensure_minimum_kernel_version_iff =
      rw (parse_kernel_release-show) (supported (is_supported major minor) refl)
