-- ===== src/Text/Laws.antt =====
-- Laws of the text operations.
use secure_sudoers_setup.Base.{
  ℕ, true, false, List, [], ◌∷◌, ◌++◌, none, some, arith, ◌≡◌, refl, ◌≢◌, ◌↔◌, inl, inr, Bool-cases,
  ◌==◌, In, here, there,
}
use secure_sudoers_setup.Text.{Text, text_eq, contains, starts_with, has_char, split_once, split}

text_eq-eq : (s t : Text) → text_eq s t ≡ true → s ≡ t
unfolding text_eq
text_eq-eq [] [] h = refl
text_eq-eq [] (y ∷ ys) h = cc
text_eq-eq (x ∷ xs) [] h = cc
text_eq-eq (x ∷ xs) (y ∷ ys) h = ground (arith, text_eq-eq xs ys)

pub text_eq_refl : (s : Text) → text_eq s s ≡ true
unfolding text_eq
text_eq_refl [] = refl
text_eq_refl (x ∷ xs) = ground (arith, text_eq_refl xs)

pub text_eq_iff : (s t : Text) → (text_eq s t ≡ true) ↔ (s ≡ t)
text_eq_iff s t = (text_eq-eq s t, λ e. rw e (text_eq_refl t))

pub text_eq-false : (s t : Text) → s ≢ t → text_eq s t ≡ false
text_eq-false s t h = elim (Bool-cases (text_eq s t)) [
  | inl e ↦ absurd (h (text_eq-eq s t e))
  | inr e ↦ e
]

pub contains_sound : (xs : List Text) (t : Text) → contains xs t ≡ true → In t xs
unfolding contains
contains_sound [] t h = cc
contains_sound (x ∷ xs) t h = elim (Bool-cases (text_eq x t)) [
  | inl e ↦ rw (← text_eq-eq x t e) here
  | inr e ↦ there (contains_sound xs t (rw e at h))
]

pub contains_complete : {t : Text} {xs : List Text} → In t xs → contains xs t ≡ true
unfolding contains
contains_complete {t} here = rw (text_eq_refl t)
contains_complete {t} (there {x} m) = ground (arith, contains_complete m)

-- The parts on both sides of the first occurrence.
pub split_once_sound :
    (c : ℕ) (s k v : Text)
    → split_once c s ≡ some (k, v)
    → (s ≡ k ++ c ∷ v) × (has_char c k ≡ false)
unfolding split_once has_char
split_once_sound c [] k v h = cc
split_once_sound c (x ∷ xs) [] v h = ground arith
split_once_sound c (x ∷ xs) (y ∷ k) v h = ground (arith, split_once_sound c xs k v)

pub split_once-none : (c : ℕ) (s : Text) → (split_once c s ≡ none) ↔ (has_char c s ≡ false)
unfolding split_once has_char
split_once-none c [] = ground arith
split_once-none c (x ∷ xs) = ground (arith, split_once-none c xs)

pub split_once_append :
    (c : ℕ) (k v : Text) → has_char c k ≡ false → split_once c (k ++ c ∷ v) ≡ some (k, v)
unfolding split_once has_char
split_once_append c [] v h = ground arith
split_once_append c (x ∷ k) v h = ground (arith, split_once_append c k v)

pub starts_with_append : (p s : Text) → starts_with (p ++ s) p ≡ true
unfolding starts_with
starts_with_append [] [] = refl
starts_with_append [] (c ∷ s) = refl
starts_with_append (c ∷ p) s = ground (arith, starts_with_append p s)

pub starts_with_sound : (s p : Text) → starts_with s p ≡ true → (r : Text) × (s ≡ p ++ r)
unfolding starts_with
starts_with_sound s [] h = (s, refl)
starts_with_sound [] (p ∷ ps) h = cc
starts_with_sound (c ∷ s) (p ∷ ps) h =
    let (r, e) = starts_with_sound s ps (ground arith) in (r, ground arith)

pub split-append :
    (c : ℕ) (a rest : List ℕ) → has_char c a ≡ false → split c (a ++ (c ∷ rest)) ≡ a ∷ split c rest
unfolding split has_char
split-append c [] rest h = ground arith
split-append c (x ∷ a) rest h = ground (arith, split-append c a rest)

-- The text in front of the first piece.
pub split-append_first :
    (c : ℕ) (a t p : Text) (ps : List Text)
    → has_char c a ≡ false
    → split c t ≡ p ∷ ps
    → split c (a ++ t) ≡ (a ++ p) ∷ ps
unfolding split has_char
split-append_first c [] t p ps h e = e
split-append_first c (x ∷ a) t p ps h e = ground (arith, split-append_first c a t p ps)

pub split-ne-nil : (c : ℕ) (t : Text) → (p : Text) × (ps : List Text) × (split c t ≡ p ∷ ps)
unfolding split
split-ne-nil c [] = ([], [], refl)
split-ne-nil c (x ∷ t) = elim (Bool-cases (x == c)) [
  | inl e ↦ ([], split c t, rw e refl)
  | inr e ↦ let (p, ps, shape) = split-ne-nil c t in (x ∷ p, ps, rw e (rw shape refl))
]
