-- ===== src/Exec/Ordered.antt =====
-- About `pin_validated_path_arguments_with` (exec.rs): which paths are pinned, and in which order.
use secure_sudoers_setup.Base.{
  true, false, List, [], ◌∷◌, Option, none, some, Result, ok, err, ◌≡◌, refl, inl, inr, Bool-cases,
  All, arith,
}
use secure_sudoers_setup.Text.{Text, contains}
use secure_sudoers_setup.Text.Laws.{text_eq_iff}
use secure_sudoers_setup.Error.{Error}
use secure_sudoers_setup.Fs.{Fd, SecurePath}
use secure_sudoers_setup.Validator.Types.{ValidatedArg, ValidatedCommand, secure_path}
use secure_sudoers_setup.Steps.{Step, Post, good, bad, Post-bind, Post-weaken}
use secure_sudoers_setup.Exec.Chain.{IsPlace, chain_of-IsPlace}
use secure_sudoers_setup.Exec.Pins.{
  Seen, pin_parents, pin_parent_chain_for_path, pin_fresh, pin_path, pin_args,
  pin_validated_path_arguments_with,
}

-- What is pinned, the last one first.
pub data Pin : Type 0 where
  parent : Text → Pin
  whole : Fd → Text → Pin

abbrev pub parents : List Pin → List Text
parents [] = []
parents (parent p ∷ pins) = p ∷ parents pins
parents (whole fd p ∷ pins) = parents pins

abbrev pub paths : List Pin → List Text
paths [] = []
paths (parent p ∷ pins) = paths pins
paths (whole fd p ∷ pins) = p ∷ paths pins

abbrev pub pin_parent : Text → Step (List Pin) Error (Unit {0})
pin_parent p pins = (ok tt, parent p ∷ pins)

abbrev pub pin_whole : Fd → Text → Step (List Pin) Error (Unit {0})
pin_whole fd p pins = (ok tt, whole fd p ∷ pins)

-- Nothing is pinned twice, and a path only behind all the directories above it.
pub data IsOrdered : List Pin → Type 0 where
  no_pins : IsOrdered []
  new_parent :
      {p : Text} {pins : List Pin}
      → contains (parents pins) p ≡ false
      → IsOrdered pins
      → IsOrdered (parent p ∷ pins)
  new_path :
      {fd : Fd} {p : Text} {pins : List Pin} (above : List Text)
      → contains (paths pins) p ≡ false
      → IsPlace p above
      → All (λ (q : Text). contains (parents pins) q ≡ true) above
      → IsOrdered pins
      → IsOrdered (whole fd p ∷ pins)

abbrev Grows : List Text → List Text → Type 0
Grows xs ys = (q : Text) → contains xs q ≡ true → contains ys q ≡ true

Grows-cons : (x : Text) (xs : List Text) → Grows xs (x ∷ xs)
unfolding contains
Grows-cons x xs q h = ground (arith)

contains-cons : (x : Text) (xs : List Text) → contains (x ∷ xs) x ≡ true
unfolding contains
contains-cons x xs = ground (arith, text_eq_iff x x)

pin_parents_lem :
    (chain : List Text) (pins : List Pin)
    → IsOrdered pins
    → Post
        (λ seen t.
          (seen ≡ parents t)
          × IsOrdered t
          × (paths t ≡ paths pins)
          × All (λ (q : Text). contains (parents t) q ≡ true) chain
          × Grows (parents pins) (parents t))
        (λ e t. ⊥)
        (pin_parents pin_parent pin_whole chain (parents pins) pins)
unfolding pin_parents
pin_parents_lem [] pins o = good (refl, o, refl, tt, λ q h. h)
pin_parents_lem (p ∷ chain) pins o = elim (Bool-cases (contains (parents pins) p)) [
  | inl old ↦ rw old (
      Post-weaken _ (pin_parents_lem chain pins o)
        (λ seen t (a, b, c, d, g). (a, b, c, (g p old, d), g)) (λ e t never. never))
  | inr new ↦ rw new (
      Post-weaken _ (pin_parents_lem chain (parent p ∷ pins) (new_parent new o))
        (λ seen t (a, b, c, d, g). (
          a,
          b,
          c,
          (g p (contains-cons p (parents pins)), d),
          λ q h. g q (Grows-cons p (parents pins) q h),
        ))
        (λ e t never. never))
]

abbrev seen_of : List Pin → Seen
seen_of pins = record { paths = paths pins; parents = parents pins }

abbrev Pinned : SecurePath → List Pin → Seen → List Pin → Type 0
Pinned p pins seen t =
    (seen ≡ seen_of t)
    × IsOrdered t
    × (contains (paths t) p.path ≡ true)
    × Grows (paths pins) (paths t)

pin_fresh_lem :
    (p : SecurePath) (pins : List Pin) (above : List Text)
    → IsPlace p.path above
    → IsOrdered pins
    → contains (paths pins) p.path ≡ false
    → Post (Pinned p pins) (λ e t. ⊥) (pin_fresh pin_parent pin_whole p (seen_of pins) pins)
unfolding pin_parent_chain_for_path
pin_fresh_lem p pins above place o new = rw (chain_of-IsPlace p.path above place) (
    Post-bind (pin_parents pin_parent pin_whole above (parents pins)) _ pins
      (pin_parents_lem above pins o)
      λ seen t (a, b, c, d, g). good (
        rw (a, c) refl,
        new_path above (rw c new) place d b,
        contains-cons p.path (paths t),
        λ q h. Grows-cons p.path (paths t) q (rw c h),
      ))

-- What is said of a path among the arguments holds of this one, if it is one.
abbrev pub IfPath : (SecurePath → Type 0) → Option SecurePath → Type 0
IfPath P none = Unit
IfPath P (some p) = P p

abbrev pub HasPlace : SecurePath → Type 0
HasPlace p = (above : List Text) × IsPlace p.path above

abbrev pub IsPinned : List Pin → SecurePath → Type 0
IsPinned pins p = contains (paths pins) p.path ≡ true

IfPath-weaken :
    (P Q : SecurePath → Type 0) (o : Option SecurePath)
    → ((p : SecurePath) → P p → Q p)
    → IfPath P o
    → IfPath Q o
IfPath-weaken P Q none weaker h = tt
IfPath-weaken P Q (some p) weaker h = weaker p h

abbrev PinnedAll : List ValidatedArg → List Pin → Seen → List Pin → Type 0
PinnedAll args pins seen t =
    (seen ≡ seen_of t)
    × IsOrdered t
    × All (λ (arg : ValidatedArg). IfPath (IsPinned t) (secure_path arg)) args
    × Grows (paths pins) (paths t)

-- One argument.
pin_path_lem :
    (o : Option SecurePath) (pins : List Pin)
    → IfPath HasPlace o
    → IsOrdered pins
    → Post
        (λ seen t.
          (seen ≡ seen_of t) × IsOrdered t × IfPath (IsPinned t) o × Grows (paths pins) (paths t))
        (λ e t. ⊥)
        (pin_path pin_parent pin_whole o (seen_of pins) pins)
pin_path_lem none pins place o = good (refl, o, tt, λ q h. h)
pin_path_lem (some p) pins (above, place) o = elim (Bool-cases (contains (paths pins) p.path)) [
  | inl old ↦ rw old (good (refl, o, old, λ q h. h))
  | inr new ↦ rw new (pin_fresh_lem p pins above place o new)
]

pin_args_lem :
    (args : List ValidatedArg) (pins : List Pin)
    → All (λ (arg : ValidatedArg). IfPath HasPlace (secure_path arg)) args
    → IsOrdered pins
    → Post (PinnedAll args pins) (λ e t. ⊥) (pin_args pin_parent pin_whole args (seen_of pins) pins)
unfolding pin_args
pin_args_lem [] pins places o = good (refl, o, tt, λ q h. h)
pin_args_lem (arg ∷ args) pins (place, places) o =
    Post-bind (pin_path pin_parent pin_whole (secure_path arg) (seen_of pins))
      (λ next. pin_args pin_parent pin_whole args next) pins
      (pin_path_lem (secure_path arg) pins place o)
      λ seen t (a, b, c, g). rw a (
        Post-weaken _ (pin_args_lem args t places b)
          (λ seen' u (a', b', c', g'). (
            a',
            b',
            (IfPath-weaken (IsPinned t) (IsPinned u) (secure_path arg) (λ p h. g' p.path h) c, c'),
            λ q h. g' q (g q h),
          ))
          (λ e u never. never))

-- The binary and every path among the arguments are pinned, in order.
pub data IsPinnedDown (cmd : ValidatedCommand) (pins : List Pin) : Type 0 where
  pinned_down :
      IsOrdered pins
      → IsPinned pins cmd.binary
      → All (λ (arg : ValidatedArg). IfPath (IsPinned pins) (secure_path arg)) cmd.args
      → IsPinnedDown cmd pins

pin_all_lem :
    (cmd : ValidatedCommand)
    → HasPlace cmd.binary
    → All (λ (arg : ValidatedArg). IfPath HasPlace (secure_path arg)) cmd.args
    → Post
        (λ done t. IsPinnedDown cmd t)
        (λ e t. ⊥)
        (pin_validated_path_arguments_with pin_parent pin_whole cmd [])
unfolding pin_validated_path_arguments_with contains
pin_all_lem cmd (above, place) places =
    Post-bind (pin_fresh pin_parent pin_whole cmd.binary (seen_of [])) _ []
      (pin_fresh_lem cmd.binary [] above place no_pins refl)
      λ seen t (a, b, c, g). rw a (
        Post-bind (pin_args pin_parent pin_whole cmd.args (seen_of t)) _ t
          (pin_args_lem cmd.args t places b)
          λ last u (a', b', c', g'). good (pinned_down b' (g' cmd.binary.path c) c'))

-- Where the binary and every path among the arguments are absolute (the root, or names below it),
-- `pin_validated_path_arguments_with` succeeds with functions that record what they are given: the
-- binary and every path among the arguments are recorded, no path and no directory is recorded twice,
-- and every path stands behind all the directories above it but the root.
pub pin_validated_path_arguments-IsPinnedDown :
    (cmd : ValidatedCommand)
    → HasPlace cmd.binary
    → All (λ (arg : ValidatedArg). IfPath HasPlace (secure_path arg)) cmd.args
    → (pins : List Pin) × (pin_validated_path_arguments_with pin_parent pin_whole cmd []
        ≡ (ok tt, pins))
      × IsPinnedDown cmd pins
pin_validated_path_arguments-IsPinnedDown cmd place places =
    behind (pin_validated_path_arguments_with pin_parent pin_whole cmd [])
      (pin_all_lem cmd place places)
  where
    behind :
        (q : Result Error (Unit {0}) × List Pin)
        → Post (λ done t. IsPinnedDown cmd t) (λ e t. ⊥) q
        → (pins : List Pin) × (q ≡ (ok tt, pins)) × IsPinnedDown cmd pins
    behind (ok tt, pins) (good down) = (pins, refl, down)
    behind (err e, pins) (bad never) = absurd never
