-- ===== src/Base/Results.antt =====
-- Rust's `Result<A, E>`. The operator `?` is the bind of a `do` block.
use mathlib.Core.Path.{◌≡◌, refl}
use mathlib.Core.Logic.{◌⊎◌, inl, inr}
use mathlib.Core.Option.{Option, none, some}

pub data Result (E A : Type 0) : Type 0 where
  ok : A → Result E A
  err : E → Result E A

module _ {E : Type 0} {A B : Type 0} where
  infixl 5 ◌>>=◌
  abbrev pub ◌>>=◌ : Result E A → (A → Result E B) → Result E B
  err failure >>= next = err failure
  ok value >>= next = next value

  -- A sequence that succeeds has a first step that succeeds.
  pub >>=-eq-ok :
      (step : Result E A) (next : A → Result E B) {b : B}
      → (step >>= next) ≡ ok b
      → (value : A) × (step ≡ ok value) × (next value ≡ ok b)
  >>=-eq-ok (err failure) next succeeded = cc
  >>=-eq-ok (ok value) next succeeded = (value, refl, succeeded)

infixl 5 ◌>>◌
abbrev pub ◌>>◌ : {E B : Type 0} → Result E (Unit {0}) → Result E B → Result E B
first >> second = first >>= (λ done. second)

-- `Result::map_err`
abbrev pub map_err : {E F A : Type 0} → (E → F) → Result E A → Result F A
map_err f (ok a) = ok a
map_err f (err e) = err (f e)

-- `Option::ok_or`
abbrev pub ok_or : {E A : Type 0} → Option A → E → Result E A
ok_or none e = err e
ok_or (some a) e = ok a

pub Result-cases :
    {E A : Type 0} (r : Result E A) → ((a : A) × (r ≡ ok a)) ⊎ ((e : E) × (r ≡ err e))
Result-cases (ok a) = inl (a, refl)
Result-cases (err e) = inr (e, refl)

pub map_err-eq-ok :
    {E F A : Type 0} (f : E → F) (r : Result E A) {a : A} → map_err f r ≡ ok a → r ≡ ok a
map_err-eq-ok f (ok a) h = cc
map_err-eq-ok f (err e) h = cc

pub ok_or-eq-ok : {E A : Type 0} (o : Option A) (e : E) {a : A} → ok_or o e ≡ ok a → o ≡ some a
ok_or-eq-ok none e h = cc
ok_or-eq-ok (some x) e h = cc
