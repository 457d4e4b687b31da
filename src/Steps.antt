-- ===== src/Steps.antt =====
-- Steps on a state that may fail, and what holds behind them.
use secure_sudoers_setup.Base.{Result, ok, err, ◌≡◌, refl}

abbrev pub Step : Type 0 → Type 0 → Type 0 → Type 0
Step S E A = S → Result E A × S

module _ {S : Type 0} {E A B : Type 0} where
  -- What follows a step: nothing, if it failed.
  abbrev pub continue : Result E A × S → (A → Step S E B) → Result E B × S
  continue (ok a, s) next = next a s
  continue (err e, s) next = (err e, s)

  infixl 5 ◌>>=◌
  abbrev pub ◌>>=◌ : Step S E A → (A → Step S E B) → Step S E B
  (step >>= next) s = continue (step s) next

module _ {S : Type 0} {E A : Type 0} where
  -- The postconditions of a step that succeeds and of one that fails.
  pub data Post (Q : A → S → Type 0) (R : E → S → Type 0) : Result E A × S → Type 0 where
    good : {a : A} {s : S} → Q a s → Post Q R (ok a, s)
    bad : {e : E} {s : S} → R e s → Post Q R (err e, s)

infixl 5 ◌>>◌
abbrev pub ◌>>◌ : {S E B : Type 0} → Step S E (Unit {0}) → Step S E B → Step S E B
first >> second = first >>= (λ done. second)

module _ {S E : Type 0} where
  abbrev pub pure : {A : Type 0} → A → Step S E A
  pure a s = (ok a, s)

  abbrev pub fail : {A : Type 0} → E → Step S E A
  fail e s = (err e, s)

  -- A result that does not touch the state.
  abbrev pub answer : {A : Type 0} → Result E A → Step S E A
  answer r s = (r, s)

  abbrev pub handled :
      {F A B : Type 0} → Result E A × S → (Result E A → Step S F B) → Result F B × S
  handled (r, s) next = next r s

  -- A `match` on a step that may fail.
  abbrev pub attempt : {F A B : Type 0} → Step S E A → (Result E A → Step S F B) → Step S F B
  attempt step next s = handled (step s) next

  abbrev pub renamed : {F A : Type 0} → (E → F) → Result E A × S → Result F A × S
  renamed f (ok a, s) = (ok a, s)
  renamed f (err e, s) = (err (f e), s)

  -- `Result::map_err`
  abbrev pub or_error : {F A : Type 0} → (E → F) → Step S E A → Step S F A
  or_error f step s = renamed f (step s)

module _ {S E A B : Type 0} where
  -- A sequence meets its postconditions if its parts do.
  pub Post-bind :
      {Q : A → S → Type 0} {Q' : B → S → Type 0} {R : E → S → Type 0} (step : Step S E A)
      (next : A → Step S E B) (s : S)
      → Post Q R (step s)
      → ((a : A) (t : S) → Q a t → Post Q' R (next a t))
      → Post Q' R ((step >>= next) s)
  Post-bind {Q} {Q'} {R} step next s first rest = behind (step s) first
    where
      behind : (p : Result E A × S) → Post Q R p → Post Q' R (continue p next)
      behind (ok a, t) (good h) = rest a t h
      behind (err e, t) (bad h) = bad h

module _ {S E F A : Type 0} where
  pub Post-or_error :
      {Q : A → S → Type 0} {R : E → S → Type 0} {R' : F → S → Type 0} (f : E → F)
      (step : Step S E A) (s : S)
      → Post Q R (step s)
      → ((e : E) (t : S) → R e t → R' (f e) t)
      → Post Q R' (or_error f step s)
  Post-or_error {Q} {R} {R'} f step s first rest = behind (step s) first
    where
      behind : (p : Result E A × S) → Post Q R p → Post Q R' (renamed f p)
      behind (ok a, t) (good h) = good h
      behind (err e, t) (bad h) = bad (rest e t h)

module _ {S E F A B : Type 0} where
  pub Post-attempt :
      {Q : A → S → Type 0} {R : E → S → Type 0} {Q' : B → S → Type 0} {R' : F → S → Type 0}
      (step : Step S E A) (next : Result E A → Step S F B) (s : S)
      → Post Q R (step s)
      → ((a : A) (t : S) → Q a t → Post Q' R' (next (ok a) t))
      → ((e : E) (t : S) → R e t → Post Q' R' (next (err e) t))
      → Post Q' R' (attempt step next s)
  Post-attempt {Q} {R} {Q'} {R'} step next s first done failed = behind (step s) first
    where
      behind : (p : Result E A × S) → Post Q R p → Post Q' R' (handled p next)
      behind (ok a, t) (good h) = done a t h
      behind (err e, t) (bad h) = failed e t h

module _ {S E A : Type 0} where
  -- Weaker postconditions hold too.
  pub Post-weaken :
      {Q Q' : A → S → Type 0} {R R' : E → S → Type 0} (p : Result E A × S)
      → Post Q R p
      → ((a : A) (t : S) → Q a t → Q' a t)
      → ((e : E) (t : S) → R e t → R' e t)
      → Post Q' R' p
  Post-weaken (ok a, t) (good h) done failed = good (done a t h)
  Post-weaken (err e, t) (bad h) done failed = bad (failed e t h)

module _ {S E A : Type 0} where
  -- A result that does not touch the state, with the equation.
  pub Post-answer :
      (r : Result E A) (s : S)
      → Post (λ a t. (t ≡ s) × (r ≡ ok a)) (λ e t. (t ≡ s) × (r ≡ err e)) (answer r s)
  Post-answer (ok a) s = good (refl, refl)
  Post-answer (err e) s = bad (refl, refl)

  -- What a step comes to, with the equation.
  pub Post-itself : (p : Result E A × S) → Post (λ a t. p ≡ (ok a, t)) (λ e t. p ≡ (err e, t)) p
  Post-itself (ok a, t) = good refl
  Post-itself (err e, t) = bad refl
