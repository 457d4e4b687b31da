-- ===== src/Calls/Selected.antt =====
-- The calls of one kind in a history.
use secure_sudoers_setup.Base.{
  Bool, true, false, [], ◌∷◌, ◌++◌, append_assoc, append-nil, sym, Result, ok, err, ◌≡◌, refl, ◌∙◌,
  inl, inr, Bool-cases, ap,
}
use secure_sudoers_setup.Steps.{Step, or_error, renamed, handled, attempt, ◌>>=◌, continue}
use secure_sudoers_setup.Calls.{Call, History}

abbrev kept : Bool → Call → History → History
kept true c rest = c ∷ rest
kept false c rest = rest

-- The calls for which the test is true, in order.
unfoldable pub select : (Call → Bool) → History → History
select p [] = []
select p (c ∷ h) = kept (p c) c (select p h)

module _ (p : Call → Bool) where
  select-append : (h g : History) → select p (h ++ g) ≡ select p h ++ select p g
  unfolding select
  select-append [] g = refl
  select-append (c ∷ h) g = elim (Bool-cases (p c)) [
    | inl e ↦ rw e (ap (λ (r : History). c ∷ r) (select-append h g))
    | inr e ↦ rw e (select-append h g)
  ]

  pub select-skip : (h : History) (c : Call) → p c ≡ false → select p (h ++ c ∷ []) ≡ select p h
  unfolding select
  select-skip h c e = select-append h (c ∷ []) ∙ rw (e, select) (append_none (select p h))
    where
      append_none : (xs : History) → xs ++ [] ≡ xs
      append_none [] = refl
      append_none (x ∷ xs) = ap (λ (r : History). x ∷ r) (append_none xs)

  pub select-take :
      (h : History) (c : Call) → p c ≡ true → select p (h ++ c ∷ []) ≡ select p h ++ c ∷ []
  unfolding select
  select-take h c e = select-append h (c ∷ []) ∙ rw (e, select) refl

-- A history and what was called later.
abbrev pub Extends : History → History → Type 0
Extends h t = (later : History) × (t ≡ h ++ later)

pub Extends-refl : (h : History) → Extends h h
Extends-refl h = ([], sym (append-nil h))

pub Extends-trans : (h g t : History) → Extends h g → Extends g t → Extends h t
Extends-trans h g t (a, e) (b, f) = (a ++ b, f ∙ rw e (append_assoc h a b))

module _ (p : Call → Bool) where
  -- Calls are added, but none for which the test is true.
  abbrev pub Quiet : History → History → Type 0
  Quiet h t = (select p t ≡ select p h) × Extends h t

  pub Quiet-refl : (h : History) → Quiet h h
  Quiet-refl h = (refl, Extends-refl h)

  pub Quiet-call : (h : History) (c : Call) → p c ≡ false → Quiet h (h ++ c ∷ [])
  Quiet-call h c e = (select-skip p h c e, (c ∷ [], refl))

  pub Quiet-trans : (h g t : History) → Quiet h g → Quiet g t → Quiet h t
  Quiet-trans h g t (e, x) (f, y) = (f ∙ e, Extends-trans h g t x y)

  -- A step that makes no such call.
  abbrev pub Unselected : {E A : Type 0} → History → Result E A × History → Type 0
  Unselected h q = Quiet h q.1

module _ {E A B : Type 0} (p : Call → Bool) where
  pub bind-Unselected :
      (step : Step History E A) (next : A → Step History E B) (h : History)
      → Unselected p h (step h)
      → ((a : A) (g : History) → Unselected p g (next a g))
      → Unselected p h ((step >>= next) h)
  bind-Unselected step next h first rest = behind (step h) first
    where
      behind : (q : Result E A × History) → Unselected p h q → Unselected p h (continue q next)
      behind (ok a, g) e = Quiet-trans p h g (next a g).1 e (rest a g)
      behind (err x, g) e = e

module _ {E F A : Type 0} (p : Call → Bool) where
  pub or_error-Unselected :
      (f : E → F) (step : Step History E A) (h : History)
      → Unselected p h (step h)
      → Unselected p h (or_error f step h)
  or_error-Unselected f step h first = behind (step h) first
    where
      behind : (q : Result E A × History) → Unselected p h q → Unselected p h (renamed f q)
      behind (ok a, g) e = e
      behind (err x, g) e = e

module _ {E F A B : Type 0} (p : Call → Bool) where
  pub attempt-Unselected :
      (step : Step History E A) (next : Result E A → Step History F B) (h : History)
      → Unselected p h (step h)
      → ((r : Result E A) (g : History) → Unselected p g (next r g))
      → Unselected p h (attempt step next h)
  attempt-Unselected step next h first rest = behind (step h) first
    where
      behind : (q : Result E A × History) → Unselected p h q → Unselected p h (handled q next)
      behind (r, g) e = Quiet-trans p h g (next r g).1 e (rest r g)
