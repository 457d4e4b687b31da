-- ===== src/Capabilities/Dropped.antt =====
-- About `drop_bounding_capabilities_with` (isolation/capabilities.rs).
use secure_sudoers_setup.Base.{
  ℕ, zero, suc, ◌+◌, ◌≤◌, ◌<◌, Result, ok, err, ◌≡◌, ◌⊎◌, inl, inr, refl, arith, Result-cases,
}
use secure_sudoers_setup.Error.{Error, IoError, io_context}
use secure_sudoers_setup.Capabilities.{drop_failure, drop_from, drop_bounding_capabilities_with}

module _ (drop_one : ℕ → Result IoError (Unit {0})) where
  -- The capabilities from `low` on, below `high`, are dropped.
  abbrev pub AllDropped : ℕ → ℕ → Type 0
  AllDropped low high = (c : ℕ) → low ≤ c → c < high → drop_one c ≡ ok tt

  -- What a run over the capabilities from `low` on, below `high`, comes to.
  abbrev pub Outcome : ℕ → ℕ → Result Error (Unit {0}) → Type 0
  Outcome low high result =
      (AllDropped low high × (result ≡ ok tt))
      ⊎ ((c : ℕ) × (e : IoError) × (low ≤ c)
          × (c < high)
          × AllDropped low c
          × (drop_one c ≡ err e)
          × (result ≡ err (io_context (drop_failure c) e)))

  extend : (low high : ℕ) → drop_one low ≡ ok tt → AllDropped (low + 1) high → AllDropped low high
  extend low high first rest c l h = elim (low_or_above low c l) [
    | inl same ↦ rw (← same) first
    | inr above ↦ rest c above h
  ]
    where
      low_or_above : (low c : ℕ) → low ≤ c → (low ≡ c) ⊎ (low + 1 ≤ c)
      low_or_above low c l = grind arith

  drop_from-Outcome : (rounds low : ℕ) → Outcome low (low + rounds) (drop_from drop_one rounds low)
  unfolding drop_from
  drop_from-Outcome zero low = inl (λ c l h. absurd (omega arith), refl)
  drop_from-Outcome (suc rounds) low = elim (Result-cases (drop_one low)) [
    | inr (e, failed) ↦
        inr
          (low, e, omega arith, omega arith, λ c l h. absurd (omega arith), failed, rw failed refl)
    | inl (unit, dropped) ↦
        let same : low + 1 + rounds ≡ low + suc rounds = omega arith in
        let rest : Outcome (low + 1) (low + suc rounds) (drop_from drop_one rounds (low + 1)) =
          rw (← same) (drop_from-Outcome rounds (low + 1)) in
        elim rest [
          | inl (all, e) ↦ inl (extend low (low + suc rounds) dropped all, rw dropped e)
          | inr (c, e, l, h, all, failed, r) ↦
              inr (c, e, omega arith, h, extend low c dropped all, failed, rw dropped r)
        ]
  ]

  -- Every capability from 0 to the last one is dropped and the run succeeds, or the run reports the
  -- first capability whose drop fails, and those before it are dropped.
  pub drop_bounding_capabilities-Outcome :
      (last_cap : ℕ) → Outcome 0 (last_cap + 1) (drop_bounding_capabilities_with drop_one last_cap)
  unfolding drop_bounding_capabilities_with
  drop_bounding_capabilities-Outcome last_cap =
      rw (zero_add (last_cap + 1)) at (drop_from-Outcome (last_cap + 1) 0)
    where
      zero_add : (n : ℕ) → 0 + n ≡ n
      zero_add n = omega arith
