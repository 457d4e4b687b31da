-- ===== src/Capabilities.antt =====
-- `drop_bounding_capabilities_with` of `crates/secure-sudoers/src/isolation/capabilities.rs`.
pub mod Drop
pub mod Dropped
use secure_sudoers_setup.Base.{ℕ, zero, suc, ◌+◌, ◌++◌, Result, ok, err, ◌>>=◌, map_err}
use secure_sudoers_setup.Text.{Text, lit, show}
use secure_sudoers_setup.Error.{Error, IoError, io_context}

abbrev pub drop_failure : ℕ → Text
drop_failure cap = lit "Security failure: PR_CAPBSET_DROP failed for capability " ++ show cap

module _ (drop_one : ℕ → Result IoError (Unit {0})) where
  -- The rounds that are left, and the next capability.
  unfoldable pub drop_from : ℕ → ℕ → Result Error (Unit {0})
  drop_from zero cap = ok tt
  drop_from (suc rounds) cap = do
    dropped ← map_err (io_context (drop_failure cap)) (drop_one cap)
    drop_from rounds (cap + 1)

  -- `for cap in 0..=last_cap`
  unfoldable pub drop_bounding_capabilities_with : ℕ → Result Error (Unit {0})
  unfolding drop_from
  drop_bounding_capabilities_with last_cap = drop_from (last_cap + 1) 0
