-- ===== src/Examples/Accounts.antt =====
-- Accounts and capabilities.
use secure_sudoers_setup.Base.{
  ℕ, List, [], ◌∷◌, Result, ok, err, ◌≡◌, ◌⊎◌, refl, ltb, if◌then◌else◌,
}
use secure_sudoers_setup.Text.{Text, lit, has_char}
use secure_sudoers_setup.Error.{IoError}
use secure_sudoers_setup.Main.Events.{system, local, network}
use secure_sudoers_setup.Account.{classify_account_type_from_reader}
use secure_sudoers_setup.Account.Listed.{IsListed, answers, classify_account_type_lem}
use secure_sudoers_setup.Capabilities.{drop_bounding_capabilities_with}
use secure_sudoers_setup.Capabilities.Dropped.{Outcome, drop_bounding_capabilities-Outcome}
use secure_sudoers_setup.Examples.Data.{no_file}

abbrev passwd : List Text
unfolding lit
passwd = lit "# users" ∷ lit "alice:x:1001:1001::/home/alice:/bin/sh" ∷ []

classify_account_type_lem_example :
    (IsListed (lit "alice") passwd
      × (classify_account_type_from_reader (lit "alice") 1001 (answers passwd)
          ≡ ok (if ltb 1001 1000 then system else local)))
    ⊎ ((¬ IsListed (lit "alice") passwd)
        × (classify_account_type_from_reader (lit "alice") 1001 (answers passwd) ≡ ok network))
unfolding lit has_char
classify_account_type_lem_example =
    classify_account_type_lem (lit "alice") 1001 passwd (refl, refl, refl) (refl, (refl, tt))

abbrev drop_three : ℕ → Result IoError (Unit {0})
drop_three cap = if ltb cap 3 then ok tt else err no_file

drop_bounding_capabilities-Outcome_example :
    Outcome drop_three 0 41 (drop_bounding_capabilities_with drop_three 40)
drop_bounding_capabilities-Outcome_example = drop_bounding_capabilities-Outcome drop_three 40
