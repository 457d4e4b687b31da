-- ===== src/Exec/Chain.antt =====
-- About the directories above a path in `pin_parent_chain_for_path` (exec.rs).
use secure_sudoers_setup.Base.{
  ℕ, suc, ◌+◌, false, List, [], ◌∷◌, ◌++◌, map, length, length-append, some, ok, ◌≡◌, refl, ◌∙◌,
  sym, ap, inl, inr, Bool-cases, arith,
}
use secure_sudoers_setup.Text.{Text, lit, text_eq, split, has_char}
use secure_sudoers_setup.Text.Laws.{text_eq_iff}
use secure_sudoers_setup.Path.{
  Component, root_dir, normal, components, below_root, last_component, all_but_last,
}
use secure_sudoers_setup.Exec.Pins.{
  path_text, canonical_parent_path, is_root, parent_chain, chain_of,
}

-- The directories above a path, from the root down: those below `done`, whose names follow.
unfoldable pub directories_above : List Text → List Text → List Text
directories_above done [] = []
directories_above done (n ∷ ns) =
    path_text (below_root (done ++ n ∷ [])) ∷ directories_above (done ++ n ∷ []) ns

-- The names from the last one up.
abbrev upwards : List Text → List Text
upwards [] = []
upwards (n ∷ ns) = upwards ns ++ n ∷ []

abbrev rounds : List Text → ℕ → ℕ
rounds [] k = suc k
rounds (n ∷ ns) k = suc (rounds ns k)

last_below :
    (c : Component) (ns : List Text) (x : Text)
    → last_component (c ∷ map normal (ns ++ x ∷ [])) ≡ some (normal x)
unfolding last_component
last_below c [] x = refl
last_below c (n ∷ ns) x = last_below (normal n) ns x

all_but_last_below :
    (c : Component) (ns : List Text) (x : Text)
    → all_but_last (c ∷ map normal (ns ++ x ∷ [])) ≡ c ∷ map normal ns
unfolding all_but_last
all_but_last_below c [] x = refl
all_but_last_below c (n ∷ ns) x =
    ap (λ (cs : List Component). c ∷ cs) (all_but_last_below (normal n) ns x)

is_root_below : (ns : List Text) (x : Text) → is_root (below_root (ns ++ x ∷ [])) ≡ false
is_root_below [] x = refl
is_root_below (n ∷ ns) x = refl

append_assoc_one : (a b c : List Text) → (a ++ b) ++ c ≡ a ++ (b ++ c)
append_assoc_one [] b c = refl
append_assoc_one (x ∷ a) b c = ap (λ (r : List Text). x ∷ r) (append_assoc_one a b c)

directories_above_last :
    (done ns : List Text) (x : Text)
    → directories_above done (ns ++ x ∷ [])
      ≡ directories_above done ns ++ path_text (below_root (done ++ (ns ++ x ∷ []))) ∷ []
unfolding directories_above
directories_above_last done [] x = refl
directories_above_last done (n ∷ ns) x =
    ap (λ (r : List Text). path_text (below_root (done ++ n ∷ [])) ∷ r)
      (directories_above_last (done ++ n ∷ []) ns x
        ∙ ap
            (λ (p : List Text).
              directories_above (done ++ n ∷ []) ns ++ path_text (below_root p) ∷ [])
            (append_assoc_one done (n ∷ []) (ns ++ x ∷ [])))

parent_below :
    (ns : List Text) (x : Text)
    → canonical_parent_path (below_root (ns ++ x ∷ [])) ≡ ok (below_root ns)
unfolding canonical_parent_path
parent_below ns x = rw (last_below root_dir ns x, all_but_last_below root_dir ns x) refl

parent_chain_lem :
    (up : List Text) (x : Text) (k : ℕ)
    → parent_chain (rounds up k) (below_root (upwards up ++ x ∷ []))
      ≡ ok (directories_above [] (upwards up))
unfolding parent_chain directories_above
parent_chain_lem [] x k = rw (parent_below [] x) refl
parent_chain_lem (y ∷ up) x k =
    rw
      (parent_below (upwards up ++ y ∷ []) x, is_root_below (upwards up) y, parent_chain_lem up y k)
      (ap ok (sym (directories_above_last [] (upwards up) y)))

rounds_lem : (up : List Text) (k : ℕ) → rounds up k ≡ suc (k + length up)
rounds_lem [] k = omega arith
rounds_lem (n ∷ up) k = omega (arith, rounds_lem up k)

length-below_root :
    (ns : List Text) (x : Text) → length (below_root (ns ++ x ∷ [])) ≡ suc (1 + length ns)
length-below_root [] x = refl
length-below_root (n ∷ ns) x = omega (arith, length-below_root ns x)

length-upwards : (up : List Text) → length (upwards up) ≡ length up
length-upwards [] = refl
length-upwards (n ∷ up) = omega (arith, length-append (upwards up) (n ∷ []), length-upwards up)

upwards-append : (up : List Text) (n : Text) → upwards (up ++ n ∷ []) ≡ n ∷ upwards up
upwards-append [] n = refl
upwards-append (m ∷ up) n = rw (upwards-append up n) refl

reversed : (ns : List Text) → (up : List Text) × (upwards up ≡ ns)
reversed [] = ([], refl)
reversed (n ∷ ns) = behind (reversed ns)
  where
    behind : (up : List Text) × (upwards up ≡ ns) → (up : List Text) × (upwards up ≡ n ∷ ns)
    behind (up, e) = (up ++ n ∷ [], upwards-append up n ∙ rw e refl)

chain_below :
    (up : List Text) (x : Text)
    → parent_chain (length (below_root (upwards up ++ x ∷ []))) (below_root (upwards up ++ x ∷ []))
      ≡ ok (directories_above [] (upwards up))
chain_below up x = rw (length-below_root (upwards up) x ∙ same_rounds) (parent_chain_lem up x 1)
  where
    same_rounds : suc (1 + length (upwards up)) ≡ rounds up 1
    same_rounds = omega (arith, rounds_lem up 1, length-upwards up)

components_root : components (lit "/") ≡ root_dir ∷ []
unfolding components split has_char lit text_eq
components_root = refl

root_is_alone :
    {A : Type 0} (ns : List Text) (x : Text) → root_dir ∷ [] ≡ below_root (ns ++ x ∷ []) → A
root_is_alone [] x e = cc
root_is_alone (n ∷ ns) x e = cc

not_root_path :
    (path : Text) (ns : List Text) (x : Text)
    → components path ≡ below_root (ns ++ x ∷ [])
    → text_eq path (lit "/") ≡ false
not_root_path path ns x e = elim (Bool-cases (text_eq path (lit "/"))) [
  | inl same ↦
      root_is_alone ns x (sym components_root ∙ rw (sym ((text_eq_iff path (lit "/")).0 same)) e)
  | inr other ↦ other
]

-- Where a path is absolute and ends in a name, the chain that is pinned has every directory from the
-- one below the root down to the one that holds the path, in this order: the loop has rounds enough.
pub chain_of-directories_above :
    (path : Text) (ns : List Text) (x : Text)
    → components path ≡ below_root (ns ++ x ∷ [])
    → chain_of path ≡ ok (directories_above [] ns)
chain_of-directories_above path ns x e = behind (reversed ns)
  where
    behind : (up : List Text) × (upwards up ≡ ns) → chain_of path ≡ ok (directories_above [] ns)
    behind (up, f) = rw (not_root_path path ns x e, e, sym f) (chain_below up x)

-- An absolute path and the directories above it but the root, the upper ones first.
pub data IsPlace : Text → List Text → Type 0 where
  at_root : IsPlace (lit "/") []
  below :
      {path : Text} (ns : List Text) (x : Text)
      → components path ≡ below_root (ns ++ x ∷ [])
      → IsPlace path (directories_above [] ns)

pub chain_of-IsPlace :
    (path : Text) (above : List Text) → IsPlace path above → chain_of path ≡ ok above
unfolding lit text_eq
chain_of-IsPlace _ _ at_root = refl
chain_of-IsPlace path _ (below ns x e) = chain_of-directories_above path ns x e
