-- ===== src/Map.antt =====
-- A `HashMap` with text keys as its entries, in the order in which iteration meets them. No order
-- is assumed of it: theorems hold for every list of entries.
use secure_sudoers_setup.Base.{
  Bool, true, false, List, [], ◌∷◌, Option, none, some, if◌then◌else◌, ◌≡◌, In, here, there,
  Bool-cases, inl, inr,
}
use secure_sudoers_setup.Text.{Text, text_eq}
use secure_sudoers_setup.Text.Laws.{text_eq_iff}

abbrev pub Map : Type 0 → Type 0
Map V = List (Text × V)

module _ {V : Type 0} where
  unfoldable pub get : Text → Map V → Option V
  get k [] = none
  get k ((j, v) ∷ m) = if text_eq j k then some v else get k m

  abbrev pub is_some : Option V → Bool
  is_some none = false
  is_some (some v) = true

  unfoldable pub contains_key : Text → Map V → Bool
  unfolding get
  contains_key k m = is_some (get k m)

  unfoldable pub keys : Map V → List Text
  keys [] = []
  keys ((k, v) ∷ m) = k ∷ keys m

  pub In-get : (k : Text) (m : Map V) (v : V) → get k m ≡ some v → In (k, v) m
  unfolding get
  In-get k [] v h = cc
  In-get k ((j, w) ∷ m) v h = elim (Bool-cases (text_eq j k)) [
    | inl e ↦ first j w ((text_eq_iff j k).0 e) (rw e at h)
    | inr e ↦ there (In-get k m v (rw e at h))
  ]
    where
      first : (i : Text) (u : V) → i ≡ k → some u ≡ some v → In (k, v) ((i, u) ∷ m)
      first i u p q = let e : u ≡ v = cc in rw (p, e) here
