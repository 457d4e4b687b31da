-- ===== src/Models/Parameter.antt =====
-- What a parameter's tests accept, stated without the code's order of tests.
use secure_sudoers_setup.Base.{
  Bool, true, List, Option, none, some, ◌≡◌, ◌⊎◌, ◌↔◌, inl, inr, arith, In, Bool-cases, refl,
}
use secure_sudoers_setup.Text.{Text, contains}
use secure_sudoers_setup.Text.Laws.{contains_sound, contains_complete}
use secure_sudoers_setup.Regex.{Regex, RegexEngine}
use secure_sudoers_setup.Models.{
  ParameterConfig, is_explicitly_disallowed, matches_allowed_or_regex, matches, either_match,
  map_test, is_some_and_match, listed,
}

-- The optional list is there and has the value.
abbrev pub Listed : Option (List Text) → Text → Type 0
Listed o val = (entries : List Text) × (o ≡ some entries) × In val entries

-- The parameter has a pattern, and its compiled form matches the value.
abbrev pub RegexAccepts : RegexEngine → Option Text → Option Regex → Text → Type 0
RegexAccepts engine pattern compiled val =
    (p : Text) × (re : Regex) × (pattern ≡ some p)
    × (compiled ≡ some re)
    × (engine.is_match re val ≡ true)

-- No restriction at all, or a listed value, or a match.
abbrev pub Permits : RegexEngine → ParameterConfig → Text → Type 0
Permits engine c val =
    ((c.allowed ≡ none) × (c.regex ≡ none))
    ⊎ (Listed c.allowed val ⊎ RegexAccepts engine c.regex c.compiled_regex val)

listed_sound : (o : Option (List Text)) (val : Text) → listed o val ≡ true → Listed o val
listed_sound none val h = cc
listed_sound (some entries) val h = (entries, refl, contains_sound entries val h)

listed_complete : (o : Option (List Text)) (val : Text) → Listed o val → listed o val ≡ true
listed_complete none val (entries, e, m) = cc
listed_complete (some l) val (entries, e, m) =
    let same : l ≡ entries = cc in rw same (contains_complete m)

regex_sound :
    (engine : RegexEngine) (p : Text) (o : Option Regex) (val : Text)
    → is_some_and_match engine o val ≡ true
    → RegexAccepts engine (some p) o val
regex_sound engine p none val h = cc
regex_sound engine p (some re) val h = (p, re, refl, refl, h)

regex_complete :
    (engine : RegexEngine) (pattern : Option Text) (o : Option Regex) (val : Text)
    → RegexAccepts engine pattern o val
    → is_some_and_match engine o val ≡ true
regex_complete engine pattern none val (p, re, e, f, h) = cc
regex_complete engine pattern (some r) val (p, re, e, f, h) = let same : r ≡ re = cc in rw same h

module _ (engine : RegexEngine) (compiled : Option Regex) (val : Text) where
  abbrev Choice : Option (List Text) → Option Text → Type 0
  Choice allowed pattern =
      ((allowed ≡ none) × (pattern ≡ none))
      ⊎ (Listed allowed val ⊎ RegexAccepts engine pattern compiled val)

  abbrev choose : Option (List Text) → Option Text → Bool
  choose allowed pattern =
      either_match (map_test (λ entries. contains entries val) allowed)
        (map_test (λ (_ : Text). is_some_and_match engine compiled val) pattern)

  choose_sound :
      (allowed : Option (List Text)) (pattern : Option Text)
      → choose allowed pattern ≡ true
      → Choice allowed pattern
  choose_sound none none h = inl (refl, refl)
  choose_sound none (some p) h = inr (inr (regex_sound engine p compiled val h))
  choose_sound (some l) none h = inr (inl (listed_sound (some l) val h))
  choose_sound (some l) (some p) h = elim (Bool-cases (contains l val)) [
    | inl e ↦ inr (inl (listed_sound (some l) val e))
    | inr e ↦ inr (inr (regex_sound engine p compiled val (rw e at h)))
  ]

  choose_complete :
      (allowed : Option (List Text)) (pattern : Option Text)
      → Choice allowed pattern
      → choose allowed pattern ≡ true
  choose_complete none none c = refl
  choose_complete none (some p) (inl (e, f)) = cc
  choose_complete none (some p) (inr (inl (l, e, m))) = cc
  choose_complete none (some p) (inr (inr r)) = regex_complete engine (some p) compiled val r
  choose_complete (some l) none (inl (e, f)) = cc
  choose_complete (some l) none (inr (inl m)) = listed_complete (some l) val m
  choose_complete (some l) none (inr (inr (p, re, e, f, r))) = cc
  choose_complete (some l) (some p) (inl (e, f)) = cc
  choose_complete (some l) (some p) (inr (inl m)) =
      let e : contains l val ≡ true = listed_complete (some l) val m in rw e refl
  choose_complete (some l) (some p) (inr (inr r)) =
      let e = regex_complete engine (some p) compiled val r in ground arith

-- The test on `allowed` and `regex` passes exactly for the permitted values.
pub matches_allowed_or_regex_iff :
    (engine : RegexEngine) (c : ParameterConfig) (val : Text)
    → (matches_allowed_or_regex engine c val ≡ true) ↔ Permits engine c val
unfolding matches_allowed_or_regex
matches_allowed_or_regex_iff engine c val = (
  choose_sound engine c.compiled_regex val c.allowed c.regex,
  choose_complete engine c.compiled_regex val c.allowed c.regex,
)

pub is_explicitly_disallowed_iff :
    (c : ParameterConfig) (val : Text)
    → (is_explicitly_disallowed c val ≡ true) ↔ Listed c.disallowed val
unfolding is_explicitly_disallowed
is_explicitly_disallowed_iff c val =
    (listed_sound c.disallowed val, listed_complete c.disallowed val)

-- `matches` accepts exactly the values that are permitted and not disallowed: a disallowed value is
-- refused also where it is listed as allowed or matches the pattern.
pub matches_iff :
    (engine : RegexEngine) (c : ParameterConfig) (val : Text)
    → (matches engine c val ≡ true) ↔ ((¬ Listed c.disallowed val) × Permits engine c val)
unfolding matches
matches_iff engine c val = elim (Bool-cases (is_explicitly_disallowed c val)) [
  | inl e ↦ (
    λ h. let never = rw e at h in cc,
    λ p. absurd (p.0 ((is_explicitly_disallowed_iff c val).0 e)),
  )
  | inr e ↦ (
    λ h. (
      λ l. let back = (is_explicitly_disallowed_iff c val).1 l in cc,
      (matches_allowed_or_regex_iff engine c val).0 (rw e at h),
    ),
    λ p. rw e ((matches_allowed_or_regex_iff engine c val).1 p.1),
  )
]
