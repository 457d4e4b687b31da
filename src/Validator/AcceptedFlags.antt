-- ===== src/Validator/AcceptedFlags.antt =====
-- About `process_long_flag` and `process_short_flag` (validator/helpers.rs) on accepted lists.
use secure_sudoers_setup.Base.{
  ℕ, true, List, [], ◌∷◌, ◌++◌, Option, none, some, ok, ◌≡◌, Bool-cases, Option-cases, >>=-eq-ok,
  inl, inr, refl, sym, ◌∙◌,
}
use secure_sudoers_setup.Text.{Text}
use secure_sudoers_setup.Map.{get}
use secure_sudoers_setup.Fs.{FileSystem}
use secure_sudoers_setup.Regex.{Regex, RegexEngine}
use secure_sudoers_setup.Models.{ParameterType, ParameterConfig, ToolPolicy, is_bool}
use secure_sudoers_setup.Validator.Types.{ValidatedArg}
use secure_sudoers_setup.Validator.Helpers.{ValidationParams, split_flag}
use secure_sudoers_setup.Validator.Flags
use secure_sudoers_setup.Validator.Flags.{
  Progress, process_typed, process_known, process_flag_with_value, process_long_flag,
  process_cluster, process_short_flag, short_flag, attached,
}
use secure_sudoers_setup.Validator.Cases.{cluster_unknown, cluster_switch, cluster_valued}
use secure_sudoers_setup.Validator.Accepted.{bool_flag, Accepted, then_item}
use secure_sudoers_setup.Validator.Items.{params, ItemFrom, process_typed-Item}

is_bool-eq : (t : ParameterType) → is_bool t ≡ true → t ≡ ParameterType.bool
is_bool-eq ParameterType.bool h = refl
is_bool-eq ParameterType.string h = cc
is_bool-eq ParameterType.path h = cc

module _ (fs : FileSystem) (engine : RegexEngine) (blocked_paths : List Text) (safe_re : Regex)
    (tool : ToolPolicy) (tool_name : Text) where
  abbrev pub IsAccepted : List ValidatedArg → Type 0
  IsAccepted = Accepted fs engine blocked_paths safe_re tool

  abbrev pub flags : ValidationParams
  flags = params fs engine blocked_paths safe_re tool tool_name

  pub accept_item :
      {out out' : List ValidatedArg}
      → IsAccepted out
      → ItemFrom fs engine blocked_paths safe_re tool tool_name out out'
      → IsAccepted out'
  accept_item a (xs, e, i) = rw e (then_item xs a i)

  process_known-Accepted :
      (o : Option ParameterConfig) (name : Text) (val : Option Text) (iter : List Text)
      (out : List ValidatedArg) (p : Progress)
      → get name tool.parameters ≡ o
      → process_known fs engine flags o name val iter out ≡ ok (some p)
      → IsAccepted out
      → IsAccepted p.out
  unfolding process_known
  process_known-Accepted none name val iter out p known h a = cc
  process_known-Accepted (some c) name val iter out p known h a =
      let (q, typed, made) =
        >>=-eq-ok (process_typed fs engine flags c.param_type c name val iter out) _ h in
      let same : q ≡ p = cc in
      accept_item a (
        process_typed-Item fs engine blocked_paths safe_re tool tool_name c.param_type c name val
          iter out p known refl (rw same at typed))

  process_flag_with_value-Accepted :
      (flag : Text) (val : Option Text) (iter : List Text) (out : List ValidatedArg) (p : Progress)
      → process_flag_with_value fs engine flags flag val iter out ≡ ok (some p)
      → IsAccepted out
      → IsAccepted p.out
  unfolding process_flag_with_value
  process_flag_with_value-Accepted flag val iter out p h a =
      process_known-Accepted _ (split_flag flag val).0 (split_flag flag val).1 iter out p refl h a

  pub process_long_flag-Accepted :
      (flag : Text) (iter : List Text) (out : List ValidatedArg) (p : Progress)
      → process_long_flag fs engine flags flag iter out ≡ ok p
      → IsAccepted out
      → IsAccepted p.out
  unfolding process_long_flag
  process_long_flag-Accepted flag iter out p h a =
      let (handled, e, h') =
        >>=-eq-ok (process_flag_with_value fs engine flags flag none iter out) _ h in
      finish handled e h'
    where
      finish :
          (o : Option Progress)
          → process_flag_with_value fs engine flags flag none iter out ≡ ok o
          → Flags.or_not_permitted fs engine flags flag o ≡ ok p
          → IsAccepted p.out
      finish none e h = cc
      finish (some q) e h =
          let same : q ≡ p = cc in
          process_flag_with_value-Accepted flag none iter out p (rw same at e) a

  or_unchanged-Accepted :
      (flag : Text) (val : Option Text) (iter : List Text) (out : List ValidatedArg)
      (o : Option Progress)
      → process_flag_with_value fs engine flags flag val iter out ≡ ok o
      → IsAccepted out
      → IsAccepted (Flags.or_unchanged fs engine flags iter out o).out
  or_unchanged-Accepted flag val iter out none e a = a
  or_unchanged-Accepted flag val iter out (some q) e a =
      process_flag_with_value-Accepted flag val iter out q e a

  switch-Accepted :
      (c : ℕ) (config : ParameterConfig) (out : List ValidatedArg)
      → get (short_flag fs engine flags c) tool.parameters ≡ some config
      → is_bool config.param_type ≡ true
      → IsAccepted out
      → IsAccepted (out ++ ValidatedArg.string (short_flag fs engine flags c) ∷ [])
  switch-Accepted c config out known switch a = then_item _ a (
      bool_flag (short_flag fs engine flags c) config (known, is_bool-eq config.param_type switch)
        refl)

  process_cluster-Accepted :
      (cs : List ℕ) (iter : List Text) (out : List ValidatedArg) (p : Progress)
      → process_cluster fs engine flags cs iter out ≡ ok p
      → IsAccepted out
      → IsAccepted p.out
  unfolding process_cluster
  process_cluster-Accepted [] iter out p h a =
      let same : record { iter = iter; out = out } ≡ p = cc in rw (← same) a
  process_cluster-Accepted (c ∷ cs) iter out p h a =
      elim (Option-cases (get (short_flag fs engine flags c) tool.parameters)) [
        | inl unknown ↦ let e = cluster_unknown fs engine flags c cs iter out unknown in cc
        | inr (config, known) ↦ elim (Bool-cases (is_bool config.param_type)) [
          | inl switch ↦
              process_cluster-Accepted cs iter _ p
                (sym (cluster_switch fs engine flags c cs iter out config known switch) ∙ h)
                (switch-Accepted c config out known switch a)
          | inr valued ↦
              let (handled, e, h') =
                >>=-eq-ok
                  (process_flag_with_value fs engine flags (short_flag fs engine flags c)
                    (attached fs engine flags cs) iter out)
                  _ (sym (cluster_valued fs engine flags c cs iter out config known valued) ∙ h) in
              let same : Flags.or_unchanged fs engine flags iter out handled ≡ p = cc in
              rw (← same) (or_unchanged-Accepted _ _ iter out handled e a)
        ]
      ]

  pub process_short_flag-Accepted :
      (arg : Text) (iter : List Text) (out : List ValidatedArg) (p : Progress)
      → process_short_flag fs engine flags arg iter out ≡ ok p
      → IsAccepted out
      → IsAccepted p.out
  unfolding process_short_flag
  process_short_flag-Accepted arg iter out p h a =
      let (handled, e, h') =
        >>=-eq-ok (process_flag_with_value fs engine flags arg none iter out) _ h in
      finish handled e h'
    where
      finish :
          (o : Option Progress)
          → process_flag_with_value fs engine flags arg none iter out ≡ ok o
          → Flags.or_cluster fs engine flags arg iter out o ≡ ok p
          → IsAccepted p.out
      finish none e h = process_cluster-Accepted _ iter out p h a
      finish (some q) e h =
          let same : q ≡ p = cc in
          process_flag_with_value-Accepted arg none iter out p (rw same at e) a
