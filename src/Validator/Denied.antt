-- ===== src/Validator/Denied.antt =====
-- About the denials of `validate_command` (validator.rs): the rule that each one names.
use secure_sudoers_setup.Base.{
  ℕ, zero, suc, List, [], ◌∷◌, Option, none, some, Result, ok, err, ◌>>=◌, ◌≡◌, ◌⊎◌, inl, inr, refl,
  map_err, ok_or, Bool-cases, Result-cases, sym, ◌∙◌, length,
}
use secure_sudoers_setup.Text.{Text, lit, text_eq, contains, starts_with}
use secure_sudoers_setup.Map.{get}
use secure_sudoers_setup.Error.{Error}
use secure_sudoers_setup.Fs.{FileSystem, check_path, positional}
use secure_sudoers_setup.Regex.{RegexEngine, regex_new}
use secure_sudoers_setup.Models.{ToolPolicy, SecureSudoersPolicy}
use secure_sudoers_setup.Validator.Types.{ValidatedArg, ValidationDenial, denial, with_rule}
use secure_sudoers_setup.Validator.Helpers.{
  format, ValidationParams, PositionalParams, double_dash, is_flag_like,
}
use secure_sudoers_setup.Validator.Positional.{push_positional}
use secure_sudoers_setup.Validator.Flags.{process_long_flag, process_short_flag}
use secure_sudoers_setup.Validator.Cases.{
  arg_long, arg_short, arg_positional, args_delimited, args_denied, args_next,
}
use secure_sudoers_setup.Validator.Command.{
  denied_as, missing_tool, blocked_argument, policy_error, blocked_path, unwrap_or, take_verb,
  push_delimited, process_arg, validate_args, validate_command, prepare, prepare_tool, Prepared,
  run_args, run_prepared, finish_with,
}
use secure_sudoers_setup.Validator.Sound.{prepare-IsPrepared}

-- A sequence that fails has a step that fails.
>>=-eq-err :
    {E A B : Type 0} (step : Result E A) (next : A → Result E B) (e : E)
    → (step >>= next) ≡ err e
    → (step ≡ err e) ⊎ ((a : A) × (step ≡ ok a) × (next a ≡ err e))
>>=-eq-err (ok a) next e h = inr (a, refl, h)
>>=-eq-err (err f) next e h = inl (cc)

module _ (rule_id : Text) where
  abbrev Ruled : ValidationDenial → Type 0
  Ruled d = d.rule_id ≡ some rule_id

  err-Ruled :
      {A : Type 0} (d0 d : ValidationDenial)
      → d0.rule_id ≡ some rule_id
      → ◌≡◌ {A = Result ValidationDenial A} (err d0) (err d)
      → Ruled d
  err-Ruled d0 d e h = let same : d0 ≡ d = cc in rw (← same) e

  map_err-Ruled :
      {A : Type 0} (slug : Text) (r : Result Error A) (d : ValidationDenial)
      → map_err (denied_as slug rule_id) r ≡ err d
      → Ruled d
  map_err-Ruled slug (ok a) d h = cc
  map_err-Ruled slug (err e) d h = let same : denied_as slug rule_id e ≡ d = cc in rw (← same) refl

  take_verb-Ruled :
      (tool_name : Text) (verbs raw_args : List Text) (d : ValidationDenial)
      → take_verb tool_name rule_id verbs raw_args ≡ err d
      → Ruled d
  unfolding take_verb
  take_verb-Ruled tool_name [] raw_args d h = cc
  take_verb-Ruled tool_name (v ∷ vs) [] d h =
      err-Ruled {A = List Text × List ValidatedArg} _ d refl h
  take_verb-Ruled tool_name (v ∷ vs) (w ∷ raw) d h = elim (Bool-cases (contains (v ∷ vs) w)) [
    | inl known ↦ let never = rw known at h in cc
    | inr unknown ↦ err-Ruled {A = List Text × List ValidatedArg} _ d refl (rw unknown at h)
  ]

  module _ (fs : FileSystem) (engine : RegexEngine) (v_params : ValidationParams) where
    push_delimited-Ruled :
        (p_params : PositionalParams) (iter : List Text) (out : List ValidatedArg)
        (d : ValidationDenial)
        → push_delimited fs engine rule_id v_params p_params iter out ≡ err d
        → Ruled d
    unfolding push_delimited
    push_delimited-Ruled p_params [] out d h = cc
    push_delimited-Ruled p_params (arg ∷ iter) out d h =
        elim (>>=-eq-err
          (map_err (denied_as blocked_argument rule_id)
            (push_positional fs engine arg p_params out))
          _ d h) [
            | inl failed ↦ map_err-Ruled _ (push_positional fs engine arg p_params out) d failed
            | inr (out', pushed, later) ↦ push_delimited-Ruled p_params iter out' d later
          ]

    process_arg-Ruled :
        (before : PositionalParams) (arg : Text) (iter : List Text) (out : List ValidatedArg)
        (d : ValidationDenial)
        → process_arg fs engine rule_id v_params before arg iter out ≡ err d
        → Ruled d
    process_arg-Ruled before arg iter out d h = elim (Bool-cases (starts_with arg double_dash)) [
      | inl long ↦
          map_err-Ruled _ (process_long_flag fs engine v_params arg iter out) d
            (sym (arg_long fs engine rule_id v_params before before arg iter out long) ∙ h)
      | inr e ↦ elim (Bool-cases (is_flag_like arg)) [
        | inl short ↦
            map_err-Ruled _ (process_short_flag fs engine v_params arg iter out) d
              (sym (arg_short fs engine rule_id v_params before before arg iter out e short) ∙ h)
        | inr bare ↦
            elim (>>=-eq-err
              (map_err (denied_as blocked_argument rule_id)
                (push_positional fs engine arg before out))
              _ d
              (sym (arg_positional fs engine rule_id v_params before before arg iter out e bare)
                ∙ h)) [
                  | inl failed ↦ map_err-Ruled _ (push_positional fs engine arg before out) d failed
                  | inr (out', pushed, later) ↦ cc
                ]
      ]
    ]

    validate_args-Ruled :
        (fuel : ℕ) (before behind : PositionalParams) (iter : List Text) (out : List ValidatedArg)
        (d : ValidationDenial)
        → validate_args fs engine rule_id v_params fuel before behind iter out ≡ some (err d)
        → Ruled d
    unfolding validate_args
    validate_args-Ruled fuel before behind [] out d h = cc
    validate_args-Ruled zero before behind (arg ∷ iter) out d h = cc
    validate_args-Ruled (suc fuel) before behind (arg ∷ iter) out d h =
        elim (Bool-cases (text_eq arg double_dash)) [
          | inl delimiter ↦
              let e =
                args_delimited fs engine rule_id v_params before behind arg iter out fuel
                  delimiter in
              push_delimited-Ruled behind iter out d (cc)
          | inr other ↦
              elim (Result-cases (process_arg fs engine rule_id v_params before arg iter out)) [
                | inl (p, e) ↦ validate_args-Ruled fuel before behind p.iter p.out d (
                    sym (
                      args_next fs engine rule_id v_params before behind arg iter out fuel p other
                        e)
                    ∙ h)
                | inr (d', e) ↦
                    let stopped =
                      args_denied fs engine rule_id v_params before behind arg iter out fuel d'
                        other e in
                    let same : d' ≡ d = cc in process_arg-Ruled before arg iter out d (rw same at e)
              ]
        ]

  ok_or-Ruled :
      {A : Type 0} (o : Option A) (d0 d : ValidationDenial)
      → d0.rule_id ≡ some rule_id
      → ok_or o d0 ≡ err d
      → Ruled d
  ok_or-Ruled (some a) d0 d e h = cc
  ok_or-Ruled none d0 d e h = let same : d0 ≡ d = cc in rw (← same) e

module _ (fs : FileSystem) (engine : RegexEngine) (policy : SecureSudoersPolicy)
    (tool_name : Text) where
  abbrev rule_of : ToolPolicy → Text
  rule_of tool = unwrap_or tool.id tool_name

  prepare_tool-Ruled :
      (tool : ToolPolicy) (raw_args : List Text) (d : ValidationDenial)
      → prepare_tool fs engine policy tool_name tool raw_args ≡ err d
      → Ruled (rule_of tool) d
  unfolding prepare_tool
  prepare_tool-Ruled tool raw_args d h =
      elim (>>=-eq-err
        (map_err (denied_as blocked_path (rule_of tool))
          (check_path fs tool.real_binary positional policy.global_settings.blocked_paths))
        _ d h) [
          | inl failed ↦
              map_err-Ruled (rule_of tool) _ (check_path fs tool.real_binary positional _) d failed
          | inr (binary, checked, h1) ↦
              elim (>>=-eq-err
                (ok_or (regex_new engine policy.global_settings.safe_arg_regex) (
                  with_rule (denial (lit "Policy contains invalid safe_arg_regex") policy_error)
                    (rule_of tool)))
                _ d h1) [
                  | inl failed ↦ ok_or-Ruled (rule_of tool) (regex_new engine _) _ d refl failed
                  | inr (safe_re, compiled, h2) ↦
                      elim (>>=-eq-err (take_verb tool_name (rule_of tool) tool.verbs raw_args) _ d
                        h2) [
                          | inl failed ↦
                              take_verb-Ruled (rule_of tool) tool_name tool.verbs raw_args d failed
                          | inr (taken, verb, h3) ↦ cc
                        ]
                ]
        ]

  -- What a denial says of the tool: it is not listed, or its rule is named.
  abbrev pub IsTraced : ValidationDenial → Type 0
  IsTraced d =
      ((get tool_name policy.tools ≡ none) × (d.reason_slug ≡ missing_tool) × (d.rule_id ≡ none))
      ⊎ ((tool : ToolPolicy) × (get tool_name policy.tools ≡ some tool)
          × (d.rule_id ≡ some (rule_of tool)))

  prepare-IsTraced :
      (o : Option ToolPolicy) (raw_args : List Text) (d : ValidationDenial)
      → get tool_name policy.tools ≡ o
      → prepare fs engine policy tool_name raw_args ≡ err d
      → IsTraced d
  unfolding prepare
  prepare-IsTraced none raw_args d e h =
      let same : denial
            (format (lit "Tool '" ∷ tool_name ∷ lit "' is not permitted by policy" ∷ []))
            missing_tool
          ≡ d =
        let h' = rw e at h in cc in
      inl (rw (← same) (e, refl, refl))
  prepare-IsTraced (some tool) raw_args d e h =
      inr (tool, e, prepare_tool-Ruled tool raw_args d (rw e at h))

  finish_with-err :
      (p : Prepared) (o : Option (Result ValidationDenial (List ValidatedArg)))
      (d : ValidationDenial)
      → finish_with fs engine policy tool_name p o ≡ some (err d)
      → o ≡ some (err d)
  finish_with-err p none d h = cc
  finish_with-err p (some (ok out)) d h = cc
  finish_with-err p (some (err d')) d h = cc

  run_prepared-IsTraced :
      (prepared : Result ValidationDenial Prepared) (raw_args : List Text) (d : ValidationDenial)
      → prepare fs engine policy tool_name raw_args ≡ prepared
      → run_prepared fs engine policy tool_name prepared ≡ some (err d)
      → IsTraced d
  unfolding run_args
  run_prepared-IsTraced (err d') raw_args d e h =
      let same : d' ≡ d = cc in prepare-IsTraced _ raw_args d refl (rw same at e)
  run_prepared-IsTraced (ok p) raw_args d e h =
      let prepared = prepare-IsPrepared fs engine policy tool_name raw_args p e in
      let failed = finish_with-err p (run_args fs engine policy tool_name p) d h in
      inr (
        p.tool,
        prepared.listed,
        rw prepared.rule at
            (validate_args-Ruled p.rule_id fs engine _ (length p.iter) _ _ p.iter p.out d failed),
      )

  -- A denial is traced to a rule: for a tool that the policy does not list it says `missing_tool` and
  -- names no rule, and for a listed tool it names the tool's rule.
  pub validate_command-IsTraced :
      (raw_args : List Text) (d : ValidationDenial)
      → validate_command fs engine policy tool_name raw_args ≡ some (err d)
      → IsTraced d
  unfolding validate_command
  validate_command-IsTraced raw_args d h =
      run_prepared-IsTraced (prepare fs engine policy tool_name raw_args) raw_args d refl h
