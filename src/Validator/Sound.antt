-- ===== src/Validator/Sound.antt =====
-- About `validate_command` (validator.rs) against the grammar of a tool's arguments.
use secure_sudoers_setup.Base.{
  ℕ, zero, suc, List, [], ◌∷◌, Option, none, some, Result, ok, err, ◌≡◌, ok_or, Bool-cases,
  Result-cases, >>=-eq-ok, map_err-eq-ok, ok_or-eq-ok, inl, inr, refl, map_err, sym, ◌∙◌, length,
}
use secure_sudoers_setup.Text.{Text, text_eq, starts_with, lit, contains}
use secure_sudoers_setup.Text.Laws.{contains_sound}
use secure_sudoers_setup.Map.{get}
use secure_sudoers_setup.Fs.{
  FileSystem, ValidationContext, positional, delimited_positional, check_path,
}
use secure_sudoers_setup.Regex.{Regex, RegexEngine, regex_new}
use secure_sudoers_setup.Models.{ToolPolicy, SecureSudoersPolicy}
use secure_sudoers_setup.Validator.Types.{
  ValidatedArg, ValidationDenial, ValidationResult, denial, with_rule,
}
use secure_sudoers_setup.Validator.Helpers.{
  ValidationParams, PositionalParams, double_dash, is_flag_like,
}
use secure_sudoers_setup.Validator.Positional.{push_positional}
use secure_sudoers_setup.Validator.Flags.{Progress, process_long_flag, process_short_flag}
use secure_sudoers_setup.Validator.Cases.{
  arg_long, arg_short, arg_positional, args_delimited, args_denied, args_next,
}
use secure_sudoers_setup.Validator.Command.{
  process_arg, push_delimited, validate_args, validate_command, prepare, prepare_tool, run_args,
  run_prepared, finish_with, Prepared, take_verb, denied_as, blocked_argument, blocked_path,
  policy_error, unwrap_or, assemble,
}
use secure_sudoers_setup.Validator.Accepted.{Accepted, start, verb}
use secure_sudoers_setup.Validator.AcceptedFlags.{
  accept_item, flags, process_long_flag-Accepted, process_short_flag-Accepted,
}
use secure_sudoers_setup.Validator.AcceptedPositional.{pos_params, push_positional-Item}

module _ (fs : FileSystem) (engine : RegexEngine) (blocked_paths : List Text) (safe_re : Regex)
    (tool : ToolPolicy) (tool_name rule_id : Text) where
  abbrev Good : List ValidatedArg → Type 0
  Good = Accepted fs engine blocked_paths safe_re tool

  abbrev v_params : ValidationParams
  v_params = flags fs engine blocked_paths safe_re tool tool_name

  abbrev p_params : ValidationContext → PositionalParams
  p_params context = pos_params fs engine blocked_paths safe_re tool tool_name context

  push_positional-Accepted :
      (context : ValidationContext) (arg : Text) (out out' : List ValidatedArg)
      → push_positional fs engine arg (p_params context) out ≡ ok out'
      → Good out
      → Good out'
  push_positional-Accepted context arg out out' h a =
      accept_item fs engine blocked_paths safe_re tool tool_name a
        (push_positional-Item fs engine blocked_paths safe_re tool tool_name context arg out out' h)

  push_delimited-Accepted :
      (context : ValidationContext) (iter : List Text) (out out' : List ValidatedArg)
      → push_delimited fs engine rule_id v_params (p_params context) iter out ≡ ok out'
      → Good out
      → Good out'
  unfolding push_delimited
  push_delimited-Accepted context [] out out' h a = let same : out ≡ out' = cc in rw (← same) a
  push_delimited-Accepted context (arg ∷ iter) out out' h a =
      let (mid, pushed, h') =
        >>=-eq-ok
          (map_err (denied_as blocked_argument rule_id)
            (push_positional fs engine arg (p_params context) out))
          _ h in
      push_delimited-Accepted context iter mid out' h' (
        push_positional-Accepted context arg out mid
          (map_err-eq-ok _ (push_positional fs engine arg (p_params context) out) pushed) a)

  process_arg-Accepted :
      (context : ValidationContext) (arg : Text) (iter : List Text) (out : List ValidatedArg)
      (p : Progress)
      → process_arg fs engine rule_id v_params (p_params context) arg iter out ≡ ok p
      → Good out
      → Good p.out
  process_arg-Accepted context arg iter out p h a =
      elim (Bool-cases (starts_with arg double_dash)) [
        | inl long ↦
            process_long_flag-Accepted fs engine blocked_paths safe_re tool tool_name arg iter out p
              (map_err-eq-ok _ (process_long_flag fs engine v_params arg iter out)
                (sym (arg_long fs engine rule_id v_params before before arg iter out long) ∙ h))
              a
        | inr e ↦ elim (Bool-cases (is_flag_like arg)) [
          | inl short ↦
              process_short_flag-Accepted fs engine blocked_paths safe_re tool tool_name arg iter
                out p
                (map_err-eq-ok _ (process_short_flag fs engine v_params arg iter out) (
                  sym (arg_short fs engine rule_id v_params before before arg iter out e short)
                  ∙ h))
                a
          | inr bare ↦
              let (out', pushed, made) =
                >>=-eq-ok
                  (map_err (denied_as blocked_argument rule_id)
                    (push_positional fs engine arg before out))
                  _
                  (sym (arg_positional fs engine rule_id v_params before before arg iter out e bare)
                    ∙ h) in
              let same : record { iter = iter; out = out' } ≡ p = cc in
              rw (← same) (
                push_positional-Accepted context arg out out'
                  (map_err-eq-ok _ (push_positional fs engine arg before out) pushed) a)
        ]
      ]
    where
      before : PositionalParams
      before = p_params context

  validate_args-Accepted :
      (fuel : ℕ) (iter : List Text) (out out' : List ValidatedArg)
      → validate_args fs engine rule_id v_params fuel
          (p_params positional)
          (p_params delimited_positional)
          iter
          out
        ≡ some (ok out')
      → Good out
      → Good out'
  unfolding validate_args
  validate_args-Accepted fuel [] out out' h a = let same : out ≡ out' = cc in rw (← same) a
  validate_args-Accepted zero (arg ∷ iter) out out' h a = cc
  validate_args-Accepted (suc fuel) (arg ∷ iter) out out' h a =
      elim (Bool-cases (text_eq arg double_dash)) [
        | inl delimiter ↦
            let e =
              args_delimited fs engine rule_id v_params (p_params positional)
                (p_params delimited_positional) arg iter out fuel delimiter in
            push_delimited-Accepted delimited_positional iter out out' (cc) a
        | inr other ↦
            elim (Result-cases
              (process_arg fs engine rule_id v_params (p_params positional) arg iter out)) [
                | inl (p, e) ↦
                    validate_args-Accepted fuel p.iter p.out out'
                      (sym (
                          args_next fs engine rule_id v_params (p_params positional)
                            (p_params delimited_positional) arg iter out fuel p other e)
                        ∙ h)
                      (process_arg-Accepted positional arg iter out p e a)
                | inr (d, e) ↦
                    let never =
                      args_denied fs engine rule_id v_params (p_params positional)
                        (p_params delimited_positional) arg iter out fuel d other e in
                    cc
              ]
      ]

take_verb-Accepted :
    (fs : FileSystem) (engine : RegexEngine) (blocked_paths : List Text) (safe_re : Regex)
    (tool : ToolPolicy) (tool_name rule_id : Text) (verbs raw_args iter : List Text)
    (out : List ValidatedArg)
    → tool.verbs ≡ verbs
    → take_verb tool_name rule_id verbs raw_args ≡ ok (iter, out)
    → Accepted fs engine blocked_paths safe_re tool out
unfolding take_verb
take_verb-Accepted fs engine blocked_paths safe_re tool tool_name rule_id [] raw_args iter out e h =
    let same : [] ≡ out = cc in rw (← same) (start e)
take_verb-Accepted fs engine blocked_paths safe_re tool tool_name rule_id (v ∷ vs) [] iter out e h =
    cc
take_verb-Accepted fs engine blocked_paths safe_re tool tool_name rule_id (v ∷ vs) (w ∷ raw) iter
      out e h =
    elim (Bool-cases (contains (v ∷ vs) w)) [
      | inl known ↦
          let same : ValidatedArg.string w ∷ [] ≡ out = let h' = rw known at h in cc in
          rw (← same) (verb w (rw e (contains_sound (v ∷ vs) w known)))
      | inr unknown ↦ let never = rw unknown at h in cc
    ]

-- The policy grants the command: the tool is listed, the binary is the one that the tool names and
-- comes from `check_path`, and the arguments follow the tool's grammar.
pub record IsGranted (fs : FileSystem) (engine : RegexEngine) (policy : SecureSudoersPolicy)
    (tool_name : Text) (r : ValidationResult) : Type 0 where
  pub tool : ToolPolicy
  pub safe_re : Regex
  pub listed : get tool_name policy.tools ≡ some tool
  pub compiled : regex_new engine policy.global_settings.safe_arg_regex ≡ some safe_re
  pub binary :
      check_path fs tool.real_binary positional policy.global_settings.blocked_paths
      ≡ ok r.command.binary
  pub args : Accepted fs engine policy.global_settings.blocked_paths safe_re tool r.command.args
  pub rule : r.rule_id ≡ unwrap_or tool.id tool_name

module _ (fs : FileSystem) (engine : RegexEngine) (policy : SecureSudoersPolicy)
    (tool_name : Text) where
  -- What a successful preparation says of its parts.
  pub record IsPrepared (p : Prepared) : Type 0 where
    pub listed : get tool_name policy.tools ≡ some p.tool
    compiled : regex_new engine policy.global_settings.safe_arg_regex ≡ some p.safe_re
    binary :
        check_path fs p.tool.real_binary positional policy.global_settings.blocked_paths
        ≡ ok p.binary
    verb : Accepted fs engine policy.global_settings.blocked_paths p.safe_re p.tool p.out
    pub rule : p.rule_id ≡ unwrap_or p.tool.id tool_name

  prepare_tool-IsPrepared :
      (tool : ToolPolicy) (raw_args : List Text) (p : Prepared)
      → get tool_name policy.tools ≡ some tool
      → prepare_tool fs engine policy tool_name tool raw_args ≡ ok p
      → IsPrepared p
  unfolding prepare_tool
  prepare_tool-IsPrepared tool raw_args p listed h =
      let rule_id = unwrap_or tool.id tool_name in
      let (binary, checked, h1) =
        >>=-eq-ok
          (map_err (denied_as blocked_path rule_id)
            (check_path fs tool.real_binary positional policy.global_settings.blocked_paths))
          _ h in
      let (safe_re, compiled, h2) =
        >>=-eq-ok
          (ok_or (regex_new engine policy.global_settings.safe_arg_regex) (
            with_rule (denial (lit "Policy contains invalid safe_arg_regex") policy_error) rule_id))
          _ h1 in
      let ((iter, out), taken, made) =
        >>=-eq-ok (take_verb tool_name rule_id tool.verbs raw_args) _ h2 in
      let same : record {
        tool = tool;
        rule_id = rule_id;
        binary = binary;
        safe_re = safe_re;
        iter = iter;
        out = out;
      }
          ≡ p =
        cc in
      rw (← same) (record {
        listed = listed;
        compiled = ok_or-eq-ok _ _ compiled;
        binary =
            map_err-eq-ok _
              (check_path fs tool.real_binary positional policy.global_settings.blocked_paths)
              checked;
        verb =
            take_verb-Accepted fs engine policy.global_settings.blocked_paths safe_re tool tool_name
              rule_id tool.verbs raw_args iter out refl taken;
        rule = refl;
      })

  -- Finishing keeps the answer of the loop.
  pub finish_with-ok :
      (p : Prepared) (o : Option (Result ValidationDenial (List ValidatedArg)))
      (r : ValidationResult)
      → finish_with fs engine policy tool_name p o ≡ some (ok r)
      → (out : List ValidatedArg) × (o ≡ some (ok out))
        × (assemble fs engine policy tool_name p out ≡ r)
  finish_with-ok p none r h = cc
  finish_with-ok p (some (err d)) r h = cc
  finish_with-ok p (some (ok out)) r h = (out, refl, cc)

  pub prepare-IsPrepared :
      (raw_args : List Text) (p : Prepared)
      → prepare fs engine policy tool_name raw_args ≡ ok p
      → IsPrepared p
  unfolding prepare
  prepare-IsPrepared raw_args p h =
      let (tool, listed, h') = >>=-eq-ok (ok_or (get tool_name policy.tools) _) _ h in
      prepare_tool-IsPrepared tool raw_args p (ok_or-eq-ok _ _ listed) h'

  run_prepared-IsGranted :
      (prepared : Result ValidationDenial Prepared) (raw_args : List Text) (r : ValidationResult)
      → prepare fs engine policy tool_name raw_args ≡ prepared
      → run_prepared fs engine policy tool_name prepared ≡ some (ok r)
      → IsGranted fs engine policy tool_name r
  unfolding run_args assemble
  run_prepared-IsGranted (err d) raw_args r e h = cc
  run_prepared-IsGranted (ok p) raw_args r e h =
      let prepared = prepare-IsPrepared raw_args p e in
      let (out, ran, same) = finish_with-ok p (run_args fs engine policy tool_name p) r h in
      rw (← same) (record {
        tool = p.tool;
        safe_re = p.safe_re;
        listed = prepared.listed;
        compiled = prepared.compiled;
        binary = prepared.binary;
        args =
            validate_args-Accepted fs engine policy.global_settings.blocked_paths p.safe_re p.tool
              tool_name p.rule_id (length p.iter) p.iter p.out out ran prepared.verb;
        rule = prepared.rule;
      })

-- What `validate_command` lets through, the policy grants: the tool is one that the policy lists,
-- the binary is the one that the policy names for it and passed `check_path`, the rule is the tool's,
-- and the arguments follow the tool's grammar (a listed verb first if the tool has verbs, then
-- flags of the tool and positional values, each value permitted by its parameter's lists and
-- expressions, each path resolved by `check_path`).
pub validate_command-IsGranted :
    (fs : FileSystem) (engine : RegexEngine) (policy : SecureSudoersPolicy) (tool_name : Text)
    (raw_args : List Text) (r : ValidationResult)
    → validate_command fs engine policy tool_name raw_args ≡ some (ok r)
    → IsGranted fs engine policy tool_name r
unfolding validate_command
validate_command-IsGranted fs engine policy tool_name raw_args r h =
    run_prepared-IsGranted fs engine policy tool_name (prepare fs engine policy tool_name raw_args)
      raw_args r refl h
