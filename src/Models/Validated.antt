-- ===== src/Models/Validated.antt =====
-- What the rest of the program may rely on in a validated policy.
use secure_sudoers_setup.Base.{
  true, List, [], ◌∷◌, Option, none, some, ok, ◌≡◌, ◌⊎◌, ◌↔◌, inl, inr, refl, All, In, here, there,
  >>=-eq-ok,
}
use secure_sudoers_setup.Text.{Text}
use secure_sudoers_setup.Map.{get, In-get}
use secure_sudoers_setup.Regex.{Regex, RegexEngine}
use secure_sudoers_setup.Models.{ParameterConfig, ToolPolicy, SecureSudoersPolicy, matches}
use secure_sudoers_setup.Models.Parameter.{Listed, Permits, RegexAccepts, matches_iff}
use secure_sudoers_setup.Models.Validate.{
  PathInfo, guard, canonicalize_blocked, validate_tools, validate,
}
use secure_sudoers_setup.Models.Ready.{
  guard-eq-ok, IsCompiled, Compiles, IsReadyTool, validate_tools-IsReadyTool, AllCanonical,
  canonicalize_blocked-AllCanonical,
}

All-In : {A : Type 0} (P : A → Type 0) (xs : List A) (x : A) → All P xs → In x xs → P x
All-In P [] x h m = elim m [ ]
All-In P (y ∷ ys) x h here = h.0
All-In P (y ∷ ys) x h (there m) = All-In P ys x h.1 m

module _ (engine : RegexEngine) (info : PathInfo) where
  -- What `validate` settles of a policy, beside what it was given.
  pub record IsReady (given policy : SecureSudoersPolicy) : Type 0 where
    pub safe : engine.compiles policy.global_settings.safe_arg_regex ≡ true
    pub blocked :
        AllCanonical engine info given.global_settings.blocked_paths
          policy.global_settings.blocked_paths
    pub tools : All (λ (e : Text × ToolPolicy). IsReadyTool engine info e.0 e.1) policy.tools

  -- A policy that passes validation has a compiled safe pattern, blocked paths that are the canonical
  -- forms of the given absolute ones (or are kept where no file exists), and tools with valid names,
  -- absolute binaries, and exactly the compiled form of the pattern in each parameter.
  pub validate-IsReady :
      (given policy : SecureSudoersPolicy)
      → validate engine info given ≡ ok policy
      → IsReady given policy
  unfolding validate
  validate-IsReady given policy h =
      let (_, safe, h1) =
        >>=-eq-ok (guard (engine.compiles given.global_settings.safe_arg_regex) _) _ h in
      let (blocked, kept, h2) =
        >>=-eq-ok (canonicalize_blocked engine info given.global_settings.blocked_paths) _ h1 in
      let (tools, made, h3) = >>=-eq-ok (validate_tools engine info given.tools) _ h2 in
      let same : record given {
        global_settings = record given.global_settings { blocked_paths = blocked };
        tools = tools;
      }
          ≡ policy =
        cc in
      rw (← same) (record {
        safe = guard-eq-ok _ _ safe;
        blocked = canonicalize_blocked-AllCanonical engine info _ blocked kept;
        tools = validate_tools-IsReadyTool engine info given.tools tools made;
      })

  -- A parameter of a tool is permitted by its list or its pattern; no compiled form is mentioned.
  abbrev pub PatternPermits : ParameterConfig → Text → Type 0
  PatternPermits c val =
      ((c.allowed ≡ none) × (c.regex ≡ none))
      ⊎ (Listed c.allowed val
          ⊎ ((p : Text) × (c.regex ≡ some p)
              × (engine.is_match (record { pattern = p }) val ≡ true)))

  accepts-pattern :
      (pattern : Option Text) (compiled : Option Regex) (val : Text)
      → Compiles engine pattern compiled
      → RegexAccepts engine pattern compiled val
        ↔ ((p : Text) × (pattern ≡ some p) × (engine.is_match (record { pattern = p }) val ≡ true))
  accepts-pattern none compiled val h = (λ (p, re, e, f, m). cc, λ (p, e, m). cc)
  accepts-pattern (some q) compiled val h = (
    λ (p, re, e, f, m). let same : record { pattern = q } ≡ re = cc in (q, refl, rw same m),
    λ (p, e, m). let same : q ≡ p = cc in (q, record { pattern = q }, refl, h.1, rw same m),
  )

  Permits-pattern :
      (c : ParameterConfig) (val : Text)
      → IsCompiled engine c
      → Permits engine c val ↔ PatternPermits c val
  Permits-pattern c val h = (
    λ p. elim p [
      | inl free ↦ inl free
      | inr (inl l) ↦ inr (inl l)
      | inr (inr r) ↦ inr (inr ((accepts-pattern c.regex c.compiled_regex val h).0 r))
    ],
    λ p. elim p [
      | inl free ↦ inl free
      | inr (inl l) ↦ inr (inl l)
      | inr (inr r) ↦ inr (inr ((accepts-pattern c.regex c.compiled_regex val h).1 r))
    ],
  )

  -- After validation, a declared parameter of a listed tool accepts exactly the values that are not
  -- disallowed and are unrestricted, listed, or matched by the pattern written in the policy: no
  -- parameter is checked against a missing or stale compiled form.
  pub validated_matches_iff :
      (given policy : SecureSudoersPolicy) (tool_name flag : Text) (tool : ToolPolicy)
      (c : ParameterConfig) (val : Text)
      → validate engine info given ≡ ok policy
      → get tool_name policy.tools ≡ some tool
      → get flag tool.parameters ≡ some c
      → (matches engine c val ≡ true) ↔ ((¬ Listed c.disallowed val) × PatternPermits c val)
  validated_matches_iff given policy tool_name flag tool c val h listed declared =
      let ready = validate-IsReady given policy h in
      let ready_tool =
        All-In (λ (e : Text × ToolPolicy). IsReadyTool engine info e.0 e.1) policy.tools
          (tool_name, tool) ready.tools (In-get tool_name policy.tools tool listed) in
      let compiled =
        All-In (λ (e : Text × ParameterConfig). IsCompiled engine e.1) tool.parameters (flag, c)
          ready_tool.parameters (In-get flag tool.parameters c declared) in
      (
        λ m.
            let (allowed, permitted) = (matches_iff engine c val).0 m in
            (allowed, (Permits-pattern c val compiled).0 permitted),
        λ (allowed, permitted).
            (matches_iff engine c val).1 (allowed, (Permits-pattern c val compiled).1 permitted),
      )
