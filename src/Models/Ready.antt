-- ===== src/Models/Ready.antt =====
-- What a validated policy has that a parsed one may lack.
use secure_sudoers_setup.Base.{
  Bool, true, false, List, [], ◌∷◌, Option, none, some, Result, ok, err, ◌≡◌, inl, inr, refl, All,
  Bool-cases, sym, >>=-eq-ok,
}
use secure_sudoers_setup.Text.{Text, lit, starts_with_char}
use secure_sudoers_setup.Map.{Map}
use secure_sudoers_setup.Error.{Error, IoError}
use secure_sudoers_setup.Regex.{Regex, RegexEngine, regex_new}
use secure_sudoers_setup.Models.{ParameterConfig, ToolPolicy, is_path}
use secure_sudoers_setup.Models.Validate.{
  PathInfo, guard, is_valid_tool_name, canonicalize_path_list_config_entries,
  compile_parameter_regex, compile_pattern, validate_config, validate_parameters,
  validate_positional, validate_tool, validate_tools, canonicalize_blocked, canonicalize_list,
  canonical_or, is_not_found,
}

pub guard-eq-ok : (b : Bool) (e : Error) → guard b e ≡ ok tt → b ≡ true
guard-eq-ok true e h = refl
guard-eq-ok false e h = cc

module _ (engine : RegexEngine) where
  -- The compiled expression is that of the pattern.
  abbrev pub Compiles : Option Text → Option Regex → Type 0
  Compiles none compiled = compiled ≡ none
  Compiles (some p) compiled =
      (engine.compiles p ≡ true) × (compiled ≡ some (record { pattern = p }))

  abbrev pub IsCompiled : ParameterConfig → Type 0
  IsCompiled c = Compiles c.regex c.compiled_regex

  compile_pattern-Compiles :
      (info : PathInfo) (tool label : Text) (pattern : Option Text) (compiled : Option Regex)
      → compile_pattern engine info tool label pattern ≡ ok compiled
      → Compiles pattern compiled
  unfolding regex_new
  compile_pattern-Compiles info tool label none compiled h = cc
  compile_pattern-Compiles info tool label (some p) compiled h =
      elim (Bool-cases (engine.compiles p)) [
        | inl e ↦
            let h' = rw (e, compile_pattern) at h in
            let same : some (record { pattern = p }) ≡ compiled = cc in (e, sym same)
        | inr e ↦ let h' = rw (e, compile_pattern) at h in cc
      ]

  compile-IsCompiled :
      (info : PathInfo) (tool label : Text) (c c' : ParameterConfig)
      → compile_parameter_regex engine info tool label c ≡ ok c'
      → IsCompiled c'
  unfolding compile_parameter_regex
  compile-IsCompiled info tool label c c' h =
      let (compiled, made, h') = >>=-eq-ok (compile_pattern engine info tool label c.regex) _ h in
      let same : record c { compiled_regex = compiled } ≡ c' = cc in
      rw (← same) (compile_pattern-Compiles info tool label c.regex compiled made)

  canonicalize-IsCompiled :
      (info : PathInfo) (tool label : Text) (c c' : ParameterConfig)
      → canonicalize_path_list_config_entries engine info tool label c ≡ ok c'
      → IsCompiled c
      → IsCompiled c'
  unfolding canonicalize_path_list_config_entries
  canonicalize-IsCompiled info tool label c c' h compiled =
      elim (Bool-cases (is_path c.param_type)) [
        | inr plain ↦ let h' = rw plain at h in let same : c ≡ c' = cc in rw (← same) compiled
        | inl path ↦
            let (allowed, a, h1) =
              >>=-eq-ok (canonicalize_list engine info (lit "allowed") tool label c.allowed) _
                (rw path at h) in
            let (disallowed, d, h2) =
              >>=-eq-ok (canonicalize_list engine info (lit "disallowed") tool label c.disallowed) _
                h1 in
            let same : record c { allowed = allowed; disallowed = disallowed } ≡ c' = cc in
            rw (← same) compiled
      ]

  validate_config-IsCompiled :
      (info : PathInfo) (tool label : Text) (c c' : ParameterConfig)
      → validate_config engine info tool label c ≡ ok c'
      → IsCompiled c'
  unfolding validate_config
  validate_config-IsCompiled info tool label c c' h =
      let (compiled, made, h') = >>=-eq-ok (compile_parameter_regex engine info tool label c) _ h in
      canonicalize-IsCompiled info tool label compiled c' h'
        (compile-IsCompiled info tool label c compiled made)

  validate_parameters-IsCompiled :
      (info : PathInfo) (tool : Text) (parameters parameters' : Map ParameterConfig)
      → validate_parameters engine info tool parameters ≡ ok parameters'
      → All (λ (e : Text × ParameterConfig). IsCompiled e.1) parameters'
  unfolding validate_parameters
  validate_parameters-IsCompiled info tool [] parameters' h =
      let same : [] ≡ parameters' = cc in rw (← same) tt
  validate_parameters-IsCompiled info tool ((flag, c) ∷ parameters) parameters' h =
      let (c', made, h1) = >>=-eq-ok (validate_config engine info tool _ c) _ h in
      let (rest, others, h2) = >>=-eq-ok (validate_parameters engine info tool parameters) _ h1 in
      let same : (flag, c') ∷ rest ≡ parameters' = cc in
      rw (← same) (
        validate_config-IsCompiled info tool _ c c' made,
        validate_parameters-IsCompiled info tool parameters rest others,
      )

  validate_positional-IsCompiled :
      (info : PathInfo) (tool : Text) (o o' : Option ParameterConfig)
      → validate_positional engine info tool o ≡ ok o'
      → (c : ParameterConfig) → o' ≡ some c
      → IsCompiled c
  validate_positional-IsCompiled info tool none o' h c e = cc
  validate_positional-IsCompiled info tool (some c0) o' h c e =
      let (c', made, h') =
        >>=-eq-ok (validate_config engine info tool (lit "positional config") c0) _ h in
      let same : c' ≡ c = cc in rw (← same) (validate_config-IsCompiled info tool _ c0 c' made)

  pub record IsReadyTool (info : PathInfo) (name : Text) (tool : ToolPolicy) : Type 0 where
    pub named : is_valid_tool_name engine info name ≡ true
    pub absolute : starts_with_char tool.real_binary b'/' ≡ true
    pub parameters : All (λ (e : Text × ParameterConfig). IsCompiled e.1) tool.parameters
    pub positional : (c : ParameterConfig) → tool.positional ≡ some c → IsCompiled c

  validate_tool-IsReadyTool :
      (info : PathInfo) (name : Text) (tool tool' : ToolPolicy)
      → validate_tool engine info name tool ≡ ok tool'
      → IsReadyTool info name tool'
  unfolding validate_tool
  validate_tool-IsReadyTool info name tool tool' h =
      let (_, named, h1) = >>=-eq-ok (guard (is_valid_tool_name engine info name) _) _ h in
      let (_, absolute, h2) = >>=-eq-ok (guard (starts_with_char tool.real_binary b'/') _) _ h1 in
      let (parameters, made, h3) =
        >>=-eq-ok (validate_parameters engine info name tool.parameters) _ h2 in
      let (positional, placed, h4) =
        >>=-eq-ok (validate_positional engine info name tool.positional) _ h3 in
      let same : record tool { parameters = parameters; positional = positional } ≡ tool' = cc in
      rw (← same) (record {
        named = guard-eq-ok _ _ named;
        absolute = guard-eq-ok _ _ absolute;
        parameters = validate_parameters-IsCompiled info name tool.parameters parameters made;
        positional = validate_positional-IsCompiled info name tool.positional positional placed;
      })

  pub validate_tools-IsReadyTool :
      (info : PathInfo) (tools tools' : Map ToolPolicy)
      → validate_tools engine info tools ≡ ok tools'
      → All (λ (e : Text × ToolPolicy). IsReadyTool info e.0 e.1) tools'
  unfolding validate_tools
  validate_tools-IsReadyTool info [] tools' h = let same : [] ≡ tools' = cc in rw (← same) tt
  validate_tools-IsReadyTool info ((name, tool) ∷ tools) tools' h =
      let (tool', made, h1) = >>=-eq-ok (validate_tool engine info name tool) _ h in
      let (rest, others, h2) = >>=-eq-ok (validate_tools engine info tools) _ h1 in
      let same : (name, tool') ∷ rest ≡ tools' = cc in
      rw (← same) (
        validate_tool-IsReadyTool info name tool tool' made,
        validate_tools-IsReadyTool info tools rest others,
      )

  -- An entry of the blocked paths and what is kept for it.
  pub data Canonical (info : PathInfo) (path : Text) : Text → Type 0 where
    resolved : (path' : Text) → info.canonicalize path ≡ ok path' → Canonical info path path'
    missing :
        (e : IoError)
        → info.canonicalize path ≡ err e
        → is_not_found e.kind ≡ true
        → Canonical info path path

  -- The two lists agree place by place.
  pub data AllCanonical (info : PathInfo) : List Text → List Text → Type 0 where
    nil : AllCanonical info [] []
    cons :
        {path path' : Text} {paths paths' : List Text}
        → starts_with_char path b'/' ≡ true
        → Canonical info path path'
        → AllCanonical info paths paths'
        → AllCanonical info (path ∷ paths) (path' ∷ paths')

  canonical_or-Canonical :
      (info : PathInfo) (path failure path' : Text) (r : Result IoError Text)
      → info.canonicalize path ≡ r
      → canonical_or path failure r ≡ ok path'
      → Canonical info path path'
  canonical_or-Canonical info path failure path' (ok q) e h =
      let same : q ≡ path' = cc in rw (← same) (resolved q e)
  canonical_or-Canonical info path failure path' (err io) e h =
      elim (Bool-cases (is_not_found io.kind)) [
        | inl gone ↦
            let h' = rw gone at h in let same : path ≡ path' = cc in rw (← same) (missing io e gone)
        | inr other ↦ let h' = rw other at h in cc
      ]

  pub canonicalize_blocked-AllCanonical :
      (info : PathInfo) (paths paths' : List Text)
      → canonicalize_blocked engine info paths ≡ ok paths'
      → AllCanonical info paths paths'
  unfolding canonicalize_blocked
  canonicalize_blocked-AllCanonical info [] paths' h =
      let same : [] ≡ paths' = cc in rw (← same) nil
  canonicalize_blocked-AllCanonical info (path ∷ paths) paths' h =
      let (_, absolute, h1) = >>=-eq-ok (guard (starts_with_char path b'/') _) _ h in
      let (path', made, h2) = >>=-eq-ok (canonical_or path _ (info.canonicalize path)) _ h1 in
      let (rest, others, h3) = >>=-eq-ok (canonicalize_blocked engine info paths) _ h2 in
      let same : path' ∷ rest ≡ paths' = cc in
      rw (← same) (
        cons (guard-eq-ok _ _ absolute) (canonical_or-Canonical info path _ path' _ refl made)
          (canonicalize_blocked-AllCanonical info paths rest others))
