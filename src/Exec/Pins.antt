-- ===== src/Exec/Pins.antt =====
-- `crates/secure-sudoers/src/exec.rs`: pinning the validated paths and the directories above them.
use secure_sudoers_setup.Base.{
  ℕ, zero, suc, Bool, true, false, List, [], ◌∷◌, ◌++◌, Option, none, some, Result, ok, err,
  if◌then◌else◌, length,
}
use secure_sudoers_setup.Text.{Text, lit, text_eq, contains}
use secure_sudoers_setup.Error.{Error, validation}
use secure_sudoers_setup.Path.{
  Component, root_dir, components, last_component, all_but_last, push_all,
}
use secure_sudoers_setup.Fs.{Fd, SecurePath}
use secure_sudoers_setup.Models.Validate.{concat}
use secure_sudoers_setup.Validator.Types.{ValidatedArg, ValidatedCommand, secure_path}
use secure_sudoers_setup.Steps.{Step, ◌>>=◌, ◌>>◌, pure, answer}
use secure_sudoers_setup.Calls.{Machine, History}
use secure_sudoers_setup.Isolation.Mounts.{pin_validated_path_parent, pin_path_at_fd}

-- A path as text.
abbrev pub path_text : List Component → Text
path_text cs = push_all [] cs

abbrev no_parent : List Component → Error
no_parent cs =
    validation (concat (lit "Path '" ∷ path_text cs ∷ lit "' has no parent for pinning" ∷ []))

abbrev parent_of_last : List Component → Option Component → Result Error (List Component)
parent_of_last cs none = err (no_parent cs)
parent_of_last cs (some root_dir) = err (no_parent cs)
parent_of_last cs (some c) = ok (all_but_last cs)

-- `canonical_parent_path` of isolation.rs, on the components of a path.
unfoldable pub canonical_parent_path : List Component → Result Error (List Component)
canonical_parent_path cs = parent_of_last cs (last_component cs)

abbrev pub is_root : List Component → Bool
is_root (root_dir ∷ []) = true
is_root _ = false

abbrev link_parent :
    Result Error (List Component)
    → (List Component → Result Error (List Text))
    → Result Error (List Text)
link_parent (err e) more = err e
link_parent (ok parent) more = more parent

abbrev pub put_last : Text → Result Error (List Text) → Result Error (List Text)
put_last t (err e) = err e
put_last t (ok ts) = ok (ts ++ t ∷ [])

-- The directories above a path but the root, the upper ones first. Each round drops a component, so
-- as many rounds as there are components are enough.
unfoldable pub parent_chain : ℕ → List Component → Result Error (List Text)
unfolding canonical_parent_path
parent_chain zero cs = err (no_parent cs)
parent_chain (suc fuel) cs = link_parent (canonical_parent_path cs) λ parent.
    let above = put_last (path_text parent) (parent_chain fuel parent) in
    if is_root parent then ok [] else above

-- The paths that are pinned: whole ones, and parents.
pub record Seen : Type 0 where
  pub paths : List Text
  pub parents : List Text

abbrev pub chain_of : Text → Result Error (List Text)
chain_of path =
    if text_eq path (lit "/")
    then ok []
    else parent_chain (length (components path)) (components path)

-- The functions that pin are arguments, as in the source.
module _ {S : Type 0} (pin_parent : Text → Step S Error (Unit {0}))
    (pin_arg : Fd → Text → Step S Error (Unit {0})) where
  unfoldable pub pin_parents : List Text → List Text → Step S Error (List Text)
  pin_parents [] seen = pure seen
  pin_parents (path ∷ paths) seen =
      let later = pin_parents paths seen in
      let fresh = pin_parent path >> pin_parents paths (path ∷ seen) in
      if contains seen path then later else fresh

  unfoldable pub pin_parent_chain_for_path : Text → List Text → Step S Error (List Text)
  pin_parent_chain_for_path path seen = answer (chain_of path) >>= (λ chain. pin_parents chain seen)

  abbrev pub pin_fresh : SecurePath → Seen → Step S Error Seen
  pin_fresh p seen = do
    parents ← pin_parent_chain_for_path p.path seen.parents
    pin_arg p.fd p.path
    pure (record { paths = p.path ∷ seen.paths; parents = parents })

  abbrev pub pin_path : Option SecurePath → Seen → Step S Error Seen
  pin_path none seen = pure seen
  pin_path (some p) seen = if contains seen.paths p.path then pure seen else pin_fresh p seen

  unfoldable pub pin_args : List ValidatedArg → Seen → Step S Error Seen
  unfolding pin_parent_chain_for_path
  pin_args [] seen = pure seen
  pin_args (arg ∷ args) seen = pin_path (secure_path arg) seen >>= (λ next. pin_args args next)

  -- Nothing is seen before the binary, so the test on it always succeeds.
  unfoldable pub pin_validated_path_arguments_with : ValidatedCommand → Step S Error (Unit {0})
  unfolding pin_args pin_parent_chain_for_path
  pin_validated_path_arguments_with cmd =
      pin_fresh cmd.binary (record { paths = []; parents = [] })
      >>= (λ seen. pin_args cmd.args seen >>= (λ last. pure tt))

module _ (m : Machine) where
  abbrev pub pin_validated_path_arguments : ValidatedCommand → Step History Error (Unit {0})
  pin_validated_path_arguments cmd =
      pin_validated_path_arguments_with (pin_validated_path_parent m) (pin_path_at_fd m) cmd
