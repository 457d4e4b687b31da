-- ===== src/Exec/Strings.antt =====
-- About `build_argv` and the environment in `execute_securely` (exec.rs): texts without NUL bytes.
use secure_sudoers_setup.Base.{
  ℕ, ◌+◌, List, [], ◌∷◌, map, Option, none, some, Result, ok, err, ◌≡◌, refl, All,
}
use secure_sudoers_setup.Text.{Text, lit}
use secure_sudoers_setup.Error.{Error}
use secure_sudoers_setup.Validator.Types.{ValidatedArg, ValidatedCommand, as_str}
use secure_sudoers_setup.Exec.{
  nul_position, without_nul, c_string, push, as_pair, env_pair, bad_arg, bad_env, c_args, c_env,
  binary_name, build_argv,
}

-- No NUL byte.
abbrev pub IsCString : Text → Type 0
IsCString t = nul_position 0 t ≡ none

without_nul-ok : (context t u : Text) → c_string context t ≡ ok u → (u ≡ t) × IsCString t
without_nul-ok context t u e = found (nul_position 0 t) refl e
  where
    found :
        (o : Option ℕ)
        → nul_position 0 t ≡ o
        → without_nul context t o ≡ ok u
        → (u ≡ t) × IsCString t
    found none f e = (cc, f)
    found (some at) f e = cc

push-ok :
    {A : Type 0} (first : Result Error A) (rest : Result Error (List A)) (xs : List A)
    → push first rest ≡ ok xs
    → (a : A) × (ys : List A) × (first ≡ ok a) × (rest ≡ ok ys) × (xs ≡ a ∷ ys)
push-ok (err x) rest xs e = cc
push-ok (ok a) (err x) xs e = cc
push-ok (ok a) (ok ys) xs e = (a, ys, refl, refl, cc)

c_args-ok :
    (n : ℕ) (args : List ValidatedArg) (ts : List Text)
    → c_args n args ≡ ok ts
    → (ts ≡ map as_str args) × All IsCString ts
unfolding c_args
c_args-ok n [] ts e = split (cc)
  where
    split : ts ≡ [] → (ts ≡ []) × All IsCString ts
    split f = (f, rw f tt)
c_args-ok n (arg ∷ args) ts e =
    behind (push-ok (c_string (bad_arg n) (as_str arg)) (c_args (n + 1) args) ts e)
      (c_args-ok (n + 1) args)
  where
    behind :
        (a : Text) × (ys : List Text) × (c_string (bad_arg n) (as_str arg) ≡ ok a)
          × (c_args (n + 1) args ≡ ok ys)
          × (ts ≡ a ∷ ys)
        → ((ys : List Text)
            → c_args (n + 1) args ≡ ok ys
            → (ys ≡ map as_str args) × All IsCString ys)
        → (ts ≡ as_str arg ∷ map as_str args) × All IsCString ts
    behind (a, ys, f, g, h) later = both (without_nul-ok (bad_arg n) (as_str arg) a f) (later ys g)
      where
        both :
            (a ≡ as_str arg) × IsCString (as_str arg)
            → (ys ≡ map as_str args) × All IsCString ys
            → (ts ≡ as_str arg ∷ map as_str args) × All IsCString ts
        both (p, q) (r, s) = (cc, rw (h, p) (q, s))

pub c_env-ok :
    (env result : List (Text × Text))
    → c_env env ≡ ok result
    → (result ≡ env) × All (λ (e : Text × Text). IsCString (env_pair e)) result
unfolding c_env
c_env-ok [] result e = split (cc)
  where
    split : result ≡ [] → (result ≡ []) × All (λ (e : Text × Text). IsCString (env_pair e)) result
    split f = (f, rw f tt)
c_env-ok (x ∷ env) result e =
    behind (push-ok (as_pair x (c_string (bad_env x) (env_pair x))) (c_env env) result e)
      (c_env-ok env)
  where
    paired :
        (r : Result Error Text) (a : Text × Text)
        → c_string (bad_env x) (env_pair x) ≡ r
        → as_pair x r ≡ ok a
        → (a ≡ x) × IsCString (env_pair x)
    paired (ok t) a f g = (cc, (without_nul-ok (bad_env x) (env_pair x) t f).1)
    paired (err failure) a f g = cc

    behind :
        (a : Text × Text) × (ys : List (Text × Text)) × (as_pair x
              (c_string (bad_env x) (env_pair x))
            ≡ ok a)
          × (c_env env ≡ ok ys)
          × (result ≡ a ∷ ys)
        → ((ys : List (Text × Text))
            → c_env env ≡ ok ys
            → (ys ≡ env) × All (λ (e : Text × Text). IsCString (env_pair e)) ys)
        → (result ≡ x ∷ env) × All (λ (e : Text × Text). IsCString (env_pair e)) result
    behind (a, ys, f, g, h) later =
        both (paired (c_string (bad_env x) (env_pair x)) a refl f) (later ys g)
      where
        both :
            (a ≡ x) × IsCString (env_pair x)
            → (ys ≡ env) × All (λ (e : Text × Text). IsCString (env_pair e)) ys
            → (result ≡ x ∷ env) × All (λ (e : Text × Text). IsCString (env_pair e)) result
        both (p, q) (r, s) = (cc, rw (h, p) (q, s))

pub build_argv-ok :
    (cmd : ValidatedCommand) (ts : List Text)
    → build_argv cmd ≡ ok ts
    → (ts ≡ binary_name cmd.binary ∷ map as_str cmd.args) × All IsCString ts
unfolding build_argv
build_argv-ok cmd ts e = behind (
    push-ok (c_string (lit "Binary name contains NUL byte") (binary_name cmd.binary))
      (c_args 0 cmd.args) ts e)
  where
    behind :
        (a : Text) × (ys : List Text) × (c_string
              (lit "Binary name contains NUL byte")
              (binary_name cmd.binary)
            ≡ ok a)
          × (c_args 0 cmd.args ≡ ok ys)
          × (ts ≡ a ∷ ys)
        → (ts ≡ binary_name cmd.binary ∷ map as_str cmd.args) × All IsCString ts
    behind (a, ys, f, g, h) =
        both (without_nul-ok _ (binary_name cmd.binary) a f) (c_args-ok 0 cmd.args ys g)
      where
        both :
            (a ≡ binary_name cmd.binary) × IsCString (binary_name cmd.binary)
            → (ys ≡ map as_str cmd.args) × All IsCString ys
            → (ts ≡ binary_name cmd.binary ∷ map as_str cmd.args) × All IsCString ts
        both (p, q) (r, s) = (cc, rw (h, p) (q, s))
