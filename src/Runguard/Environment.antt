-- ===== src/Runguard/Environment.antt =====
-- The environment of the guarded process: the first part of `set_restrictions` in
-- runguard/src/limits.cpp. A variable that stands twice has its first value.
use judge_system.Base.{
  ◌==◌, ◌≡◌, refl, ap, ◌∙◌, Bool, true, false, ◌||◌, List, [], ◌∷◌, Option, none, some,
  if◌then◌else◌, Bool-cases, inl, inr,
}
use judge_system.Runguard.Metadata.{
  Bytes, bytes_eq, bytes_eq→eq, assign, lookup, lookup-assign, last_value,
}

abbrev pub Environment : Type 0
Environment = List (Bytes × Bytes)

abbrev pub path_name : Bytes
path_name = b'P' ∷ b'A' ∷ b'T' ∷ b'H' ∷ []

abbrev pub home_name : Bytes
home_name = b'H' ∷ b'O' ∷ b'M' ∷ b'E' ∷ []

-- "/home/" + user
abbrev pub home_of : Bytes → Bytes
home_of user = b'/' ∷ b'h' ∷ b'o' ∷ b'm' ∷ b'e' ∷ b'/' ∷ user

-- `setenv`, which refuses an empty name.
abbrev pub setenv : Bytes → Bytes → Environment → Environment
setenv [] value env = env
setenv (c ∷ cs) value env = assign (c ∷ cs) value env

-- The text before the first '=', and the text behind it if there is one.
unfoldable pub split_equals : Bytes → Bytes × Option Bytes
split_equals [] = ([], none)
split_equals (c ∷ s) =
    let (name, value) = split_equals s in if c == b'=' then ([], some s) else (c ∷ name, value)

-- The name and the value of an entry: without '=', `substr(npos + 1)` is the whole entry again.
abbrev pub variable : Bytes → Bytes × Bytes
variable entry =
    ((split_equals entry).0, elim (split_equals entry).1 [ none ↦ entry | some value ↦ value ])

unfoldable pub set_all : List Bytes → Environment → Environment
unfolding assign split_equals
set_all [] env = env
set_all (entry ∷ rest) env = set_all rest (setenv (variable entry).0 (variable entry).1 env)

-- Only PATH, if it is set.
abbrev only_path : Option Bytes → Environment
only_path none = []
only_path (some path) = assign path_name path []

-- The environment without --environment.
abbrev pub cleared : Environment → Environment
cleared env = only_path (lookup path_name env)

unfoldable pub child_environment :
    (preserve : Bool) → List Bytes → Bytes → Environment → Environment
unfolding set_all assign lookup
child_environment preserve entries user env =
    setenv home_name (home_of user) (set_all entries (if preserve then env else cleared env))

abbrev kept : Bytes × Bytes → List (Bytes × Bytes) → List (Bytes × Bytes)
kept ([], value) rest = rest
kept (c ∷ cs, value) rest = (c ∷ cs, value) ∷ rest

-- The variables that the entries set, with their values.
abbrev pub variables : List Bytes → List (Bytes × Bytes)
variables [] = []
variables (entry ∷ rest) = kept (variable entry) (variables rest)

setenv_lem :
    (name : Bytes) (v : Bytes × Bytes) (env : Environment) (rest : List (Bytes × Bytes))
    → last_value name rest (lookup name (setenv v.0 v.1 env))
      ≡ last_value name (kept v rest) (lookup name env)
setenv_lem name ([], value) env rest = refl
setenv_lem name (c ∷ cs, value) env rest =
    ap (last_value name rest) (lookup-assign name (c ∷ cs) value env)

set_all_lem :
    (entries : List Bytes) (env : Environment) (name : Bytes)
    → lookup name (set_all entries env) ≡ last_value name (variables entries) (lookup name env)
unfolding set_all
set_all_lem [] env name = refl
set_all_lem (entry ∷ rest) env name =
    set_all_lem rest (setenv (variable entry).0 (variable entry).1 env) name
    ∙ setenv_lem name (variable entry) env (variables rest)

only_path_lem :
    (path : Option Bytes) (name : Bytes)
    → lookup name (only_path path) ≡ (if bytes_eq path_name name then path else none)
unfolding lookup
only_path_lem none name = elim (Bool-cases (bytes_eq path_name name)) [
  | inl e ↦ rw e refl
  | inr e ↦ rw e refl
]
only_path_lem (some path) name = lookup-assign name path_name path []

cleared_lem :
    (env : Environment) (name : Bytes)
    → lookup name (cleared env) ≡ (if bytes_eq path_name name then lookup name env else none)
cleared_lem env name = elim (Bool-cases (bytes_eq path_name name)) [
  | inl e ↦
      only_path_lem (lookup path_name env) name
      ∙ rw e (ap (λ n. lookup n env) (bytes_eq→eq path_name name e))
  | inr e ↦ only_path_lem (lookup path_name env) name ∙ rw e refl
]

-- Whatever the entries of --variable are, the command has "/home/" and its user for HOME. Any other
-- variable has the value of its last entry; without an entry it has, with --environment, the value that
-- it has for runguard, and else only PATH has that and all others are not set.
pub child_environment_lem :
    (preserve : Bool) (entries : List Bytes) (user : Bytes) (env : Environment) (name : Bytes)
    → lookup name (child_environment preserve entries user env) ≡ (
        if bytes_eq home_name name
        then some (home_of user)
        else last_value name
            (variables entries)
            (if preserve || bytes_eq path_name name then lookup name env else none))
unfolding child_environment
child_environment_lem preserve entries user env name =
    lookup-assign name home_name (home_of user)
      (set_all entries (if preserve then env else cleared env))
    ∙ ap (λ v. if bytes_eq home_name name then some (home_of user) else v)
        (set_all_lem entries (if preserve then env else cleared env) name
          ∙ ap (last_value name (variables entries)) (before preserve))
  where
    before :
        (b : Bool)
        → lookup name (if b then env else cleared env)
          ≡ (if b || bytes_eq path_name name then lookup name env else none)
    before true = refl
    before false = cleared_lem env name
