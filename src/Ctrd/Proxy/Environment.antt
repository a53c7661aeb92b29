-- ===== src/Ctrd/Proxy/Environment.antt =====
-- ctrd/image_proxy_util.go: an environment variable that is read once.
use d2p_migrator.Prelude.{
  Bool, true, false, not, List, [], ◌∷◌, none, some, Str, str, ◌==◌, if◌then◌else◌, ◌≡◌, arith,
}
use d2p_migrator.Ctrd.Reference.{cut}

-- `envOnce`: whether `once` has run, and `val`.
pub record EnvOnce : Type 0 where
  pub names : List Str
  pub ran : Bool
  pub val : Str

abbrev pub no_proxy_env : EnvOnce
no_proxy_env = record { names = str "NO_PROXY" ∷ str "no_proxy" ∷ []; ran = false; val = [] }

-- `os.Getenv(name)`: the first entry `name=value` of the environment, or the empty string.
unfoldable pub getenv : Str → List Str → Str
unfolding cut
getenv name [] = []
getenv name (entry ∷ entries) =
    let rest = getenv name entries in
    elim (cut b'=' entry) [ none ↦ rest | some (key, value) ↦ if key == name then value else rest ]

-- The loop of `init`: the value of the first name that has one.
unfoldable pub first_value : List Str → List Str → Str
unfolding getenv
first_value environ [] = []
first_value environ (n ∷ names) =
    let rest = first_value environ names in
    if not (getenv n environ == []) then getenv n environ else rest

-- `envOnce.Get`
unfoldable pub get_env_once : List Str → EnvOnce → Str × EnvOnce
unfolding first_value
get_env_once environ e =
    let val' = first_value environ e.names in
    if e.ran then (e.val, e) else (val', record e { ran = true; val = val' })

-- The environment is read once: a later `Get`, whatever the environment then is, returns what the first one
-- returned, and changes nothing.
pub get_env_once-kept :
    (environ later : List Str) (e : EnvOnce)
    → get_env_once later ((get_env_once environ e).1) ≡ get_env_once environ e
unfolding get_env_once
get_env_once-kept environ later e = ground arith
