-- ===== src/Convertor/Config/Env.antt =====
-- pouch/convertor/core.go: what `parseEnv` reads from the environment.
use d2p_migrator.Prelude.{
  ℕ, true, List, [], ◌∷◌, ◌++◌, ◌≡◌, sym, ap, ◌∙◌, refl, Str, ◌==◌, member, join-split, split, join,
  if◌then◌else◌, arith, ◌⊎◌, inl, inr, Option, none, some,
}
use d2p_migrator.Prelude.Dict.{Dict, lookup, lookup-insert}
use d2p_migrator.Prelude.Result.{ok}
use d2p_migrator.Convertor.Config.{add_env, parse_env_loop, parse_env}

-- The value of the last entry `k=v` of the environment in which the equals sign stands once.
abbrev entry : Str → Option Str → List Str → Option Str
entry k old (name ∷ value ∷ []) = if name == k then some value else old
entry k old _ = old

abbrev pub last_entry : Str → Option Str → List Str → Option Str
last_entry k old [] = old
last_entry k old (e ∷ env) = last_entry k (entry k old (split b'=' e)) env

lookup-add_env :
    (k : Str) (parts : List Str) (result : Dict Str)
    → lookup k (add_env parts result) ≡ entry k (lookup k result) parts
unfolding add_env
lookup-add_env k [] result = refl
lookup-add_env k (a ∷ []) result = refl
lookup-add_env k (a ∷ b ∷ []) result = lookup-insert a k b result
lookup-add_env k (a ∷ b ∷ c ∷ parts) result = refl

lookup-parse_env_loop :
    (k : Str) (env : List Str) (result : Dict Str)
    → lookup k (parse_env_loop env result) ≡ last_entry k (lookup k result) env
unfolding parse_env_loop
lookup-parse_env_loop k [] result = refl
lookup-parse_env_loop k (e ∷ env) result =
    rw (lookup-parse_env_loop k env (add_env (split b'=' e) result), lookup-add_env) refl

-- The two parts of an entry, with the equals sign between them, are the entry.
entry_sound :
    (k v : Str) (old : Option Str) (sep : ℕ) (parts : List Str)
    → entry k old parts ≡ some v
    → (join (sep ∷ []) parts ≡ k ++ sep ∷ v) ⊎ (old ≡ some v)
unfolding join
entry_sound k v old sep [] h = inr h
entry_sound k v old sep (a ∷ []) h = inr h
entry_sound k v old sep (a ∷ b ∷ []) h = ground arith
entry_sound k v old sep (a ∷ b ∷ c ∷ parts) h = inr h

last_entry_sound :
    (k v : Str) (env : List Str) (old : Option Str)
    → last_entry k old env ≡ some v
    → (member (k ++ b'=' ∷ v) env ≡ true) ⊎ (old ≡ some v)
last_entry_sound k v [] old h = inr h
last_entry_sound k v (e ∷ env) old h =
    elim (last_entry_sound k v env (entry k old (split b'=' e)) h) [
      | inl there ↦ inl (ground (arith, there))
      | inr here ↦ elim (entry_sound k v old b'=' (split b'=' e) here) [
        | inl same ↦ inl (ground (arith, same, join-split b'=' e))
        | inr before ↦ inr before
      ]
    ]

-- `parseEnv` always gives a map, which holds for each name the value of the last entry of the
-- environment that has this name and a single equals sign, and no value where there is none.
pub lookup-parse_env :
    (env : List Str) (k : Str)
    → (envs : Dict Str) × (parse_env env ≡ ok envs) × (lookup k envs ≡ last_entry k none env)
unfolding parse_env lookup
lookup-parse_env env k = (parse_env_loop env [], refl, lookup-parse_env_loop k env [])

-- A value that `parseEnv` gives for a name stands in the environment, as that name, an equals sign
-- and the value.
pub parse_env-member :
    (env : List Str) (envs : Dict Str) (k v : Str)
    → parse_env env ≡ ok envs
    → lookup k envs ≡ some v
    → member (k ++ b'=' ∷ v) env ≡ true
unfolding parse_env lookup
parse_env-member env envs k v parsed found =
    let same : parse_env_loop env [] ≡ envs = cc in
    let last : last_entry k none env ≡ some v =
      sym (lookup-parse_env_loop k env []) ∙ ap (lookup k) same ∙ found in
    elim (last_entry_sound k v env none last) [
      | inl there ↦ there
      | inr no_entry ↦ absurd (ground (arith, no_entry))
    ]
