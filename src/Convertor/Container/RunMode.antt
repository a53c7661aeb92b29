-- ===== src/Convertor/Container/RunMode.antt =====
-- pouch/convertor/core.go: what `ToPouchContainerMeta` does to the environment.
use d2p_migrator.Prelude.{
  true, false, List, [], ◌∷◌, ◌++◌, ◌≡◌, ◌≢◌, ◌⊎◌, inl, inr, refl, ap, Str, ◌==◌, str, member,
  dec_str, arith, Option, none, some, Bool-cases,
}
use d2p_migrator.Prelude.Dict.{Dict, lookup}
use d2p_migrator.Prelude.Result.{ok}
use d2p_migrator.Convertor.Config.{parse_env}
use d2p_migrator.Convertor.Config.Env.{parse_env-member}
use d2p_migrator.Convertor.Container.{replace_first, run_mode, set_run_mode}

abbrev pub mode_entry : Str → Str
mode_entry mode = run_mode ++ b'=' ∷ mode

-- No entry like it stands before.
abbrev pub First : Str → List Str → Type 0
First old before = member old before ≡ false

replace_first-First :
    (old new : Str) (env : List Str)
    → member old env ≡ true
    → (before : List Str) × (after : List Str) × (env ≡ before ++ old ∷ after)
      × First old before
      × (replace_first old new env ≡ before ++ new ∷ after)
unfolding replace_first
replace_first-First old new [] h = absurd (ground (arith, h))
replace_first-First old new (v ∷ env) h = elim (Bool-cases (v == old)) [
  | inl same ↦
      let e : v ≡ old = ground (arith, same) in
      ([], env, ap (λ (x : Str). x ∷ env) e, refl, rw same refl)
  | inr apart ↦
      let (before, after, split, first, replaced) =
        replace_first-First old new env (ground (arith, h, apart)) in
      (
        v ∷ before,
        after,
        ap (λ (xs : List Str). v ∷ xs) split,
        ground (arith, first, apart),
        rw apart (ap (λ (xs : List Str). v ∷ xs) replaced),
      )
]

-- What becomes of an environment whose run mode is the given one. It is unchanged without one, and with the mode `vm`. Otherwise
-- the first entry that is exactly this mode gives way to one of the mode `vm`, and all else stays where it is.
abbrev pub Rewritten : Option Str → List Str → List Str → Type 0
Rewritten none env out = out ≡ env
Rewritten (some mode) env out =
    ((mode ≡ str "vm") × (out ≡ env))
    ⊎ ((mode ≢ str "vm")
        × ((before : List Str) × (after : List Str) × (env ≡ before ++ mode_entry mode ∷ after)
            × First (mode_entry mode) before
            × (out ≡ before ++ mode_entry (str "vm") ∷ after)))

set_mode-Rewritten :
    (env : List Str) (mode : Option Str)
    → ((v : Str) → mode ≡ some v → member (mode_entry v) env ≡ true)
    → Rewritten mode env (set_run_mode mode env)
unfolding set_run_mode
set_mode-Rewritten env none stands = refl
set_mode-Rewritten env (some mode) stands = elim (dec_str mode (str "vm")) [
  | yes e ↦ inl (e, ground (arith, e))
  | no differs ↦
      let apart : (mode == str "vm") ≡ false = ground (arith, differs) in
      rw apart (
        inr (
          differs,
          replace_first-First (mode_entry mode) (mode_entry (str "vm")) env (stands mode refl),
        ))
]

-- Where the environment names a run mode other than `vm`, the first entry that is exactly this mode becomes one with
-- the mode `vm`, in its place, and the other entries stay as they are; otherwise the environment is unchanged.
pub set_run_mode-Rewritten :
    (env : List Str) (envs : Dict Str)
    → parse_env env ≡ ok envs
    → Rewritten (lookup run_mode envs) env (set_run_mode (lookup run_mode envs) env)
set_run_mode-Rewritten env envs parsed =
    set_mode-Rewritten env (lookup run_mode envs) (λ v. parse_env-member env envs run_mode v parsed)
