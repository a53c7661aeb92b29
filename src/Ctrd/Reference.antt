-- ===== src/Ctrd/Reference.antt =====
-- ctrd/image/image.go: the default registry of an image's name.
use d2p_migrator.Prelude.{
  ℕ, Bool, false, ◌||◌, ◌&&◌, not, [], ◌∷◌, ◌++◌, Option, none, some, Str, ◌==◌, eqb, if◌then◌else◌,
}

-- `strings.IndexRune(ref, c)`, as the text before the character and the text behind it.
unfoldable pub cut : ℕ → Str → Option (Str × Str)
cut c [] = none
cut c (d ∷ s) =
    let rest : Option (Str × Str) = elim (cut c s) [
      | none ↦ none
      | some (before, after) ↦ some (d ∷ before, after)
    ] in
    if eqb d c then some ([], s) else rest

-- `strings.ContainsAny(s, chars)`
unfoldable pub contains_char : ℕ → Str → Bool
contains_char c [] = false
contains_char c (d ∷ s) = eqb d c || contains_char c s

contains_any : Str → Str → Bool
unfolding contains_char
contains_any [] s = false
contains_any (c ∷ chars) s = contains_char c s || contains_any chars s

-- The registry and the remainder of a name.
registry_of : Str → Str → Str × Str
unfolding cut contains_any
registry_of default_registry ref = elim (cut b'/' ref) [
  | none ↦ (default_registry, ref)
  | some (before, after) ↦
      if not (contains_any (b'.' ∷ b':' ∷ []) before)
      then (default_registry, ref)
      else (before, after)
]

add_namespace : Str → Str → Str × Str → Str
unfolding contains_char
add_namespace default_registry default_namespace (registry, remainder) =
    registry
    ++ b'/'
      ∷ (if (registry == default_registry) && not (contains_char b'/' remainder)
          then default_namespace ++ b'/' ∷ remainder
          else remainder)

-- `AddDefaultRegistryIfMissing`
unfoldable pub add_default_registry_if_missing : Str → Str → Str → Str
unfolding registry_of add_namespace
add_default_registry_if_missing ref default_registry default_namespace =
    add_namespace default_registry default_namespace (registry_of default_registry ref)
