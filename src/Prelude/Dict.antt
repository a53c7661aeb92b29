-- ===== src/Prelude/Dict.antt =====
-- Go's `map[string]V`, as a list of entries. The order of the list is the one in which a `range`
-- loop meets the entries: what is proved for every list is proved for every order.
use Prim.Native.Nat.{◌+◌}
use mathlib.Core.Path.{◌≡◌, refl}
use mathlib.Core.Bool.{Bool, true, false}
use mathlib.Core.List.{List, [], ◌∷◌}
use mathlib.Core.Option.{Option, none, some}
use native.Mathlib.Omega.{arith}
use d2p_migrator.Prelude.Tests.{Str, ◌==◌, if◌then◌else◌}
use d2p_migrator.Prelude.Lists.{member, length}

abbrev pub Dict {ℓ} : Type ℓ → Type ℓ
Dict V = List (Str × V)

module _ {ℓ} {V : Type ℓ} where
  -- `dict[key]` with its `ok`
  unfoldable pub lookup : Str → Dict V → Option V
  lookup key [] = none
  lookup key ((first, value) ∷ rest) =
      let later = lookup key rest in if first == key then some value else later

  -- `dict[key] = new`
  unfoldable pub insert : Str → V → Dict V → Dict V
  insert key new [] = (key, new) ∷ []
  insert key new ((first, old) ∷ rest) =
      let later = insert key new rest in
      if first == key then (first, new) ∷ rest else (first, old) ∷ later

  abbrev pub keys : Dict V → List Str
  keys [] = []
  keys ((k, _) ∷ m) = k ∷ keys m

  -- `_, ok := m[k]`
  unfoldable pub has : Str → Dict V → Bool
  unfolding lookup
  has k m = elim (lookup k m) [ none ↦ false | some _ ↦ true ]

  pub lookup-insert :
      (written key : Str) (new : V) (dict : Dict V)
      → lookup key (insert written new dict)
        ≡ (if written == key then some new else lookup key dict)
  unfolding lookup insert
  lookup-insert written key new [] = refl
  lookup-insert written key new ((first, old) ∷ rest) =
      ground (arith, lookup-insert written key new rest)

  pub has-insert :
      (k j : Str) (v : V) (m : Dict V) → has j (insert k v m) ≡ (if k == j then true else has j m)
  unfolding has
  has-insert k j v m = ground (arith, lookup-insert k j v m)

  pub has-lookup :
      (k : Str) (m : Dict V) → has k m ≡ elim (lookup k m) [ none ↦ false | some _ ↦ true ]
  unfolding has
  has-lookup k m = refl

  pub has-member : (k : Str) (m : Dict V) → has k m ≡ member k (keys m)
  unfolding has lookup
  has-member k [] = refl
  has-member k ((j, w) ∷ m) = ground (arith, has-member k m)

-- `m[k]` of a string map, where a missing key reads as the empty string.
unfoldable pub get_str : Str → Dict Str → Str
unfolding lookup
get_str k m = elim (lookup k m) [ none ↦ [] | some v ↦ v ]

-- No key stands twice.
module _ {ℓ} {V : Type ℓ} where
  abbrev pub NodupKeys : Dict V → Type ℓ
  NodupKeys [] = Unit
  NodupKeys ((k, _) ∷ m) = (lookup k m ≡ none) × NodupKeys m

  pub insert-NodupKeys : (k : Str) (v : V) (m : Dict V) → NodupKeys m → NodupKeys (insert k v m)
  unfolding insert
  insert-NodupKeys k v [] _ = (unfold lookup in refl, tt)
  insert-NodupKeys k v ((j, _) ∷ m) (fresh, u) =
      ground (arith, insert-NodupKeys k v m u, lookup-insert k j v m)

  pub lookup-cons :
      (j k : Str) (v : V) (m : Dict V)
      → lookup j ((k, v) ∷ m) ≡ (if k == j then some v else lookup j m)
  unfolding lookup
  lookup-cons j k v m = refl

  pub length-insert_new :
      (k : Str) (v : V) (m : Dict V) → has k m ≡ false → length (insert k v m) ≡ length m + 1
  unfolding insert has lookup
  length-insert_new k v [] h = omega arith
  length-insert_new k v ((j, w) ∷ m) h = ground (arith, length-insert_new k v m)
