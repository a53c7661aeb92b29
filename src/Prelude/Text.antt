-- ===== src/Prelude/Text.antt =====
-- What the source uses of the packages `strings` and `strconv`.
use Prim.Native.Nat.{ℕ}
use mathlib.Core.Bool.{Bool, true, false, ◌&&◌, ◌||◌}
use mathlib.Core.List.{List, [], ◌∷◌, ◌++◌, reverse}
use mathlib.Core.Option.{Option, none, some}
use mathlib.Core.Path.{◌≡◌, refl}
use mathlib.Core.Logic.{inl, inr}
use native.Mathlib.Omega.{arith}
use d2p_migrator.Prelude.Tests.{Bool-cases, Str, eqb, leb, if◌then◌else◌}

-- `strings.TrimPrefix`, with `none` where the prefix is not there.
unfoldable pub strip_prefix : Str → Str → Option Str
strip_prefix [] s = some s
strip_prefix (p ∷ ps) [] = none
strip_prefix (p ∷ ps) (c ∷ s) = let rest = strip_prefix ps s in if eqb p c then rest else none

pub strip_prefix-append : (p s : Str) → strip_prefix p (p ++ s) ≡ some s
unfolding strip_prefix
strip_prefix-append [] s = refl
strip_prefix-append (c ∷ p) s = ground (arith, strip_prefix-append p s)

pub strip_prefix-some : (p s rest : Str) → strip_prefix p s ≡ some rest → s ≡ p ++ rest
unfolding strip_prefix
strip_prefix-some [] s rest h = cc
strip_prefix-some (c ∷ p) [] rest h = cc
strip_prefix-some (c ∷ p) (d ∷ s) rest h = ground (arith, strip_prefix-some p s rest)

-- `strings.HasPrefix(s, p)`
unfoldable pub has_prefix : Str → Str → Bool
unfolding strip_prefix
has_prefix s p = elim (strip_prefix p s) [ none ↦ false | some _ ↦ true ]

-- `strings.TrimPrefix(s, p)`
unfoldable pub trim_prefix : Str → Str → Str
unfolding strip_prefix
trim_prefix s p = elim (strip_prefix p s) [ none ↦ s | some rest ↦ rest ]

-- `strings.HasSuffix(s, p)`
unfoldable pub has_suffix : Str → Str → Bool
unfolding has_prefix reverse
has_suffix s p = has_prefix (reverse s) (reverse p)

-- `strings.TrimSuffix(s, p)`
unfoldable pub trim_suffix : Str → Str → Str
unfolding trim_prefix reverse
trim_suffix s p = reverse (trim_prefix (reverse s) (reverse p))

-- `strings.Contains(s, sub)`
unfoldable pub contains : Str → Str → Bool
unfolding has_prefix
contains [] sub = has_prefix [] sub
contains (c ∷ s) sub = has_prefix (c ∷ s) sub || contains s sub

put_first : ℕ → List Str → List Str
put_first c [] = []
put_first c (p ∷ ps) = (c ∷ p) ∷ ps

-- `strings.Split(s, sep)` at a separator of one character.
unfoldable pub split : ℕ → Str → List Str
unfolding put_first
split sep [] = [] ∷ []
split sep (c ∷ s) = let rest = split sep s in if eqb c sep then [] ∷ rest else put_first c rest

-- `strings.Join(parts, sep)`
unfoldable pub join : Str → List Str → Str
join sep [] = []
join sep (p ∷ []) = p
join sep (p ∷ q ∷ ps) = p ++ (sep ++ join sep (q ∷ ps))

pub split-cons : (sep : ℕ) (s : Str) → (p : Str) × (ps : List Str) × (split sep s ≡ p ∷ ps)
unfolding split
split-cons sep [] = ([], [], refl)
split-cons sep (c ∷ s) =
    let (p, ps, e) = split-cons sep s in
    elim (Bool-cases (eqb c sep)) [
      | inl here ↦ ([], split sep s, rw here refl)
      | inr later ↦ (c ∷ p, ps, rw (later, e) refl)
    ]

join-put_first :
    (sep : Str) (c : ℕ) (p : Str) (ps : List Str)
    → join sep (put_first c (p ∷ ps)) ≡ c ∷ join sep (p ∷ ps)
unfolding join put_first
join-put_first sep c p [] = refl
join-put_first sep c p (q ∷ ps) = refl

-- The parts of a text, with the separator between them, are the text.
pub join-split : (sep : ℕ) (s : Str) → join (sep ∷ []) (split sep s) ≡ s
unfolding split join put_first
join-split sep [] = refl
join-split sep (c ∷ s) =
    let (p, ps, e) = split-cons sep s in
    elim (Bool-cases (eqb c sep)) [
      | inl here ↦ ground (arith, here, e, join-split sep s)
      | inr later ↦ ground (arith, later, e, join-split sep s, join-put_first (sep ∷ []) c p ps)
    ]

-- `unicode.IsSpace`
unfoldable pub is_space : ℕ → Bool
is_space c =
    (leb 9 c && leb c 13)
    || eqb c 32
    || eqb c 0x85
    || eqb c 0xa0
    || eqb c 0x1680
    || (leb 0x2000 c && leb c 0x200a)
    || eqb c 0x2028
    || eqb c 0x2029
    || eqb c 0x202f
    || eqb c 0x205f
    || eqb c 0x3000

unfoldable pub trim_left : Str → Str
unfolding is_space
trim_left [] = []
trim_left (c ∷ s) = let rest = trim_left s in if is_space c then rest else c ∷ s

-- `strings.TrimSpace`
unfoldable pub trim_space : Str → Str
unfolding trim_left reverse
trim_space s = reverse (trim_left (reverse (trim_left s)))
