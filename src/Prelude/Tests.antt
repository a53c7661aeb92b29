-- ===== src/Prelude/Tests.antt =====
-- Boolean tests on the native numbers, the conditional, and equality tests of texts.
use Prim.Native.Nat.{ℕ, compare, Ordering}
use Prim.Native.Char.{code}
use Prim.Native.String.{String}
use mathlib.Core.Path.{◌≡◌, refl}
use mathlib.Core.Logic.{◌⊎◌, inl, inr, ite, dite}
use mathlib.Core.Bool.{Bool, true, false, ◌&&◌, Bool-discrete}
use mathlib.Core.Option.{Option, none, some}
use mathlib.Core.List.{List, [], ◌∷◌}
use native.Mathlib.Omega.{arith}

abbrev pub ltb : ℕ → ℕ → Bool
ltb a b = elim (compare a b) [ Ordering.lt ↦ true | _ ↦ false ]

abbrev pub leb : ℕ → ℕ → Bool
leb a b = elim (compare a b) [ Ordering.gt ↦ false | _ ↦ true ]

abbrev pub eqb : ℕ → ℕ → Bool
eqb a b = elim (compare a b) [ Ordering.eq ↦ true | _ ↦ false ]

infix 1 if◌then◌else◌
abbrev pub if◌then◌else◌ {ℓ} : {A : Type ℓ} → Bool → A → A → A
if true then x else y = x
if false then x else y = y

-- To split on a computed value and keep the equation.
pub Bool-cases : (b : Bool) → (b ≡ true) ⊎ (b ≡ false)
Bool-cases true = inl refl
Bool-cases false = inr refl

pub Option-cases {ℓ} : {A : Type ℓ} (o : Option A) → (o ≡ none) ⊎ ((a : A) × (o ≡ some a))
Option-cases none = inl refl
Option-cases (some a) = inr (a, refl)

-- A Go string, as the code points of its text.
abbrev pub Str : Type 0
Str = List ℕ

-- A literal. It stays folded in proofs.
unfoldable pub str : String → Str
str String.[] = []
str (String.◌∷◌ c s) = code c ∷ str s

pub same : Str → Str → Bool
same [] [] = true
same [] (_ ∷ _) = false
same (_ ∷ _) [] = false
same (a ∷ s) (b ∷ t) = eqb a b && same s t

pub same→eq : (s t : Str) → same s t ≡ true → s ≡ t
unfolding same
same→eq [] [] h = refl
same→eq [] (_ ∷ _) h = ground arith
same→eq (_ ∷ _) [] h = ground arith
same→eq (a ∷ s) (b ∷ t) h = ground (arith, same→eq s t)

same_refl : (s : Str) → same s s ≡ true
unfolding same
same_refl [] = refl
same_refl (a ∷ s) = ground (arith, same_refl s)

pub eq→same : (s t : Str) → s ≡ t → same s t ≡ true
eq→same s t e = ground (arith, same_refl s)

-- A split on a test of two texts yields their equation or its negation.
unfoldable pub dec_str : Discrete Str
unfolding same
dec_str s t =
    dite (Bool-discrete (same s t) true) (λ e. yes (same→eq s t e))
      (λ differ. no (λ e. differ (eq→same s t e)))

infix 50 ◌==◌
abbrev pub ◌==◌ : Str → Str → Bool
s == t = ite (dec_str s t) true false

pub ==_refl : (s : Str) → (s == s) ≡ true
==_refl s = ground arith
