-- ===== src/Prelude/Lists.antt =====
-- Lists measured and indexed by native numbers, and predicates by recursion on a list.
use Prim.Native.Nat.{ℕ, zero, suc, ◌+◌, ◌-◌, ◌≤◌, ◌<◌}
use mathlib.Core.Path.{◌≡◌, refl}
use mathlib.Core.Bool.{Bool, false, ◌||◌}
use mathlib.Core.List.{List, [], ◌∷◌, ◌++◌}
use mathlib.Core.Option.{Option, none, some}
use native.Mathlib.Omega.{arith}
use d2p_migrator.Prelude.Tests.{Str, ◌==◌, if◌then◌else◌}

module _ {ℓ} {A : Type ℓ} where
  abbrev pub length : List A → ℕ
  length [] = 0
  length (x ∷ xs) = suc (length xs)

  abbrev pub get_elem? : List A → ℕ → Option A
  get_elem? [] i = none
  get_elem? (x ∷ xs) zero = some x
  get_elem? (x ∷ xs) (suc i) = get_elem? xs i

  abbrev pub take : ℕ → List A → List A
  take zero xs = []
  take (suc n) [] = []
  take (suc n) (x ∷ xs) = x ∷ take n xs

  pub length-append : (xs ys : List A) → length (xs ++ ys) ≡ length xs + length ys
  length-append [] ys = omega arith
  length-append (x ∷ xs) ys = omega (arith, length-append xs ys)

module _ {ℓ κ} {A : Type ℓ} (P : A → Type κ) where
  abbrev pub All : List A → Type κ
  All [] = Unit
  All (x ∷ xs) = P x × All xs

  pub All-append : (xs ys : List A) → All xs → All ys → All (xs ++ ys)
  All-append [] ys _ hy = hy
  All-append (x ∷ xs) ys (px, hx) hy = (px, All-append xs ys hx hy)

-- Whether a text is among others.
abbrev pub member : Str → List Str → Bool
member s [] = false
member s (t ∷ ts) = t == s || member s ts

pub member-append :
    (s : Str) (xs ys : List Str) → member s (xs ++ ys) ≡ (member s xs || member s ys)
member-append s [] ys = refl
member-append s (t ∷ ts) ys = ground (arith, member-append s ts ys)

-- How often a text is among others.
abbrev pub count : Str → List Str → ℕ
count s [] = 0
count s (t ∷ ts) = let rest = count s ts in if t == s then suc rest else rest

-- The elements that pass a test, in order.
abbrev pub keep {ℓ} : {A : Type ℓ} → (A → Bool) → List A → List A
keep p [] = []
keep p (x ∷ xs) = let rest = keep p xs in if p x then x ∷ rest else rest

pub count-append : (s : Str) (xs ys : List Str) → count s (xs ++ ys) ≡ count s xs + count s ys
count-append s [] ys = omega arith
count-append s (t ∷ ts) ys = ground (arith, count-append s ts ys)

-- The list without the first occurrence of a text.
abbrev pub erase : Str → List Str → List Str
erase s [] = []
erase s (t ∷ ts) = let rest = erase s ts in if t == s then ts else t ∷ rest

pub count-erase :
    (s y : Str) (xs : List Str)
    → count s (erase y xs) ≡ (if y == s then count s xs - 1 else count s xs)
count-erase s y [] = ground arith
count-erase s y (t ∷ ts) = ground (arith, count-erase s y ts)

pub length-erase : (y : Str) (xs : List Str) → 0 < count y xs → length (erase y xs) + 1 ≡ length xs
length-erase y [] h = absurd (omega arith)
length-erase y (t ∷ ts) h = ground (arith, length-erase y ts)

-- A list that holds no text more often than another is no longer.
pub length-le_of_count :
    (ys xs : List Str) → ((s : Str) → count s ys ≤ count s xs) → length ys ≤ length xs
length-le_of_count [] xs h = omega arith
length-le_of_count (y ∷ ys) xs h =
    let present : 0 < count y xs = ground (arith, h y) in
    let rest : length ys ≤ length (erase y xs) =
      length-le_of_count ys (erase y xs) (λ s. ground (arith, h s, count-erase s y xs)) in
    omega (arith, rest, length-erase y xs present)

-- And where both are equally long, it holds each text as often.
pub count-eq_of_le :
    (ys xs : List Str)
    → ((s : Str) → count s ys ≤ count s xs)
    → length ys ≡ length xs
    → (s : Str) → count s ys ≡ count s xs
count-eq_of_le [] [] h e s = refl
count-eq_of_le [] (x ∷ xs) h e s = absurd (omega arith)
count-eq_of_le (y ∷ ys) xs h e s =
    let present : 0 < count y xs = ground (arith, h y) in
    let fits : (s : Str) → count s ys ≤ count s (erase y xs) =
      λ s. ground (arith, h s, count-erase s y xs) in
    let rest : count s ys ≡ count s (erase y xs) =
      count-eq_of_le ys (erase y xs) fits (omega (arith, length-erase y xs present)) s in
    ground (arith, rest, count-erase s y xs, present)
