-- ===== src/Prelude/Strings.antt =====
-- Positions and suffixes of texts, as package `strings` has them.
use d2p_migrator.Prelude.{
  ℕ, zero, suc, ◌≡◌, refl, sym, ap, ◌∙◌, Bool, true, false, [], ◌∷◌, ◌++◌, Option, none, some, Str,
  ◌⊎◌, inl, inr, eqb, ltb, if◌then◌else◌, arith, length, get_elem?, strip_prefix,
  strip_prefix-append, strip_prefix-some, has_prefix, has_suffix, Option-cases,
}
use mathlib.Core.List.{reverse, reverse-append, reverse-reverse}

-- `strings.LastIndex(s, c)` of one character, with `none` for -1.
unfoldable pub last_index : ℕ → Str → Option ℕ
last_index c [] = none
last_index c (d ∷ s) = elim (last_index c s) [
  | some i ↦ some (suc i)
  | none ↦ if eqb d c then some 0 else none
]

-- `strings.IndexByte(s, c)`, with `none` for -1.
unfoldable pub index_byte : ℕ → Str → Option ℕ
index_byte c [] = none
index_byte c (d ∷ s) =
    let rest : Option ℕ = elim (index_byte c s) [ none ↦ none | some i ↦ some (suc i) ] in
    if eqb d c then some 0 else rest

-- `i > j` of two positions, where `none` is -1.
abbrev pub above : Option ℕ → Option ℕ → Bool
above none _ = false
above (some i) none = true
above (some i) (some j) = ltb j i

-- `s[n:]`, for `n` at most the length.
abbrev pub drop : ℕ → Str → Str
drop zero s = s
drop (suc n) [] = []
drop (suc n) (_ ∷ s) = drop n s

-- A text that ends in `p` is some text before `p`.
pub has_suffix-true : (s p : Str) → has_suffix s p ≡ true → (before : Str) × (s ≡ before ++ p)
unfolding has_suffix has_prefix
has_suffix-true s p h = elim (Option-cases (strip_prefix (reverse p) (reverse s))) [
  | inl absent ↦ absurd (ground (arith, absent, h))
  | inr (rest, e) ↦ (
    reverse rest,
    sym (reverse-reverse s)
        ∙ ap reverse (strip_prefix-some (reverse p) (reverse s) rest e)
        ∙ reverse-append (reverse p) rest
        ∙ ap (λ t. reverse rest ++ t) (reverse-reverse p),
  )
]

pub has_suffix-append : (before p : Str) → has_suffix (before ++ p) p ≡ true
unfolding has_suffix has_prefix
has_suffix-append before p =
    rw (reverse-append before p, has_prefix, strip_prefix-append (reverse p) (reverse before)) refl

-- A text is empty or has a last character.
pub snoc-cases : (s : Str) → (s ≡ []) ⊎ ((front : Str) × (c : ℕ) × (s ≡ front ++ (c ∷ [])))
snoc-cases [] = inl refl
snoc-cases (d ∷ s) = elim (snoc-cases s) [
  | inl empty ↦ inr ([], d, ap (λ t. d ∷ t) empty)
  | inr (front, c, e) ↦ inr (d ∷ front, c, ap (λ t. d ∷ t) e)
]

pub get_elem?-length :
    (front : Str) (c : ℕ) (behind : Str) → get_elem? (front ++ (c ∷ behind)) (length front) ≡ some c
get_elem?-length [] c behind = refl
get_elem?-length (_ ∷ front) c behind = get_elem?-length front c behind
