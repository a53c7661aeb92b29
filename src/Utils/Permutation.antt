-- ===== src/Utils/Permutation.antt =====
-- utils/utils.go: `StringSliceEqual` compares two slices as bags.
use d2p_migrator.Prelude.{
  ℕ, zero, suc, ◌+◌, ◌≤◌, ◌≡◌, refl, ◌∙◌, ◌↔◌, true, List, [], ◌∷◌, Option, none, some, Str, ◌==◌,
  dec_str, count, length, eqb, if◌then◌else◌, arith, Bool-cases, Option-cases, count-eq_of_le,
  length-le_of_count, inl, inr,
}
use d2p_migrator.Prelude.Dict.{Dict, lookup, insert, lookup-insert}
use d2p_migrator.Utils.{count_up, count_down, count_down_at, string_slice_equal}

-- The count of a key, where a missing key counts 0.
amount : Str → Dict ℕ → ℕ
amount s m = elim (lookup s m) [ none ↦ 0 | some n ↦ n ]

amount-insert :
    (k s : Str) (n : ℕ) (m : Dict ℕ) → amount s (insert k n m) ≡ (if k == s then n else amount s m)
unfolding amount
amount-insert k s n m = ground (arith, lookup-insert k s n m)

amount-count_up :
    (vs : List Str) (m : Dict ℕ) (s : Str) → amount s (count_up vs m) ≡ amount s m + count s vs
unfolding count_up
amount-count_up [] m s = omega arith
amount-count_up (v ∷ vs) m s = elim (Option-cases (lookup v m)) [
  | inl missing ↦
      rw (missing, amount-count_up vs)
        (unfold amount in ground (arith, lookup-insert v s 1 m, missing))
  | inr (n, found) ↦
      rw (found, amount-count_up vs)
        (unfold amount in ground (arith, lookup-insert v s (n + 1) m, found))
]

amount_of :
    (v : Str) (m : Dict ℕ) {o : Option ℕ}
    → lookup v m ≡ o
    → amount v m ≡ elim o [ none ↦ 0 | some n ↦ n ]
unfolding amount
amount_of v m h = rw (h, amount)

count_down_at-some : (o : Option ℕ) {n : ℕ} → count_down_at o ≡ some n → o ≡ some (suc n)
unfolding count_down_at
count_down_at-some none h = cc
count_down_at-some (some zero) h = cc
count_down_at-some (some (suc k)) h = cc

-- The second loop passes only if no string is met more often than it was counted.
count_down-le :
    (vs : List Str) (m : Dict ℕ) → count_down vs m ≡ true → (s : Str) → count s vs ≤ amount s m
unfolding count_down
count_down-le [] m h s = omega arith
count_down-le (v ∷ vs) m h s = elim (Option-cases (count_down_at (lookup v m))) [
  | inl over ↦ absurd (ground (arith, over))
  | inr (n, left) ↦
      let rest : count s vs ≤ amount s (insert v n m) =
        count_down-le vs (insert v n m) (ground (arith, left)) s in
      let found : amount v m ≡ suc n = amount_of v m (count_down_at-some (lookup v m) left) in
      elim (dec_str v s) [
        | yes same ↦ ground (arith, rest, found, amount-insert v s n m, same)
        | no differ ↦ ground (arith, rest, amount-insert v s n m, differ)
      ]
]

-- And it passes if none is.
count_down-true :
    (vs : List Str) (m : Dict ℕ) → ((s : Str) → count s vs ≤ amount s m) → count_down vs m ≡ true
unfolding count_down
count_down-true [] m h = refl
count_down-true (v ∷ vs) m h = elim (Option-cases (lookup v m)) [
  | inl missing ↦ absurd (ground (arith, h v, amount_of v m missing))
  | inr (zero, found) ↦ absurd (ground (arith, h v, amount_of v m found))
  | inr (suc n, found) ↦
      let fits : (s : Str) → count s vs ≤ amount s (insert v n m) = λ s. elim (dec_str v s) [
        | yes same ↦ ground (arith, h s, amount_of v m found, amount-insert v s n m, same)
        | no differ ↦ ground (arith, h s, amount-insert v s n m, differ)
      ] in
      ground (arith, found, count_down-true vs (insert v n m) fits)
]

amount_start : (s1 : List Str) (s : Str) → amount s (count_up s1 []) ≡ count s s1
amount_start s1 s = amount-count_up s1 [] s ∙ (unfold amount lookup in omega arith)

equal_sound :
    (s1 s2 : List Str)
    → string_slice_equal (some s1) (some s2) ≡ true
    → (s : Str) → count s s2 ≡ count s s1
unfolding string_slice_equal
equal_sound s1 s2 h = elim (Bool-cases (eqb (length s1) (length s2))) [
  | inl long ↦
      count-eq_of_le s2 s1
        (λ s. ground (arith, count_down-le s2 (count_up s1 []) (rw long at h) s, amount_start s1 s))
        (ground (arith, long))
  | inr short ↦ absurd (ground (arith, short))
]

equal_complete :
    (s1 s2 : List Str)
    → ((s : Str) → count s s2 ≡ count s s1)
    → string_slice_equal (some s1) (some s2) ≡ true
unfolding string_slice_equal
equal_complete s1 s2 h =
    let passes : count_down s2 (count_up s1 []) ≡ true =
      count_down-true s2 (count_up s1 []) (λ s. omega (arith, h s, amount_start s1 s)) in
    ground (
      arith,
      passes,
      length-le_of_count s2 s1 (λ s. omega (arith, h s)),
      length-le_of_count s1 s2 (λ s. omega (arith, h s)),
    )

-- Both nil, or both hold each string equally often.
abbrev pub SameItems : Option (List Str) → Option (List Str) → Type 0
SameItems none none = Unit
SameItems none (some _) = ⊥
SameItems (some _) none = ⊥
SameItems (some s1) (some s2) = (s : Str) → count s s2 ≡ count s s1

-- `StringSliceEqual` returns true exactly if both slices are nil, or neither is and both hold each
-- string equally often: the order of the items does not matter, and how often each occurs does.
pub string_slice_equal-SameItems :
    (s1 s2 : Option (List Str)) → (string_slice_equal s1 s2 ≡ true) ↔ SameItems s1 s2
string_slice_equal-SameItems none none = (λ _. tt, λ _. unfold string_slice_equal in refl)
string_slice_equal-SameItems none (some _) = (λ h. unfold string_slice_equal in (cc), λ h. absurd h)
string_slice_equal-SameItems (some _) none = (λ h. unfold string_slice_equal in (cc), λ h. absurd h)
string_slice_equal-SameItems (some s1) (some s2) = (equal_sound s1 s2, equal_complete s1 s2)
