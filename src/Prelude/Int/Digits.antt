-- ===== src/Prelude/Int/Digits.antt =====
-- Decimal digits are read back.
use d2p_migrator.Prelude.{
  ℕ, zero, suc, ◌+◌, ◌-◌, ◌*◌, ◌/◌, ◌%◌, ◌<◌, ◌≡◌, sym, ap, ◌∙◌, [], ◌∷◌, Str, eqb, arith,
  Bool-cases, inl, inr, ◌≢◌,
}
use d2p_migrator.Prelude.Int.{digits, print_nat}

-- The number that digits stand for, behind those that make `n`.
abbrev value : ℕ → Str → ℕ
value n [] = n
value n (c ∷ s) = value (n * 10 + (c - b'0')) s

value-digits : (fuel n : ℕ) (out : Str) → n < fuel → value 0 (digits fuel n out) ≡ value n out
unfolding digits
value-digits zero n out h = absurd (omega arith)
value-digits (suc fuel) n out h =
    let one : 0 * 10 + (b'0' + n % 10 - b'0') ≡ n % 10 = omega arith in
    let more : n / 10 * 10 + (b'0' + n % 10 - b'0') ≡ n = omega arith in
    elim (Bool-cases (eqb (n / 10) 0)) [
      | inl small ↦
          let e : n % 10 ≡ n = ground (arith, small) in rw small (ap (λ k. value k out) (one ∙ e))
      | inr large ↦
          let filled : n / 10 ≢ 0 = ground (arith, large) in
          rw large (
            value-digits fuel (n / 10) ((b'0' + n % 10) ∷ out) (omega (arith, filled, h))
            ∙ ap (λ k. value k out) more)
    ]

pub print_nat-injective : (m n : ℕ) → print_nat m ≡ print_nat n → m ≡ n
unfolding print_nat
print_nat-injective m n e =
    sym (value-digits (m + 1) m [] (omega arith))
    ∙ ap (value 0) e
    ∙ value-digits (n + 1) n [] (omega arith)
