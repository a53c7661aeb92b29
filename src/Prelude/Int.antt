-- ===== src/Prelude/Int.antt =====
-- Go's `int` and `int64`, and their decimal print.
pub mod Digits
use Prim.Native.Nat.{ℕ, zero, suc, ◌+◌, ◌/◌, ◌%◌}
use mathlib.Core.List.{[], ◌∷◌}
use d2p_migrator.Prelude.Tests.{Str, eqb, if◌then◌else◌}

-- `negsuc n` is -(n + 1).
pub data ℤ : Type 0 where
  pos : ℕ → ℤ
  negsuc : ℕ → ℤ

-- The decimal digits of `n`, in front of `out`. A number has at most `n + 1` digits.
digits : ℕ → ℕ → Str → Str
digits zero n out = out
digits (suc fuel) n out =
    let more = digits fuel (n / 10) ((b'0' + n % 10) ∷ out) in
    if eqb (n / 10) 0 then (b'0' + n % 10) ∷ out else more

unfoldable pub print_nat : ℕ → Str
unfolding digits
print_nat n = digits (n + 1) n []

-- `%v` and `%d` of an integer.
unfoldable pub print_int : ℤ → Str
unfolding print_nat
print_int (pos n) = print_nat n
print_int (negsuc n) = b'-' ∷ print_nat (n + 1)
