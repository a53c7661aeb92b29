-- ===== src/Prelude/Numbers.antt =====
-- What the source uses of `strconv`: `ParseUint(s, 10, 32)` and `Atoi`.
use Prim.Native.Nat.{ℕ, zero, suc, ◌+◌, ◌*◌, ◌-◌, ◌^◌}
use mathlib.Core.Bool.{Bool, ◌&&◌}
use mathlib.Core.List.{[], ◌∷◌, ◌++◌}
use d2p_migrator.Prelude.Tests.{Str, str, ltb, leb, eqb, if◌then◌else◌}
use d2p_migrator.Prelude.Int.{ℤ, pos, negsuc}
use d2p_migrator.Prelude.Result.{Result, ok, err, panic, errorf, quoted}

unfoldable pub is_digit : ℕ → Bool
is_digit c = leb b'0' c && leb c b'9'

-- The texts of `NumError`.
abbrev pub syntax_error : Str → Str → Str
syntax_error fn s = str "strconv." ++ fn ++ str ": parsing " ++ quoted s ++ str ": invalid syntax"

abbrev pub range_error : Str → Str → Str
range_error fn s =
    str "strconv." ++ fn ++ str ": parsing " ++ quoted s ++ str ": value out of range"

-- The loop of `ParseUint`: `n` stays at or below `max`.
unfoldable pub parse_digits : Str → Str → ℕ → Str → ℕ → Result ℕ
unfolding is_digit
parse_digits fn whole max [] n = ok n
parse_digits fn whole max (c ∷ s) n =
    let more = parse_digits fn whole max s (n * 10 + (c - b'0')) in
    if is_digit c
    then if ltb max (n * 10 + (c - b'0')) then errorf (range_error fn whole) else more
    else errorf (syntax_error fn whole)

abbrev pub max_u32 : ℕ
max_u32 = 2 ^ 32 - 1

abbrev pub max_int : ℕ
max_int = 2 ^ 63 - 1

-- `strconv.ParseUint(s, 10, 32)`
unfoldable pub parse_uint32 : Str → Result ℕ
unfolding parse_digits
parse_uint32 [] = errorf (syntax_error (str "ParseUint") [])
parse_uint32 (c ∷ s) = parse_digits (str "ParseUint") (c ∷ s) max_u32 (c ∷ s) 0

negate : Result ℕ → Result ℤ
negate (ok zero) = ok (pos 0)
negate (ok (suc n)) = ok (negsuc n)
negate (err e) = err e
negate panic = panic

positive : Result ℕ → Result ℤ
positive (ok n) = ok (pos n)
positive (err e) = err e
positive panic = panic

unsigned : Str → ℕ → Str → Result ℕ
unfolding parse_digits
unsigned whole max [] = errorf (syntax_error (str "Atoi") whole)
unsigned whole max (c ∷ s) = parse_digits (str "Atoi") whole max (c ∷ s) 0

-- `strconv.Atoi`, on a 64-bit machine: an optional sign and digits.
unfoldable pub atoi : Str → Result ℤ
unfolding negate positive unsigned
atoi [] = errorf (syntax_error (str "Atoi") [])
atoi (c ∷ s) =
    if eqb c b'-'
    then negate (unsigned (c ∷ s) (max_int + 1) s)
    else if eqb c b'+'
    then positive (unsigned (c ∷ s) max_int s)
    else positive (unsigned (c ∷ s) max_int (c ∷ s))
