-- ===== src/Utils.antt =====
-- utils/utils.go: helpers on slices of strings.
pub mod Slices
pub mod Permutation
pub mod Files
use d2p_migrator.Prelude.{
  ℕ, zero, suc, ◌+◌, Bool, true, false, ◌||◌, not, List, [], ◌∷◌, ◌++◌, Option, none, some, Str,
  ◌==◌, dec_str, eqb, length, if◌then◌else◌, str, trim_space,
}
use d2p_migrator.Prelude.Dict.{Dict, lookup, insert, has}
use d2p_migrator.Prelude.Int.{ℤ, pos, negsuc}
use d2p_migrator.Prelude.Result.{Result, ok, errorf}

-- `IfThenElse` returns an untyped value; here both have one type.
unfoldable pub if_then_else {ℓ} : {A : Type ℓ} → Bool → A → A → A
if_then_else true a b = a
if_then_else false a b = b

-- The dynamic types of `interface{}` values that `Contains` tells apart. A float is known by its
-- bits, which are not those of a NaN, and a value of any other type by its type's name.
pub data Interface : Type 0 where
  nil : Interface
  int int64 : ℤ → Interface
  float64 : ℕ → Interface
  string : Str → Interface
  other : Str → Interface

unfoldable pub type_of : Interface → Str
unfolding str
type_of nil = []
type_of (int _) = str "int"
type_of (int64 _) = str "int64"
type_of (float64 _) = str "float64"
type_of (string _) = str "string"
type_of (other t) = t

same_int : ℤ → ℤ → Bool
same_int (pos m) (pos n) = eqb m n
same_int (negsuc m) (negsuc n) = eqb m n
same_int _ _ = false

same_value : Interface → Interface → Bool
unfolding same_int
same_value (int a) (int b) = same_int a b
same_value (int64 a) (int64 b) = same_int a b
same_value (float64 a) (float64 b) = eqb a b
same_value (string a) (string b) = a == b
same_value _ _ = false

-- The loop over the slice, where the types agree.
member_loop : List Interface → Interface → Bool
unfolding same_value
member_loop [] value = false
member_loop (v ∷ vs) value = same_value v value || member_loop vs value

-- The `switch` on the type of the value.
contains_switch : List Interface → Interface → Result Bool
unfolding member_loop type_of
contains_switch input (int v) = ok (member_loop input (int v))
contains_switch input (int64 v) = ok (member_loop input (int64 v))
contains_switch input (float64 v) = ok (member_loop input (float64 v))
contains_switch input (string v) = ok (member_loop input (string v))
contains_switch input v = errorf (str "Not support: " ++ type_of v)

-- `Contains`. On an error the first result is false.
unfoldable pub contains : List Interface → Interface → Result Bool
unfolding contains_switch
contains input nil = ok false
contains [] value = ok false
contains (v ∷ vs) value =
    if type_of v == type_of value
    then contains_switch (v ∷ vs) value
    else errorf (str "interface type not equals")

abbrev result_or_false : Result Bool → Bool
result_or_false (ok b) = b
result_or_false _ = false

abbrev boxed : List Str → List Interface
boxed [] = []
boxed (s ∷ ss) = string s ∷ boxed ss

-- `StringInSlice`. The error of `Contains` is dropped.
unfoldable pub string_in_slice : List Str → Str → Bool
unfolding contains
string_in_slice [] s = false
string_in_slice (t ∷ ts) [] = false
string_in_slice (t ∷ ts) (c ∷ s) = result_or_false (contains (boxed (t ∷ ts)) (string (c ∷ s)))

-- The counts of `StringSliceEqual`. They stay at or above 0 but for the last one written, at which
-- the loop returns: `none` stands for that.
unfoldable pub count_up : List Str → Dict ℕ → Dict ℕ
unfolding lookup insert
count_up [] m = m
count_up (v ∷ vs) m = count_up vs (insert v (elim (lookup v m) [ none ↦ 1 | some n ↦ n + 1 ]) m)

count_down_at : Option ℕ → Option ℕ
count_down_at none = none
count_down_at (some zero) = none
count_down_at (some (suc n)) = some n

unfoldable pub count_down : List Str → Dict ℕ → Bool
unfolding lookup insert count_down_at
count_down [] m = true
count_down (v ∷ vs) m = elim (count_down_at (lookup v m)) [
  | none ↦ false
  | some n ↦ count_down vs (insert v n m)
]

-- `StringSliceEqual`; `none` is the nil slice.
unfoldable pub string_slice_equal : Option (List Str) → Option (List Str) → Bool
unfolding count_up count_down
string_slice_equal none none = true
string_slice_equal none (some _) = false
string_slice_equal (some _) none = false
string_slice_equal (some s1) (some s2) =
    if not (eqb (length s1) (length s2)) then false else count_down s2 (count_up s1 [])

-- The loop of `RemoveDuplicateElement`, with the set `temp` and the result so far.
remove_loop : List Str → Dict (Unit {0}) → List Str → List Str
unfolding has insert
remove_loop [] temp result = result
remove_loop (item ∷ items) temp result =
    let skip = remove_loop items temp result in
    let take = remove_loop items (insert item tt temp) (result ++ item ∷ []) in
    if has item temp then skip else take

unfoldable pub remove_duplicate_element : List Str → List Str
unfolding remove_loop
remove_duplicate_element addrs = remove_loop addrs [] []

-- The loop of `SliceTrimSpace`.
trim_loop : List Str → List Str → List Str
unfolding trim_space
trim_loop [] output = output
trim_loop (item ∷ items) output =
    trim_loop items (if trim_space item == [] then output else output ++ trim_space item ∷ [])

unfoldable pub slice_trim_space : List Str → List Str
unfolding trim_loop
slice_trim_space input = trim_loop input []
