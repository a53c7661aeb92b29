-- ===== src/Utils/Slices.antt =====
-- utils/utils.go: membership in a slice, removal of duplicates and of blank items.
use d2p_migrator.Prelude.{
  ◌≡◌, refl, sym, Bool, true, false, ◌||◌, List, [], ◌∷◌, ◌++◌, Str, ◌==◌, member, count,
  member-append, count-append, inl, inr, if◌then◌else◌, trim_space, arith, append-nil, append_assoc,
  keep, Bool-cases, map,
}
use d2p_migrator.Prelude.Dict.{Dict, insert, has, has-insert, has-member}
use d2p_migrator.Utils.{
  string, member_loop, boxed, string_in_slice, remove_loop, remove_duplicate_element, trim_loop,
  slice_trim_space,
}

member_loop-boxed : (s : Str) (ts : List Str) → member_loop (boxed ts) (string s) ≡ member s ts
unfolding member_loop
member_loop-boxed s [] = refl
member_loop-boxed s (t ∷ ts) = ground (arith, member_loop-boxed s ts)

-- A non-empty string is found exactly if it is an element; the empty string is never found.
pub string_in_slice-member :
    (ts : List Str) (s : Str) → string_in_slice ts s ≡ (if s == [] then false else member s ts)
unfolding string_in_slice
string_in_slice-member [] s = ground arith
string_in_slice-member (t ∷ ts) [] = ground arith
string_in_slice-member (t ∷ ts) (c ∷ s) = ground (arith, member_loop-boxed (c ∷ s) (t ∷ ts))

remove_loop-count :
    (items : List Str) (temp : Dict (Unit {0})) (result : List Str) (s : Str)
    → ((k : Str) → has k temp ≡ member k result)
    → count s result ≡ (if member s result then 1 else 0)
    → count s (remove_loop items temp result) ≡ (if member s result || member s items then 1 else 0)
unfolding remove_loop
remove_loop-count [] temp result s same once = ground arith
remove_loop-count (item ∷ items) temp result s same once = elim (Bool-cases (has item temp)) [
  | inl old ↦ rw old (ground (arith, remove_loop-count items temp result s same once, same item))
  | inr new ↦
      let same' : (k : Str) → has k (insert item tt temp) ≡ member k (result ++ item ∷ []) = λ k.
        ground (arith, has-insert item k tt temp, member-append k result (item ∷ []), same k) in
      let once' : count s (result ++ item ∷ [])
          ≡ (if member s (result ++ item ∷ []) then 1 else 0) =
        ground (
          arith,
          count-append s result (item ∷ []),
          member-append s result (item ∷ []),
          same item,
        ) in
      rw new (
        ground (
          arith,
          remove_loop-count items (insert item tt temp) (result ++ item ∷ []) s same' once',
          member-append s result (item ∷ []),
        ))
]

-- Each string of the slice is left exactly once, and no other string is.
pub count-remove_duplicate_element :
    (s : Str) (addrs : List Str)
    → count s (remove_duplicate_element addrs) ≡ (if member s addrs then 1 else 0)
unfolding remove_duplicate_element
count-remove_duplicate_element s addrs =
    remove_loop-count addrs [] [] s (λ k. has-member {V = Unit {0}} k []) refl

abbrev pub not_blank : Str → Bool
not_blank s = if s == [] then false else true

trim_loop-keep :
    (items output : List Str)
    → trim_loop items output ≡ output ++ keep not_blank (map trim_space items)
unfolding trim_loop
trim_loop-keep [] output = sym (append-nil output)
trim_loop-keep (item ∷ items) output = ground (
  arith,
  trim_loop-keep items output,
  trim_loop-keep items (output ++ trim_space item ∷ []),
  append_assoc output (trim_space item ∷ []) (keep not_blank (map trim_space items)),
)

-- The items that are not blank, in order, each without the space around it.
pub slice_trim_space-keep :
    (input : List Str) → slice_trim_space input ≡ keep not_blank (map trim_space input)
unfolding slice_trim_space
slice_trim_space-keep input = trim_loop-keep input []
