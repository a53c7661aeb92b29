-- ===== src/Tests/Utils.antt =====
-- The helpers on slices, on short slices.
use d2p_migrator.Prelude.{
  true, false, List, [], ◌∷◌, ◌≡◌, ◌↔◌, some, Str, ◌==◌, str, member, count, keep, map, trim_space,
  if◌then◌else◌,
}
use d2p_migrator.Utils.{
  string_in_slice, string_slice_equal, remove_duplicate_element, slice_trim_space,
}
use d2p_migrator.Utils.Permutation.{SameItems, string_slice_equal-SameItems}
use d2p_migrator.Utils.Slices.{
  string_in_slice-member, count-remove_duplicate_element, slice_trim_space-keep, not_blank,
}

abbrev one : List Str
one = str "a" ∷ str "b" ∷ str "a" ∷ []

abbrev two : List Str
two = str "b" ∷ str "a" ∷ str "a" ∷ []

string_slice_equal-SameItems_example :
    (string_slice_equal (some one) (some two) ≡ true) ↔ SameItems (some one) (some two)
string_slice_equal-SameItems_example = string_slice_equal-SameItems (some one) (some two)

string_in_slice-member_run :
    string_in_slice one (str "b") ≡ (if str "b" == [] then false else member (str "b") one)
string_in_slice-member_run = string_in_slice-member one (str "b")

count-remove_duplicate_element_run :
    count (str "a") (remove_duplicate_element one) ≡ (if member (str "a") one then 1 else 0)
count-remove_duplicate_element_run = count-remove_duplicate_element (str "a") one

slice_trim_space-keep_run :
    slice_trim_space (str " a" ∷ str "  " ∷ [])
    ≡ keep not_blank (map trim_space (str " a" ∷ str "  " ∷ []))
slice_trim_space-keep_run = slice_trim_space-keep (str " a" ∷ str "  " ∷ [])
