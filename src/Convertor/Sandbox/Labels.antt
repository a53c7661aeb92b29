-- ===== src/Convertor/Sandbox/Labels.antt =====
-- pouch/convertor/cri.go: how the labels of a sandbox's container are split.
use d2p_migrator.Prelude.{
  Bool, not, ◌&&◌, [], ◌∷◌, ◌≡◌, refl, sym, ap, ◌∙◌, Option, none, some, Str, ◌==◌, arith,
  if◌then◌else◌, has_prefix, trim_prefix, Bool-cases, inl, inr,
}
use d2p_migrator.Prelude.Dict.{Dict, lookup, insert, lookup-insert, NodupKeys}
use d2p_migrator.Utils.{string_in_slice}
use d2p_migrator.Convertor.Sandbox.{
  annotation_prefix, annotations_or_empty, label_key_type, split_labels,
}

-- A value, or the one behind it.
abbrev pub or_else : Option Str → Option Str → Option Str
or_else none next = next
or_else (some v) next = some v

-- Whether a label stays a label.
abbrev pub stays : Str → Bool
stays k = not (has_prefix k annotation_prefix) && not (string_in_slice label_key_type k)

label_step :
    (k j v : Str) (input labels : Dict Str)
    → lookup j input ≡ none
    → (if stays k
        then or_else (lookup k input) (lookup k (if stays j then insert j v labels else labels))
        else lookup k (if stays j then insert j v labels else labels))
      ≡ (if stays k then or_else (lookup k ((j, v) ∷ input)) (lookup k labels) else lookup k labels)
unfolding lookup
label_step k j v input labels fresh = elim (Bool-cases (j == k)) [
  | inl same ↦
      let e : j ≡ k = ground (arith, same) in
      let gone : lookup k input ≡ none = ap (λ i. lookup i input) (sym e) ∙ fresh in
      let alike : stays j ≡ stays k = ap stays e in
      elim (Bool-cases (stays j)) [
        | inl left ↦
            rw (left, sym alike, same)
              (rw left (ground (arith, same, gone, lookup-insert j k v labels)))
        | inr dropped ↦ rw (dropped, sym alike, same) (rw dropped refl)
      ]
  | inr apart ↦ elim (Bool-cases (stays j)) [
    | inl left ↦ rw (left, apart) (ground (arith, apart, lookup-insert j k v labels))
    | inr dropped ↦ rw (dropped, apart) refl
  ]
]

lookup-split_labels_from :
    (k : Str) (input labels : Dict Str) (annotations : Option (Dict Str))
    → NodupKeys input
    → lookup k (split_labels input labels annotations).0
      ≡ (if stays k then or_else (lookup k input) (lookup k labels) else lookup k labels)
unfolding split_labels lookup
lookup-split_labels_from k [] labels annotations u = ground arith
lookup-split_labels_from k ((j, v) ∷ input) labels annotations (fresh, u) =
    let annotations' : Option (Dict Str) =
      if has_prefix j annotation_prefix
      then some (insert (trim_prefix j annotation_prefix) v (annotations_or_empty annotations))
      else annotations in
    let ih =
      lookup-split_labels_from k input (if stays j then insert j v labels else labels) annotations'
        u in
    ih ∙ label_step k j v input labels fresh

-- Each label that is neither an annotation nor a type of container stays as it is, and no other
-- label is left.
pub lookup-split_labels :
    (k : Str) (input : Dict Str) (annotations : Option (Dict Str))
    → NodupKeys input
    → lookup k (split_labels input [] annotations).0 ≡ (if stays k then lookup k input else none)
unfolding lookup
lookup-split_labels k input annotations u =
    ground (arith, lookup-split_labels_from k input [] annotations u)
