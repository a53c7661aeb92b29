-- ===== src/Convertor/Sandbox/Annotations.antt =====
-- pouch/convertor/cri.go: the labels of a sandbox's container that become annotations.
use d2p_migrator.Prelude.{
  false, [], ◌∷◌, ◌++◌, ◌≡◌, refl, sym, ap, ◌∙◌, Option, none, some, Str, ◌==◌, arith,
  if◌then◌else◌, has_prefix, trim_prefix, strip_prefix, strip_prefix-append, strip_prefix-some,
  Option-cases, str, Bool-cases, inl, inr,
}
use d2p_migrator.Prelude.Dict.{Dict, lookup, insert, lookup-insert, NodupKeys}
use d2p_migrator.Convertor.Sandbox.{annotation_prefix, annotations_or_empty, split_labels}
use d2p_migrator.Convertor.Sandbox.Labels.{or_else, stays, lookup-split_labels}

abbrev annotated : Str → Str → Option (Dict Str) → Option (Dict Str)
annotated j v annotations =
    if has_prefix j annotation_prefix
    then some (insert (trim_prefix j annotation_prefix) v (annotations_or_empty annotations))
    else annotations

prefixed-same : (rest k : Str) → (rest == k) ≡ (annotation_prefix ++ rest == annotation_prefix ++ k)
prefixed-same rest k = elim (Bool-cases (annotation_prefix ++ rest == annotation_prefix ++ k)) [
  | inl same ↦
      let e : annotation_prefix ++ rest ≡ annotation_prefix ++ k = ground (arith, same) in
      let stripped : some rest ≡ some k =
        sym (strip_prefix-append annotation_prefix rest)
        ∙ ap (strip_prefix annotation_prefix) e
        ∙ strip_prefix-append annotation_prefix k in
      ground (arith, same, stripped)
  | inr apart ↦ ground (arith, apart)
]

not_prefixed :
    (k j : Str) → strip_prefix annotation_prefix j ≡ none → (j == annotation_prefix ++ k) ≡ false
not_prefixed k j e = elim (Bool-cases (j == annotation_prefix ++ k)) [
  | inl same ↦
      let eq : j ≡ annotation_prefix ++ k = ground (arith, same) in
      let stripped : strip_prefix annotation_prefix j ≡ some k =
        ap (strip_prefix annotation_prefix) eq ∙ strip_prefix-append annotation_prefix k in
      absurd (ground (arith, e, stripped))
  | inr apart ↦ apart
]

prefixed :
    (k j rest : Str)
    → strip_prefix annotation_prefix j ≡ some rest
    → (j == annotation_prefix ++ k) ≡ (rest == k)
prefixed k j rest e =
    ap (λ (s : Str). s == annotation_prefix ++ k) (strip_prefix-some annotation_prefix j rest e)
    ∙ sym (prefixed-same rest k)

lookup-annotated :
    (k j v : Str) (annotations : Option (Dict Str))
    → lookup k (annotations_or_empty (annotated j v annotations)) ≡ (
        if j == annotation_prefix ++ k then some v else lookup k (annotations_or_empty annotations))
unfolding annotations_or_empty has_prefix trim_prefix lookup str
lookup-annotated k j v annotations = elim (Option-cases (strip_prefix annotation_prefix j)) [
  | inl e ↦ rw (not_prefixed k j e, e) refl
  | inr (rest, e) ↦
      rw (prefixed k j rest e, e) (lookup-insert rest k v (annotations_or_empty annotations))
]

lookup-split_annotations :
    (k : Str) (input labels : Dict Str) (annotations : Option (Dict Str))
    → NodupKeys input
    → lookup k (annotations_or_empty (split_labels input labels annotations).1)
      ≡ or_else
          (lookup (annotation_prefix ++ k) input)
          (lookup k (annotations_or_empty annotations))
unfolding split_labels lookup
lookup-split_annotations k [] labels annotations u = refl
lookup-split_annotations k ((j, v) ∷ input) labels annotations (fresh, u) =
    lookup-split_annotations k input (if stays j then insert j v labels else labels)
      (annotated j v annotations) u
    ∙ elim (Bool-cases (j == annotation_prefix ++ k)) [
      | inl same ↦
          let e : j ≡ annotation_prefix ++ k = ground (arith, same) in
          let gone : lookup (annotation_prefix ++ k) input ≡ none =
            ap (λ i. lookup i input) (sym e) ∙ fresh in
          rw (lookup-annotated k j v annotations, same, gone) refl
      | inr apart ↦ rw (lookup-annotated k j v annotations, apart) refl
    ]

-- A sandbox keeps each label of its container that is neither an annotation nor a type of container, and no other. Its
-- annotations are those of the container's specification and each label that begins with `annotation.`, under the rest of
-- its name; where both have an annotation, the label wins. A map of labels has a key once, and their order does not matter.
pub lookup-split :
    (k : Str) (input : Dict Str) (annotations : Option (Dict Str))
    → NodupKeys input
    → (lookup k (split_labels input [] annotations).0 ≡ (if stays k then lookup k input else none))
      × (lookup k (annotations_or_empty (split_labels input [] annotations).1)
          ≡ or_else
              (lookup (annotation_prefix ++ k) input)
              (lookup k (annotations_or_empty annotations)))
lookup-split k input annotations u =
    (lookup-split_labels k input annotations u, lookup-split_annotations k input [] annotations u)
