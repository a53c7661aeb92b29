-- ===== src/Ctrd/Converter/Labels.antt =====
-- ctrd/image/converter.go: the labels that keep what a manifest refers to.
use d2p_migrator.Prelude.{
  ℕ, zero, suc, ◌+◌, ◌<◌, ◌≡◌, refl, sym, ap, ◌∙◌, List, [], ◌∷◌, ◌++◌, Option, none, some, Str,
  str, true, false, ◌==◌, eqb, if◌then◌else◌, arith, map, Bool-cases, inl, inr, get_elem?,
  strip_prefix, strip_prefix-append,
}
use d2p_migrator.Prelude.Int.{print_nat}
use d2p_migrator.Prelude.Int.Digits.{print_nat-injective}
use d2p_migrator.Prelude.Dict.{Dict, lookup, insert, lookup-insert}
use d2p_migrator.Ctrd.Types.{Descriptor, OciManifest}
use d2p_migrator.Ctrd.Converter.{layer_labels, gc_labels}

abbrev pub ref_prefix : Str
ref_prefix = str "containerd.io/gc.ref.content."

-- The label of the `n`-th reference.
abbrev pub ref_label : ℕ → Str
ref_label n = ref_prefix ++ print_nat n

ref_label-same : (m n : ℕ) → (ref_label m == ref_label n) ≡ eqb m n
ref_label-same m n = elim (Bool-cases (ref_label m == ref_label n)) [
  | inl same ↦
      let e : ref_label m ≡ ref_label n = ground (arith, same) in
      let stripped : some (print_nat m) ≡ some (print_nat n) =
        sym (strip_prefix-append ref_prefix (print_nat m))
        ∙ ap (strip_prefix ref_prefix) e
        ∙ strip_prefix-append ref_prefix (print_nat n) in
      let eq : m ≡ n = print_nat-injective m n (ground (arith, stripped)) in
      ground (arith, same, eq)
  | inr apart ↦ elim (Bool-cases (eqb m n)) [
    | inl same ↦
        let e : m ≡ n = ground (arith, same) in
        let label : ref_label m ≡ ref_label n = ap ref_label e in
        absurd (ground (arith, apart, label))
    | inr differ ↦ apart ∙ sym differ
  ]
]

-- What the layers say of label `i`, if the first of them has label `n`.
at : ℕ → List Descriptor → ℕ → Option Str → Option Str
at n [] i known = known
at n (l ∷ ls) i known = at (suc n) ls i (if eqb n i then some l.digest else known)

lookup-layer_labels :
    (n : ℕ) (ls : List Descriptor) (labels : Dict Str) (i : ℕ)
    → lookup (ref_label i) (layer_labels n ls labels) ≡ at n ls i (lookup (ref_label i) labels)
unfolding layer_labels at
lookup-layer_labels n [] labels i = refl
lookup-layer_labels n (l ∷ ls) labels i =
    lookup-layer_labels (suc n) ls (insert (ref_label n) l.digest labels) i
    ∙ ap (at (suc n) ls i) (
        lookup-insert (ref_label n) (ref_label i) l.digest labels
        ∙ ap (λ b. if b then some l.digest else lookup (ref_label i) labels) (ref_label-same n i))

-- Layers behind a label do not change it.
at-below :
    (n : ℕ) (ls : List Descriptor) (i : ℕ) (known : Option Str) → i < n → at n ls i known ≡ known
unfolding at
at-below n [] i known h = refl
at-below n (l ∷ ls) i known h = ground (arith, h, at-below (suc n) ls i known (omega (arith, h)))

digests : List Descriptor → List Str
digests ls = map (λ (d : Descriptor). d.digest) ls

at-get_elem? :
    (n : ℕ) (ls : List Descriptor) (k : ℕ) → at n ls (n + k) none ≡ get_elem? (digests ls) k
unfolding at digests
at-get_elem? n [] k = refl
at-get_elem? n (l ∷ ls) zero =
    let here : eqb n (n + 0) ≡ true = ground arith in
    rw here (at-below (suc n) ls (n + 0) (some l.digest) (omega arith))
at-get_elem? n (l ∷ ls) (suc k) =
    let later : eqb n (n + suc k) ≡ false = ground arith in
    let next : n + suc k ≡ suc n + k = omega arith in
    rw later (ap (λ i. at (suc n) ls i none) next ∙ at-get_elem? (suc n) ls k)

-- What a manifest refers to: its configuration, and then its layers.
abbrev pub references : OciManifest → List Str
references m = m.config.digest ∷ map (λ (d : Descriptor). d.digest) m.layers

-- Label `i` is the digest of the `i`-th reference, and there is no such label behind the last one.
abbrev pub Labelled : OciManifest → Dict Str → Type 0
Labelled m labels = (i : ℕ) → lookup (ref_label i) labels ≡ get_elem? (references m) i

labels-start :
    (d : Str) (i : ℕ)
    → lookup (ref_label i) (insert (str "containerd.io/gc.ref.content.0") d [])
      ≡ (if eqb 0 i then some d else none)
unfolding lookup print_nat str
labels-start d i =
    lookup-insert (ref_label 0) (ref_label i) d []
    ∙ ap (λ b. if b then some d else none) (ref_label-same 0 i)

pub gc_labels-Labelled : (m : OciManifest) → Labelled m (gc_labels m)
unfolding gc_labels digests
gc_labels-Labelled m zero =
    lookup-layer_labels 1 m.layers _ 0
    ∙ (at-below 1 m.layers 0 _ (omega arith) ∙ labels-start m.config.digest 0)
gc_labels-Labelled m (suc i) =
    lookup-layer_labels 1 m.layers _ (suc i)
    ∙ (ap (at 1 m.layers (suc i)) (none_above m.config.digest i)
        ∙ (ap (λ k. at 1 m.layers k none) next ∙ at-get_elem? 1 m.layers i))
  where
    none_above :
        (d : Str) (k : ℕ)
        → lookup (ref_label (suc k)) (insert (str "containerd.io/gc.ref.content.0") d []) ≡ none
    none_above d k =
        let differ : eqb 0 (suc k) ≡ false = ground arith in
        labels-start d (suc k) ∙ ap (λ b. if b then some d else none) differ

    next : suc i ≡ 1 + i
    next = omega arith
