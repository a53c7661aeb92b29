-- ===== src/Ctrd/Proxy/Exempt.antt =====
-- ctrd/image_proxy_util.go: the entries of NO_PROXY, against hosts and their domains.
use d2p_migrator.Prelude.{
  ℕ, suc, ◌+◌, ◌-◌, ◌≡◌, refl, Bool, true, false, [], ◌∷◌, ◌++◌, Str, ◌⊎◌, inl, inr, ◌≢◌, dec_str,
  eqb, ltb, if◌then◌else◌, arith, length, has_suffix, Bool-cases, append_assoc, length-append,
}
use d2p_migrator.Prelude.Strings.{has_suffix-true, has_suffix-append, snoc-cases, get_elem?-length}
use d2p_migrator.Prelude.Result.{Result, ok}
use d2p_migrator.Ctrd.Proxy.{dot_before, exempts}

-- `addr` is the domain or one of its subdomains.
abbrev pub Within : Str → Str → Type 0
Within addr domain = (addr ≡ domain) ⊎ ((before : Str) × (addr ≡ before ++ (b'.' ∷ domain)))

-- An entry without the dot it may begin with.
abbrev pub bare : Str → Str
bare [] = []
bare (c ∷ p) = if eqb c b'.' then p else c ∷ p

-- The hosts that an entry stands for: itself, and what is within its domain.
abbrev pub Covers : Str → Str → Type 0
Covers addr p = (addr ≡ p) ⊎ ((p ≢ []) × Within addr (bare p))

dot_before-snoc :
    (front : Str) (d : ℕ) (p : Str) → dot_before ((front ++ (d ∷ [])) ++ p) p ≡ ok (eqb d b'.')
unfolding dot_before
dot_before-snoc front d p =
    let assoc : (front ++ (d ∷ [])) ++ p ≡ front ++ (d ∷ p) = append_assoc front (d ∷ []) p in
    let size : length (front ++ (d ∷ p)) ≡ length front + suc (length p) =
      length-append front (d ∷ p) in
    let at : length (front ++ (d ∷ p)) - length p - 1 ≡ length front = omega (arith, size) in
    let longer : ltb (length p) (length (front ++ (d ∷ p))) ≡ true = ground (arith, size) in
    rw (assoc, at, longer, get_elem?-length front d p) refl

-- Below a domain, the character in front of it is a dot.
dot_before-dot : (before p : Str) → dot_before (before ++ (b'.' ∷ p)) p ≡ ok true
dot_before-dot before p = rw (← append_assoc before (b'.' ∷ []) p) (dot_before-snoc before b'.' p)

-- `addr` ends in a dot and the domain.
abbrev pub Below : Str → Str → Type 0
Below addr domain = (before : Str) × (addr ≡ before ++ (b'.' ∷ domain))

-- A test's answer is right about `P`, and it is no panic.
abbrev pub Decided {κ} : Result Bool → Type κ → Type κ
Decided r P = ((r ≡ ok true) × P) ⊎ ((r ≡ ok false) × ¬ P)

dot_before-Below :
    (addr p : Str)
    → has_suffix addr p ≡ true
    → addr ≢ p
    → Decided (dot_before addr p) (Below addr p)
dot_before-Below addr p suffix differ =
    let (before, e) = has_suffix-true addr p suffix in
    elim (snoc-cases before) [
      | inl empty ↦ absurd (differ (rw (e, empty) refl))
      | inr (front, d, e') ↦
          let last : dot_before addr p ≡ ok (eqb d b'.') = rw (e, e') (dot_before-snoc front d p) in
          elim (Bool-cases (eqb d b'.')) [
            | inl dot ↦ inl (
              rw last (rw dot refl),
              (front, ground (arith, e, e', dot, append_assoc front (d ∷ []) p)),
            )
            | inr other ↦ inr (
              rw last (rw other refl),
              λ (b, f). ground (arith, other, last, dot_before-dot b p, f),
            )
          ]
    ]

cons-ne-nil : (c : ℕ) (p : Str) → (c ∷ p) ≢ []
cons-ne-nil c p e = cc

exempts-dotted :
    (addr p : Str) → addr ≢ (b'.' ∷ p) → Decided (exempts addr (b'.' ∷ p)) (Covers addr (b'.' ∷ p))
unfolding exempts
exempts-dotted addr p differ = elim (Bool-cases (has_suffix addr (b'.' ∷ p))) [
  | inl suffix ↦ inl (
    ground (arith, suffix),
    inr (cons-ne-nil b'.' p, inr (has_suffix-true addr (b'.' ∷ p) suffix)),
  )
  | inr outside ↦ elim (dec_str addr p) [
    | yes same ↦ inl (ground (arith, same, differ), inr (cons-ne-nil b'.' p, inl same))
    | no other ↦ inr (
      ground (arith, other, outside, differ),
      λ covered. elim covered [
        | inl whole ↦ differ whole
        | inr (_, inl domain) ↦ other domain
        | inr (_, inr (b, e)) ↦ ground (arith, e, outside, has_suffix-append b (b'.' ∷ p))
      ],
    )
  ]
]

has_suffix-below :
    (before : Str) (c : ℕ) (p : Str) → has_suffix (before ++ (b'.' ∷ (c ∷ p))) (c ∷ p) ≡ true
has_suffix-below before c p =
    rw (← append_assoc before (b'.' ∷ []) (c ∷ p))
      (has_suffix-append (before ++ (b'.' ∷ [])) (c ∷ p))

exempts-undotted :
    (addr : Str) (c : ℕ) (p : Str)
    → eqb c b'.' ≡ false
    → addr ≢ (c ∷ p)
    → Decided (exempts addr (c ∷ p)) (Covers addr (c ∷ p))
unfolding exempts
exempts-undotted addr c p undotted differ = elim (Bool-cases (has_suffix addr (c ∷ p))) [
  | inl suffix ↦ elim (dot_before-Below addr (c ∷ p) suffix differ) [
    | inl (e, below) ↦ inl (
      ground (arith, e, suffix, undotted, differ),
      inr (cons-ne-nil c p, rw undotted (inr below)),
    )
    | inr (e, apart) ↦
        inr (ground (arith, e, suffix, undotted, differ), λ covered. apart (below_of covered))
  ]
  | inr outside ↦ inr (
    ground (arith, outside, undotted, differ),
    λ covered.
        ground (arith, (below_of covered).1, outside, has_suffix-below (below_of covered).0 c p),
  )
]
  where
    below_of : Covers addr (c ∷ p) → Below addr (c ∷ p)
    below_of (inl whole) = absurd (differ whole)
    below_of (inr (_, within)) = elim (rw undotted at within) [
      | inl whole ↦ absurd (differ whole)
      | inr below ↦ below
    ]

-- An entry's test never panics, and it holds exactly of the hosts that the entry stands for.
pub exempts-Covers : (addr p : Str) → Decided (exempts addr p) (Covers addr p)
unfolding exempts
exempts-Covers addr [] = elim (dec_str addr []) [
  | yes same ↦ inl (ground (arith, same), inl same)
  | no differ ↦ inr (
    ground (arith, differ),
    λ covered. elim covered [ inl same ↦ differ same | inr (filled, _) ↦ filled refl ],
  )
]
exempts-Covers addr (c ∷ p) = elim (dec_str addr (c ∷ p)) [
  | yes same ↦ inl (ground (arith, same), inl same)
  | no differ ↦ elim (Bool-cases (eqb c b'.')) [
    | inl dot ↦
        let e : c ≡ b'.' = ground (arith, dot) in
        rw e (exempts-dotted addr p (λ f. differ (rw e f)))
    | inr undotted ↦ exempts-undotted addr c p undotted differ
  ]
]
