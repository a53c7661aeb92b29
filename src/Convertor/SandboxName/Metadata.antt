-- ===== src/Convertor/SandboxName/Metadata.antt =====
-- pouch/convertor/cri.go: what `getPodSandboxMetadataBySandboxName` reads from a name.
use d2p_migrator.Prelude.{
  ℕ, ◌+◌, ◌-◌, ◌*◌, ◌≤◌, ◌≡◌, ◌≢◌, refl, ap, ◌∙◌, true, false, [], ◌∷◌, ◌++◌, Str, ltb,
  if◌then◌else◌, str, split, arith, Bool-cases, inl, inr, ◌⊎◌,
}
use d2p_migrator.Prelude.Numbers.{parse_uint32, parse_digits, range_error, max_u32}
use d2p_migrator.Prelude.Result.{Error, Result, ok, err, panic, errorf, quoted}
use d2p_migrator.Pouch.{PodSandboxMetadata}
use d2p_migrator.Convertor.SandboxName.{
  pod_prefix, sandbox_name_match, metadata_of_parts, get_pod_sandbox_metadata_by_sandbox_name,
}
use d2p_migrator.Convertor.SandboxName.Form.{
  all_digits, are_parts, filled, sandbox_name, split-parts, sandbox_name_match-form,
}

-- The number that the digits write, behind those that are read already.
abbrev pub value : Str → ℕ → ℕ
value [] n = n
value (c ∷ s) n = value s (n * 10 + (c - b'0'))

le-value : (s : Str) (n : ℕ) → n ≤ value s n
le-value [] n = omega arith
le-value (c ∷ s) n = ground (arith, le-value s (n * 10 + (c - b'0')))

parse_digits-value :
    (fn whole s : Str) (max n : ℕ)
    → all_digits s ≡ true
    → n ≤ max
    → parse_digits fn whole max s n
      ≡ (if ltb max (value s n) then errorf (range_error fn whole) else ok (value s n))
unfolding parse_digits
parse_digits-value fn whole [] max n h small = ground arith
parse_digits-value fn whole (c ∷ s) max n h small = ground (
  arith,
  parse_digits-value fn whole s max (n * 10 + (c - b'0')),
  le-value s (n * 10 + (c - b'0')),
)

parse_uint32-value :
    (s : Str)
    → filled s ≡ true
    → all_digits s ≡ true
    → parse_uint32 s ≡ (
        if ltb max_u32 (value s 0)
        then errorf (range_error (str "ParseUint") s)
        else ok (value s 0))
unfolding parse_uint32
parse_uint32-value [] h d = absurd (ground (arith, h))
parse_uint32-value (c ∷ s) h d =
    parse_digits-value (str "ParseUint") (c ∷ s) (c ∷ s) max_u32 0 d (omega arith)

split-pod_prefix : (s : Str) → split b'_' (pod_prefix ++ s) ≡ str "k8s" ∷ str "POD" ∷ split b'_' s
unfolding split str
split-pod_prefix s = refl

-- The message where the number is too large.
abbrev pub too_large : Str → Str → Str
too_large name n =
    (str "failed to parse the attempt times in sandbox name: " ++ quoted name ++ str ": ")
    ++ range_error (str "ParseUint") n

metadata_of_parts-number :
    (whole a b c n : Str)
    → filled n ≡ true
    → all_digits n ≡ true
    → metadata_of_parts whole (str "k8s" ∷ str "POD" ∷ a ∷ b ∷ c ∷ n ∷ []) ≡ (
        if ltb max_u32 (value n 0)
        then errorf (too_large whole n)
        else ok (record { name = a; namespace = b; uid = c; attempt = value n 0 }))
unfolding metadata_of_parts
metadata_of_parts-number whole a b c n some_digits digits =
    rw (parse_uint32-value n some_digits digits) (ground arith)

-- From a name of the form `k8s_POD_<a>_<b>_<c>_<n>` the parts are read back: `a` is the name, `b` the
-- namespace, `c` the uid and the number that `n` writes the attempt, unless that is above 2^32 - 1,
-- which is an error.
pub metadata-sandbox_name :
    (a b c n : Str)
    → are_parts a b c n ≡ true
    → get_pod_sandbox_metadata_by_sandbox_name (sandbox_name a b c n) ≡ (
        if ltb max_u32 (value n 0)
        then errorf (too_large (sandbox_name a b c n) n)
        else ok (record { name = a; namespace = b; uid = c; attempt = value n 0 }))
unfolding get_pod_sandbox_metadata_by_sandbox_name
metadata-sandbox_name a b c n full =
    let rest = a ++ b'_' ∷ (b ++ b'_' ∷ (c ++ b'_' ∷ n)) in
    let matched : sandbox_name_match (sandbox_name a b c n) ≡ true =
      (sandbox_name_match-form (sandbox_name a b c n)).1 (a, b, c, n, refl, full) in
    let parts : split b'_' (sandbox_name a b c n) ≡ str "k8s" ∷ str "POD" ∷ a ∷ b ∷ c ∷ n ∷ [] =
      split-pod_prefix rest ∙ ap (λ ps. str "k8s" ∷ str "POD" ∷ ps) (split-parts a b c n full) in
    let digits : all_digits n ≡ true = ground (arith, full) in
    let some_digits : filled n ≡ true = ground (arith, full) in
    rw (matched, parts) (metadata_of_parts-number (sandbox_name a b c n) a b c n some_digits digits)

unmatched-metadata :
    (name : Str)
    → sandbox_name_match name ≡ false
    → (e : Error) × (get_pod_sandbox_metadata_by_sandbox_name name ≡ err e)
unfolding get_pod_sandbox_metadata_by_sandbox_name
unmatched-metadata name unmatched = rw unmatched (_, refl)

-- The two outcomes of a name that matches.
abbrev Outcome : Str → Result PodSandboxMetadata → Type 0
Outcome name r =
    (r ≢ panic)
    × (((e : Error) × (r ≡ err e))
        ⊎ ((m : PodSandboxMetadata) × (n : Str) × (r ≡ ok m)
            × (name ≡ sandbox_name m.name m.namespace m.uid n)
            × (m.attempt ≤ max_u32)))

matched-metadata :
    (a b c n : Str)
    → are_parts a b c n ≡ true
    → Outcome
        (sandbox_name a b c n)
        (get_pod_sandbox_metadata_by_sandbox_name (sandbox_name a b c n))
matched-metadata a b c n full = elim (Bool-cases (ltb max_u32 (value n 0))) [
  | inl large ↦
      let e : get_pod_sandbox_metadata_by_sandbox_name (sandbox_name a b c n)
          ≡ errorf (too_large (sandbox_name a b c n) n) =
        ground (arith, metadata-sandbox_name a b c n full, large) in
      rw e (λ h. absurd (ground (arith, h)), inl (_, refl))
  | inr small ↦
      let e : get_pod_sandbox_metadata_by_sandbox_name (sandbox_name a b c n)
          ≡ ok (record { name = a; namespace = b; uid = c; attempt = value n 0 }) =
        ground (arith, metadata-sandbox_name a b c n full, small) in
      rw e (λ h. absurd (ground (arith, h)), inr (_, n, refl, refl, ground (arith, small)))
]

-- No name makes the function panic: where it indexes the parts of a name, the name matches and has
-- six parts. A result has an attempt of at most 2^32 - 1, and its name, namespace and uid, with the
-- number, are the name's parts.
pub metadata-safe :
    (name : Str)
    → (get_pod_sandbox_metadata_by_sandbox_name name ≢ panic)
      × (((e : Error) × (get_pod_sandbox_metadata_by_sandbox_name name ≡ err e))
          ⊎ ((m : PodSandboxMetadata) × (n : Str) × (get_pod_sandbox_metadata_by_sandbox_name name
                ≡ ok m)
              × (name ≡ sandbox_name m.name m.namespace m.uid n)
              × (m.attempt ≤ max_u32)))
metadata-safe name = elim (Bool-cases (sandbox_name_match name)) [
  | inr unmatched ↦
      let (e, refused) = unmatched-metadata name unmatched in
      ((λ h. absurd (ground (arith, h, refused))), inl (e, refused))
  | inl matched ↦
      let (a, b, c, n, same, full) = (sandbox_name_match-form name).0 matched in
      rw same (matched-metadata a b c n full)
]
