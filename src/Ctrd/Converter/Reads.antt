-- ===== src/Ctrd/Converter/Reads.antt =====
-- ctrd/image/converter.go: when reading a manifest panics.
use d2p_migrator.Prelude.{
  ℕ, ◌≡◌, ◌≢◌, some, List, [], ◌∷◌, Str, inl, inr, arith, length, eqb, Bool-cases,
}
use d2p_migrator.Prelude.Int.{negsuc}
use d2p_migrator.Prelude.Result.{ok, panic, Result-cases}
use d2p_migrator.Ctrd.Types.{Descriptor, FsLayer, History, Manifest, Converter, ProtectedBlock}
use d2p_migrator.Ctrd.Jose.{strip_signature}
use d2p_migrator.Ctrd.Jose.Strip.{Signed, strip_signature-Outcome}
use d2p_migrator.Ctrd.Converter.{limited, is_empty_layer}
use d2p_migrator.Ctrd.Converter.Handle.{
  note_blob, note_blobs, note_manifest, fetch_manifest, handle,
}
use d2p_migrator.Ctrd.Converter.Consistent.{fetch_manifest-ok}
use d2p_migrator.World.{Host, Trace, fetch}

-- The registry and the decoders of a manifest return errors, and do not panic.
pub record Legible (host : Host) : Type 0 where
  pub fetch_safe : (t : Trace) → host.fetch t ≢ panic
  pub decode_schema1_safe : (s : Str) → host.decode_schema1 s ≢ panic
  pub decode_v1_history_safe : (s : Str) → host.decode_v1_history s ≢ panic
  pub decode_signatures_safe : (s : Str) → host.decode_signatures s ≢ panic
  pub decode_protected_safe : (s : Str) → host.decode_protected s ≢ panic

-- The registry has answered the fetch of a descriptor with a text whose first signature states a negative length.
abbrev pub Forged : Host → Descriptor → Trace → Type 0
Forged host d t =
    (b : Str) × (host.fetch (fetch d ∷ t) ≡ ok b)
    × (block : ProtectedBlock) × (tail : Str) × Signed host (limited b) block tail
    × (n : ℕ) × (block.length ≡ negsuc n)

module _ (host : Host) (legible : Legible host) where
  strip_signature-panic :
      (b : Str)
      → strip_signature host b ≡ panic
      → (block : ProtectedBlock) × (tail : Str) × Signed host b block tail
        × (n : ℕ) × (block.length ≡ negsuc n)
  strip_signature-panic b p =
      let outcome =
        strip_signature-Outcome host legible.decode_signatures_safe legible.decode_protected_safe
          b in
      (rw p at outcome)

  fetch_manifest-panic :
      (d : Descriptor) (c : Converter) (t : Trace)
      → (fetch_manifest host d c t).0 ≡ panic
      → Forged host d t
  unfolding fetch_manifest
  fetch_manifest-panic d c t p = elim (Result-cases (host.fetch (fetch d ∷ t))) [
    | inl (b, e) ↦ elim (Result-cases (strip_signature host (limited b))) [
      | inl (s, e') ↦ absurd (ground (arith, p, e, e', legible.decode_schema1_safe s))
      | inr (inl (_, e')) ↦ absurd (ground (arith, p, e, e'))
      | inr (inr e') ↦
          let (block, tail, signed, n, negative) = strip_signature-panic (limited b) e' in
          (b, e, block, tail, signed, n, negative)
    ]
    | inr (inl (_, e)) ↦ absurd (ground (arith, p, e))
    | inr (inr e) ↦ absurd (legible.fetch_safe (fetch d ∷ t) e)
  ]

  note_blob-safe :
      (l : FsLayer) (h : History) (hs : List History) (c : Converter) (t : Trace)
      → (note_blob host l (h ∷ hs) c t).0 ≢ panic
  unfolding note_blob is_empty_layer
  note_blob-safe l h hs c t =
      λ p. ground (arith, p, legible.decode_v1_history_safe h.v1_compatibility)

  note_blobs-safe :
      (ls : List FsLayer) (hs : List History) (c : Converter) (t : Trace)
      → length ls ≡ length hs
      → (note_blobs host ls hs c t).0 ≢ panic
  unfolding note_blobs
  note_blobs-safe [] hs c t e = λ p. cc
  note_blobs-safe (l ∷ ls) [] c t e = absurd (omega arith)
  note_blobs-safe (l ∷ ls) (h ∷ hs) c t e =
      let (_, c', t') = note_blob host l (h ∷ hs) c t in
      λ p. ground (arith, p, note_blob-safe l h hs c t, note_blobs-safe ls hs c' t' (omega arith))

  note_manifest-safe :
      (m : Manifest) (c : Converter) (t : Trace) → (note_manifest host m c t).0 ≢ panic
  unfolding note_manifest
  note_manifest-safe m c t p = elim (Bool-cases (eqb (length m.fs_layers) (length m.history))) [
    | inl paired ↦
        let e : length m.fs_layers ≡ length m.history = ground (arith, paired) in
        ground (arith, p, paired, note_blobs-safe m.fs_layers m.history c t e)
    | inr odd ↦ ground (arith, p, odd)
  ]

  -- `Handle` panics only at a forged signature.
  pub handle-panic :
      (d : Descriptor) (c : Converter) (t : Trace) → (handle host d c t).0 ≡ panic → Forged host d t
  unfolding handle
  handle-panic d c t p = elim (Result-cases ((fetch_manifest host d c t).0)) [
    | inl (_, e) ↦
        let (m, e') = fetch_manifest-ok host d c t e in
        let t' : Trace = (fetch_manifest host d c t).2 in
        let noted = note_manifest-safe m (record c { pulled_manifest = some m }) t' in
        absurd (ground (arith, p, e, e', noted))
    | inr (inl (_, e)) ↦ absurd (ground (arith, p, e))
    | inr (inr e) ↦ fetch_manifest-panic d c t e
  ]
