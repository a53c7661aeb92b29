-- ===== src/Ctrd/Converter/Consistent.antt =====
-- ctrd/image/converter.go: the state in which `Handle` leaves the converter.
use d2p_migrator.Prelude.{
  ◌≡◌, refl, ◌∙◌, List, [], ◌∷◌, some, inl, inr, eqb, arith, length, Bool-cases,
}
use d2p_migrator.Prelude.Result.{ok, Result-cases}
use d2p_migrator.Ctrd.Types.{Descriptor, Manifest, Converter}
use d2p_migrator.Ctrd.Jose.{strip_signature}
use d2p_migrator.Ctrd.Converter.{media_schema1_manifest, limited}
use d2p_migrator.Ctrd.Converter.Grown.{Noted, Unidentified, Grown, note_blobs-Grown}
use d2p_migrator.Ctrd.Converter.Handle.{note_blobs, note_manifest, fetch_manifest, handle}
use d2p_migrator.World.{Host, Trace, fetch}

-- A manifest is there, with a history for each layer, and with every blob noted.
pub record Consistent (c : Converter) : Type 0 where
  pub manifest : Manifest
  pub pulled : c.pulled_manifest ≡ some manifest
  pub paired : length manifest.fs_layers ≡ length manifest.history
  pub noted : Noted manifest.fs_layers c.blob_map
  pub unidentified : Unidentified c.blob_map

module _ (host : Host) where
  -- What a fetch that succeeds changes.
  pub fetch_manifest-ok :
      (desc : Descriptor) (c : Converter) (t : Trace)
      → (fetch_manifest host desc c t).0 ≡ ok tt
      → (m : Manifest) × ((fetch_manifest host desc c t).1 ≡ record c { pulled_manifest = some m })
  unfolding fetch_manifest
  fetch_manifest-ok desc c t h = elim (Result-cases (host.fetch (fetch desc ∷ t))) [
    | inl (b, e) ↦ elim (Result-cases (strip_signature host (limited b))) [
      | inl (s, e') ↦ elim (Result-cases (host.decode_schema1 s)) [
        | inl (m, e'') ↦ (m, rw (e, e', e'') refl)
        | inr (inl (_, e'')) ↦ absurd (ground (arith, h, e, e', e''))
        | inr (inr e'') ↦ absurd (ground (arith, h, e, e', e''))
      ]
      | inr (inl (_, e')) ↦ absurd (ground (arith, h, e, e'))
      | inr (inr e') ↦ absurd (ground (arith, h, e, e'))
    ]
    | inr (inl (_, e)) ↦ absurd (ground (arith, h, e))
    | inr (inr e) ↦ absurd (ground (arith, h, e))
  ]

  -- Where `Handle` succeeds on a manifest of schema 1, it has read one, and has gone through its layers.
  handle-ok :
      (desc : Descriptor) (c : Converter) (t : Trace) (ds : List Descriptor)
      → desc.media_type ≡ media_schema1_manifest
      → (handle host desc c t).0 ≡ ok ds
      → (m : Manifest) × (t' : Trace) × (handle host desc c t
          ≡ note_manifest host m (record c { pulled_manifest = some m }) t')
  unfolding handle
  handle-ok desc c t ds schema1 h = elim (Result-cases ((fetch_manifest host desc c t).0)) [
    | inl (_, e) ↦
        let (m, e') = fetch_manifest-ok desc c t e in
        (m, (fetch_manifest host desc c t).2, ground (arith, schema1, e, e'))
    | inr (inl (_, e)) ↦ absurd (ground (arith, h, e, schema1))
    | inr (inr e) ↦ absurd (ground (arith, h, e, schema1))
  ]

  note_manifest-Consistent :
      (m : Manifest) (c : Converter) (t : Trace) (ds : List Descriptor)
      → c.pulled_manifest ≡ some m
      → Unidentified c.blob_map
      → (note_manifest host m c t).0 ≡ ok ds
      → Consistent ((note_manifest host m c t).1) × (ds ≡ [])
  unfolding note_manifest
  note_manifest-Consistent m c t ds pulled u h =
      elim (Bool-cases (eqb (length m.fs_layers) (length m.history))) [
        | inl paired ↦ elim (Result-cases ((note_blobs host m.fs_layers m.history c t).0)) [
          | inl (_, e) ↦
              let g : Grown m.fs_layers c ((note_blobs host m.fs_layers m.history c t).1) =
                note_blobs-Grown host m.fs_layers m.history c t e in
              (
                rw (paired, e)
                    (record {
                      manifest = m;
                      pulled = g.same_manifest ∙ pulled;
                      paired = ground (arith, paired);
                      noted = g.all_noted;
                      unidentified = g.still_unidentified u;
                    }),
                ground (arith, h, e, paired),
              )
          | inr (inl (_, e)) ↦ absurd (ground (arith, h, e, paired))
          | inr (inr e) ↦ absurd (ground (arith, h, e, paired))
        ]
        | inr odd ↦ absurd (ground (arith, h, odd))
      ]

  -- Where `Handle` succeeds on a manifest of schema 1, and no blob had an id of its content before, as in a new converter,
  -- the converter is consistent: it
  -- holds a manifest with as many histories as layers, and each layer's blob is noted. It returns no children.
  pub handle-Consistent :
      (desc : Descriptor) (c : Converter) (t : Trace) (ds : List Descriptor)
      → desc.media_type ≡ media_schema1_manifest
      → Unidentified c.blob_map
      → (handle host desc c t).0 ≡ ok ds
      → Consistent ((handle host desc c t).1) × (ds ≡ [])
  handle-Consistent desc c t ds schema1 u h =
      let (m, t', e) = handle-ok desc c t ds schema1 h in
      rw e (
        note_manifest-Consistent m (record c { pulled_manifest = some m }) t' ds refl u (rw e at h))
