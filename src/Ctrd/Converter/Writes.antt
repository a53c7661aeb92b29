-- ===== src/Ctrd/Converter/Writes.antt =====
-- ctrd/image/converter.go: what a conversion writes.
use d2p_migrator.Prelude.{
  ◌≡◌, refl, ap, ◌∙◌, List, [], ◌∷◌, none, Str, str, inl, inr, arith, map, length,
}
use d2p_migrator.Prelude.Int.{pos}
use d2p_migrator.Prelude.Dict.{Dict}
use d2p_migrator.Prelude.Result.{ok, wrap, Result-cases, bind-ok, wrap-ok}
use d2p_migrator.Ctrd.Types.{Descriptor, no_descriptor, History, OciManifest, OciHistory, Converter}
use d2p_migrator.Ctrd.Converter.{
  media_image_manifest, descriptor, gc_labels, schema1_manifest_history, first_of, empty_layers,
}
use d2p_migrator.Ctrd.Converter.Labels.{Labelled, gc_labels-Labelled}
use d2p_migrator.Ctrd.Converter.Convert.Image.{histories, marshalled, converted_image}
use d2p_migrator.Ctrd.Converter.Convert.{write_blobs, convert}
use d2p_migrator.World.{Host, Trace, Request, write_blob}
use d2p_migrator.World.Calls.{onto}

-- The descriptor of a text: its type, its digest and its length.
abbrev pub descriptor_of : Host → Str → Str → Descriptor
descriptor_of host media b = record {
  media_type = media;
  digest = host.digest_of b;
  size = pos (length b);
  platform = none;
}

module _ (host : Host) where
  -- What the converted image's manifest says of the texts: the configuration is `base` with the new history and the new
  -- ids, and there is an empty layer for each id.
  pub record Described (base : Str) (made : List OciHistory × List Str) (m : OciManifest)
      (b mb : Str) : Type 0 where
    config_is : m.config ≡ descriptor_of host (str "application/vnd.oci.image.config.v1+json") b
    layers_are : m.layers ≡ map (λ (_ : Str). no_descriptor) made.1
    image_is :
        host.marshal_image
          (record { base = base; history = made.0; root_fs_type = str "layers"; diff_ids = made.1 })
        ≡ ok b
    marshalled_to : host.marshal_manifest m ≡ ok mb

  empty_layers-map : (ids : List Str) → empty_layers ids ≡ map (λ (_ : Str). no_descriptor) ids
  unfolding empty_layers
  empty_layers-map [] = refl
  empty_layers-map (id ∷ ids) =
      ap (λ (ls : List Descriptor). no_descriptor ∷ ls) (empty_layers-map ids)

  first_of-ok :
      (texts : List History) (first : History)
      → first_of texts ≡ ok first
      → (rest : List History) × (texts ≡ first ∷ rest)
  first_of-ok [] first h = absurd (ground (arith, h))
  first_of-ok (text ∷ texts) first h = (texts, ground (arith, h))

  marshalled-Described :
      (base : Str) (made : List OciHistory × List Str) (m : OciManifest) (b mb : Str)
      → marshalled host base made ≡ ok (m, b, mb)
      → Described base made m b mb
  unfolding marshalled
  marshalled-Described base (history, ids) m b mb h =
      let (b', made', h') =
        bind-ok (wrap (str "failed to marshal image: ") (host.marshal_image _)) _ (m, b, mb) h in
      let (mb', e, h'') =
        bind-ok (wrap (str "failed to marshal image: ") (host.marshal_manifest _)) _ (m, b, mb)
          h' in
      let e' = wrap-ok (str "failed to marshal image: ") _ mb' e in
      let image = wrap-ok (str "failed to marshal image: ") _ b' made' in
      record {
        config_is = ground (arith, h'');
        layers_are = ground (arith, h'', empty_layers-map ids);
        image_is = ground (arith, h'', image);
        marshalled_to = ground (arith, e', h'');
      }

  -- What a conversion has read: the new history with the ids, and the image that the first history tells of.
  abbrev pub Source : Converter → List OciHistory × List Str → Str → Type 0
  Source c made base =
      (schema1_manifest_history host c ≡ ok made)
      × ((first : History) × (rest : List History) × (histories c ≡ ok (first ∷ rest))
          × (host.decode_image first.v1_compatibility ≡ ok base))

  converted_image-Described :
      (c : Converter) (m : OciManifest) (b mb : Str)
      → converted_image host c ≡ ok (m, b, mb)
      → (made : List OciHistory × List Str) × (base : Str) × Source c made base
        × Described base made m b mb
  unfolding converted_image
  converted_image-Described c m b mb h =
      let (made, e, h1) =
        bind-ok (wrap (str "schema 1 conversion failed: ") (schema1_manifest_history host c)) _
          (m, b, mb) h in
      let (texts, e1, h2) = bind-ok (histories c) _ (m, b, mb) h1 in
      let (first, e2, h3) = bind-ok (first_of texts) _ (m, b, mb) h2 in
      let (base, e3, h4) =
        bind-ok
          (wrap (str "failed to unmarshal image from schema 1 history: ")
            (host.decode_image first.v1_compatibility))
          _ (m, b, mb) h3 in
      let (rest, filled) = first_of-ok texts first e2 in
      (
        made,
        base,
        (wrap-ok _ _ made e, (first, rest, e1 ∙ ap ok filled, wrap-ok _ _ base e3)),
        marshalled-Described base made m b mb h4,
      )

  write_blobs-onto :
      (m : OciManifest) (b mb : Str) (t : Trace) (desc : Descriptor)
      → (write_blobs host m b mb t).0 ≡ ok desc
      → (desc ≡ descriptor host media_image_manifest mb)
        × ((write_blobs host m b mb t).1
            ≡ onto
                (write_blob (host.make_ref_key desc) mb desc.size desc.digest (gc_labels m)
                  ∷ write_blob (host.make_ref_key m.config) b m.config.size m.config.digest []
                  ∷ [])
                t)
  unfolding write_blobs onto
  write_blobs-onto m b mb t desc h = elim (Result-cases (host.write_blob (first ∷ t))) [
    | inl (_, e) ↦ elim (Result-cases (host.write_blob (second ∷ (first ∷ t)))) [
      | inl (_, e') ↦ ground (arith, h, e, e')
      | inr (inl (_, e')) ↦ absurd (ground (arith, h, e, e'))
      | inr (inr e') ↦ absurd (ground (arith, h, e, e'))
    ]
    | inr (inl (_, e)) ↦ absurd (ground (arith, h, e))
    | inr (inr e) ↦ absurd (ground (arith, h, e))
  ]
    where
      desc' : Descriptor
      desc' = descriptor host media_image_manifest mb

      first : Request
      first = write_blob (host.make_ref_key desc') mb desc'.size desc'.digest (gc_labels m)

      second : Request
      second = write_blob (host.make_ref_key m.config) b m.config.size m.config.digest []

  -- A conversion that succeeds writes two blobs and does nothing else: first the new manifest, and then the configuration to
  -- which the manifest points, each under the digest and the length of its own text. The manifest's labels are
  -- the digests of what it refers to, by their numbers. The configuration is the image that the first history tells
  -- of, with the new history and the new ids, and the manifest has an empty layer for each id. The descriptor
  -- that is returned is the manifest's.
  pub convert-onto :
      (c : Converter) (t : Trace) (desc : Descriptor)
      → (convert host c t).0 ≡ ok desc
      → (made : List OciHistory × List Str) × (base : Str) × Source c made base
        × ((m : OciManifest) × (b : Str) × (mb : Str) × (labels : Dict Str) × Described base made m
              b mb
            × Labelled m labels
            × (desc ≡ descriptor_of host (str "application/vnd.oci.image.manifest.v1+json") mb)
            × ((convert host c t).1
                ≡ onto
                    (write_blob (host.make_ref_key desc) mb desc.size desc.digest labels
                      ∷ write_blob (host.make_ref_key m.config) b m.config.size m.config.digest []
                      ∷ [])
                    t))
  unfolding convert
  convert-onto c t desc h = elim (Result-cases (converted_image host c)) [
    | inl ((m, b, mb), e) ↦
        let (made, base, source, d) = converted_image-Described c m b mb e in
        let (is, trace) = write_blobs-onto m b mb t desc (ground (arith, h, e)) in
        (made, base, source, (m, b, mb, gc_labels m, d, gc_labels-Labelled m, is, rw e trace))
    | inr (inl (_, e)) ↦ absurd (ground (arith, h, e))
    | inr (inr e) ↦ absurd (ground (arith, h, e))
  ]
