-- ===== src/Ctrd/Converter/Safe.antt =====
-- ctrd/image/converter.go: a conversion does not panic.
use d2p_migrator.Prelude.{◌≡◌, refl, List, [], ◌∷◌, Str, str, ◌⊎◌, inl, inr, ◌≢◌, arith, length}
use d2p_migrator.Prelude.Int.{pos}
use d2p_migrator.Prelude.Dict.{Dict}
use d2p_migrator.Prelude.Result.{ok, panic, wrap, Result-cases, bind-safe, wrap-ok, wrap-safe}
use d2p_migrator.Ctrd.Types.{
  OciManifest, FsLayer, History, OciHistory, OciImage, BlobState, Converter,
}
use d2p_migrator.Ctrd.Converter.{
  media_image_manifest, descriptor, gc_labels, history_loop, history_of, schema1_manifest_history,
  first_of,
}
use d2p_migrator.Ctrd.Converter.Convert.Image.{histories, marshalled, converted_image}
use d2p_migrator.Ctrd.Converter.Convert.{write_blobs, convert}
use d2p_migrator.Ctrd.Converter.Consistent.{Consistent}
use d2p_migrator.World.{Host, Trace, write_blob}

-- The codecs and the content store return errors, and do not panic.
pub record Tame (host : Host) : Type 0 where
  pub decode_v1_history_safe : (s : Str) → host.decode_v1_history s ≢ panic
  pub decode_image_safe : (s : Str) → host.decode_image s ≢ panic
  pub marshal_image_safe : (i : OciImage) → host.marshal_image i ≢ panic
  pub marshal_manifest_safe : (m : OciManifest) → host.marshal_manifest m ≢ panic
  pub write_blob_safe : (t : Trace) → host.write_blob t ≢ panic

list-cases {ℓ} : {A : Type ℓ} (xs : List A) → (xs ≡ []) ⊎ ((x : A) × (ys : List A) × (xs ≡ x ∷ ys))
list-cases [] = inl refl
list-cases (x ∷ xs) = inr (x, xs, refl)

module _ (host : Host) (tame : Tame host) where
  history_loop-safe :
      (blobs : Dict BlobState) (layers : List FsLayer) (texts : List History)
      (history : List OciHistory) (ids : List Str)
      → length layers ≡ length texts
      → history_loop host blobs layers texts history ids ≢ panic
  unfolding history_loop
  history_loop-safe blobs layers [] history ids e = λ x. cc
  history_loop-safe blobs [] (text ∷ texts) history ids e = absurd (omega arith)
  history_loop-safe blobs (l ∷ ls) (text ∷ texts) history ids e =
      bind-safe
        (wrap (str "failed to unmarshal history: ") (host.decode_v1_history text.v1_compatibility))
        _ (wrap-safe _ _ (tame.decode_v1_history_safe text.v1_compatibility))
        (λ h _. history_loop-safe blobs ls texts _ _ (omega arith))

  schema1_manifest_history-safe :
      (c : Converter) → Consistent c → schema1_manifest_history host c ≢ panic
  unfolding schema1_manifest_history history_of
  schema1_manifest_history-safe c k =
      let looped =
        history_loop-safe c.blob_map k.manifest.fs_layers k.manifest.history [] [] k.paired in
      λ p. ground (arith, k.pulled, p, looped)

  marshalled-safe :
      (base : Str) (made : List OciHistory × List Str) → marshalled host base made ≢ panic
  unfolding marshalled
  marshalled-safe base (history, ids) =
      bind-safe (wrap (str "failed to marshal image: ") (host.marshal_image _)) _
        (wrap-safe _ _ (tame.marshal_image_safe _))
        (λ b _.
          bind-safe (wrap (str "failed to marshal image: ") (host.marshal_manifest _)) _
            (wrap-safe _ _ (tame.marshal_manifest_safe _)) (λ mb _ x. cc))

  -- What `Convert` reads first of the histories.
  first_history :
      (c : Converter) (k : Consistent c) (made : List OciHistory × List Str)
      → schema1_manifest_history host c ≡ ok made
      → (h : History) × (histories c ≡ ok k.manifest.history) × (first_of k.manifest.history ≡ ok h)
  unfolding schema1_manifest_history history_of histories
  first_history c k made e = elim (list-cases k.manifest.history) [
    | inl empty ↦ absurd (ground (arith, k.pulled, empty, e))
    | inr (h, hs, filled) ↦ (h, ground (arith, k.pulled), rw filled refl)
  ]

  converted_image-safe : (c : Converter) → Consistent c → converted_image host c ≢ panic
  unfolding converted_image histories
  converted_image-safe c k =
      bind-safe (wrap (str "schema 1 conversion failed: ") (schema1_manifest_history host c)) _
        (wrap-safe _ _ (schema1_manifest_history-safe c k))
        (λ made e.
          let (h, all, first) = first_history c k made (wrap-ok _ _ made e) in
          rw all (
            rw first (
              bind-safe
                (wrap (str "failed to unmarshal image from schema 1 history: ")
                  (host.decode_image h.v1_compatibility))
                _ (wrap-safe _ _ (tame.decode_image_safe h.v1_compatibility))
                (λ base _. marshalled-safe base made))))

  write_blobs-safe :
      (m : OciManifest) (b mb : Str) (t : Trace) → (write_blobs host m b mb t).0 ≢ panic
  unfolding write_blobs
  write_blobs-safe m b mb t =
      let first =
        write_blob (host.make_ref_key (descriptor host media_image_manifest mb)) mb
          (pos (length mb)) (host.digest_of mb) (gc_labels m) in
      let second = write_blob (host.make_ref_key m.config) b m.config.size m.config.digest [] in
      λ p.
        ground
          (arith, p, tame.write_blob_safe (first ∷ t), tame.write_blob_safe (second ∷ (first ∷ t)))

  -- The conversion of a consistent converter does not panic, where the codecs and the content store do not: no
  -- index leaves the layers or the histories, and no missing manifest is read.
  pub convert-safe : (c : Converter) (t : Trace) → Consistent c → (convert host c t).0 ≢ panic
  unfolding convert
  convert-safe c t k = elim (Result-cases (converted_image host c)) [
    | inl ((m, b, mb), e) ↦ rw e (write_blobs-safe m b mb t)
    | inr (inl (_, e)) ↦ λ p. ground (arith, p, e)
    | inr (inr e) ↦ λ p. converted_image-safe c k e
  ]
