-- ===== src/Ctrd/Converter/Handle.antt =====
-- ctrd/image/converter.go: what the converter does with a descriptor.
use d2p_migrator.Prelude.{not, List, [], ◌∷◌, ◌++◌, some, str, ◌==◌, eqb, if◌then◌else◌, length}
use d2p_migrator.Prelude.Dict.{has, insert}
use d2p_migrator.Prelude.Result.{deref}
use d2p_migrator.Ctrd.Types.{Descriptor, FsLayer, History, Manifest, Converter}
use d2p_migrator.Ctrd.Jose.{strip_signature}
use d2p_migrator.Ctrd.Converter.{
  media_schema1_manifest, media_layer_gzip, limited, is_empty_layer, first_of, rest_of,
}
use d2p_migrator.World.{Host, call, lift, pure, failf, fetch}
use d2p_migrator.World.Exec.{Exec, io, gets, modify, ◌>>=◌, ◌>>◌}

module _ (host : Host) where
  -- `fetchManifest`. The manifest is kept only if all went well.
  unfoldable pub fetch_manifest : Descriptor → Exec Converter (Unit {0})
  fetch_manifest desc = do
    b ← io (call (fetch desc) host.fetch)
    stripped ← io (lift (strip_signature host (limited b)))
    m ← io (lift (host.decode_schema1 stripped))
    modify (λ (c : Converter). record c { pulled_manifest = some m })

  -- A blob is noted by the history beside its first layer.
  unfoldable pub note_blob : FsLayer → List History → Exec Converter (Unit {0})
  note_blob layer history = do
    known ← gets (λ (c : Converter). has layer.blob_sum c.blob_map)
    (if known then io (pure tt) else (do
      h ← io (lift (first_of history))
      empty ← io (lift (is_empty_layer host h.v1_compatibility))
      modify (λ (c : Converter). record c {
        blob_map = insert layer.blob_sum (record { diff_id = []; empty = empty }) c.blob_map;
      })))

  -- The loop over the layers, with the histories from the same position on.
  unfoldable pub note_blobs : List FsLayer → List History → Exec Converter (Unit {0})
  note_blobs [] history = io (pure tt)
  note_blobs (layer ∷ layers) history = do
    note_blob layer history
    note_blobs layers (rest_of history)

  -- `Handle` behind `fetchManifest`.
  unfoldable pub note_manifest : Manifest → Exec Converter (List Descriptor)
  note_manifest m =
      let noted : Exec Converter (List Descriptor) = (do
        note_blobs m.fs_layers m.history
        io (pure [])) in
      if not (eqb (length m.fs_layers) (length m.history))
      then io (failf (str "invalid schema 1 manifest, history and layer mismatch"))
      else noted

  -- `Handle`. No descriptor has children.
  unfoldable pub handle : Descriptor → Exec Converter (List Descriptor)
  handle desc =
      let fetched : Exec Converter (List Descriptor) = (do
        fetch_manifest desc
        m ← gets (λ (c : Converter). c.pulled_manifest)
        manifest ← io (lift (deref m))
        note_manifest manifest) in
      if desc.media_type == media_schema1_manifest
      then fetched
      else if desc.media_type == media_layer_gzip
      then io (pure [])
      else io (failf (desc.media_type ++ str " not support for schema 1 manifests"))
