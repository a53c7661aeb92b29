-- ===== src/Ctrd/Converter/Convert.antt =====
-- ctrd/image/converter.go: the blobs that are written for a manifest of schema 1.
pub mod Image
use d2p_migrator.Prelude.{[], Str, str}
use d2p_migrator.Ctrd.Types.{Descriptor, OciManifest, Converter}
use d2p_migrator.Ctrd.Converter.{media_image_manifest, descriptor, gc_labels}
use d2p_migrator.Ctrd.Converter.Convert.Image.{converted_image}
use d2p_migrator.World.{Host, Io, call, lift, pure, wrap_io, write_blob, ◌>>=◌, ◌>>◌}

module _ (host : Host) where
  -- The two blobs: the manifest with the labels of what it refers to, and then the image's configuration.
  unfoldable pub write_blobs : OciManifest → Str → Str → Io Descriptor
  unfolding gc_labels
  write_blobs manifest b mb = do
    let desc = descriptor host media_image_manifest mb
    wrap_io (str "failed to write config: ") (
        call (write_blob (host.make_ref_key desc) mb desc.size desc.digest (gc_labels manifest))
          host.write_blob)
    wrap_io (str "failed to write config: ") (
        call
          (write_blob (host.make_ref_key manifest.config) b manifest.config.size
            manifest.config.digest [])
          host.write_blob)
    pure desc

  -- `Convert`
  unfoldable pub convert : Converter → Io Descriptor
  unfolding write_blobs converted_image
  convert c = do (manifest, b, mb) ← lift (converted_image host c); write_blobs manifest b mb
