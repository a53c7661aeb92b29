-- ===== src/Ctrd/Converter/Convert/Image.antt =====
-- ctrd/image/converter.go: the image that is made of a manifest of schema 1.
use d2p_migrator.Prelude.{List, none, some, Str, str}
use d2p_migrator.Prelude.Result.{Result, ok, panic, wrap, ◌>>=◌}
use d2p_migrator.Ctrd.Types.{OciManifest, OciHistory, OciImage, History, Converter}
use d2p_migrator.Ctrd.Converter.{
  media_image_config, first_of, descriptor, empty_layers, schema1_manifest_history,
}
use d2p_migrator.World.{Host}

-- `c.pulledManifest.History`, which panics where no manifest is there.
unfoldable pub histories : Converter → Result (List History)
histories c = elim c.pulled_manifest [ none ↦ panic | some m ↦ ok m.history ]

module _ (host : Host) where
  -- The manifest, the text of the configuration and the text of the manifest.
  unfoldable pub marshalled : Str → List OciHistory × List Str → Result (OciManifest × Str × Str)
  unfolding empty_layers
  marshalled base (history, diff_ids) = do
    let image : OciImage = record {
      base = base;
      history = history;
      root_fs_type = str "layers";
      diff_ids = diff_ids;
    }
    b ← wrap (str "failed to marshal image: ") (host.marshal_image image)
    let manifest : OciManifest = record {
      config = descriptor host media_image_config b;
      layers = empty_layers diff_ids;
    }
    mb ← wrap (str "failed to marshal image: ") (host.marshal_manifest manifest)
    ok (manifest, b, mb)

  -- `Convert` up to its writes.
  unfoldable pub converted_image : Converter → Result (OciManifest × Str × Str)
  unfolding histories schema1_manifest_history marshalled
  converted_image c = do
    made ← wrap (str "schema 1 conversion failed: ") (schema1_manifest_history host c)
    texts ← histories c
    first ← first_of texts
    base ←
        wrap (str "failed to unmarshal image from schema 1 history: ")
          (host.decode_image first.v1_compatibility)
    marshalled base made
