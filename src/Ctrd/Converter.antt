-- ===== src/Ctrd/Converter.antt =====
-- ctrd/image/converter.go: the conversion of a manifest of schema 1.
pub mod Handle
pub mod Convert
pub mod Grown
pub mod Consistent
pub mod Order
pub mod Labels
pub mod Writes
pub mod Reads
pub mod Safe
use d2p_migrator.Prelude.{
  ℕ, zero, suc, ◌+◌, Bool, true, false, not, List, [], ◌∷◌, ◌++◌, Option, none, some, Str, str,
  ◌==◌, eqb, if◌then◌else◌, length, take, join,
}
use d2p_migrator.Prelude.Int.{ℤ, pos, negsuc, print_nat}
use d2p_migrator.Prelude.Dict.{Dict, has, lookup, insert}
use d2p_migrator.Prelude.Result.{Result, ok, err, panic, ◌>>=◌, ◌>>◌, errorf, wrap, deref}
use d2p_migrator.Ctrd.Types.{
  Descriptor, no_descriptor, OciManifest, FsLayer, History, Manifest, V1History, OciHistory,
  OciImage, BlobState, Converter,
}
use d2p_migrator.Ctrd.Jose.{strip_signature}
use d2p_migrator.World.{Host}

abbrev pub media_schema1_manifest : Str
media_schema1_manifest = str "application/vnd.docker.distribution.manifest.v1+prettyjws"

abbrev pub media_layer_gzip : Str
media_layer_gzip = str "application/vnd.docker.image.rootfs.diff.tar.gzip"

abbrev pub media_image_config : Str
media_image_config = str "application/vnd.oci.image.config.v1+json"

abbrev pub media_image_manifest : Str
media_image_manifest = str "application/vnd.oci.image.manifest.v1+json"

abbrev pub manifest_size_limit : ℕ
manifest_size_limit = 8_000_000

-- What `io.LimitReader` lets through.
unfoldable pub limited : Str → Str
limited b = take manifest_size_limit b

-- What `isEmptyLayer` reads of a history.
unfoldable pub is_empty_history : V1History → Bool
is_empty_history h = elim h.throw_away [
  | some thrown ↦ thrown
  | none ↦ elim h.size [ none ↦ false | some (pos n) ↦ eqb n 0 | some (negsuc _) ↦ false ]
]

-- The element at the loop's position, where that has come to the front.
abbrev pub first_of {ℓ} : {A : Type ℓ} → List A → Result A
first_of [] = panic
first_of (x ∷ _) = ok x

abbrev pub rest_of {ℓ} : {A : Type ℓ} → List A → List A
rest_of [] = []
rest_of (_ ∷ xs) = xs

-- `c.blobMap[blobSum]`, which is zero where the blob is missing.
unfoldable pub state_of : Str → Dict BlobState → BlobState
unfolding lookup
state_of blob blobs = elim (lookup blob blobs) [
  | none ↦ record { diff_id = []; empty = false }
  | some s ↦ s
]

-- One entry of the new history.
unfoldable pub converted : V1History → BlobState → OciHistory
converted h s = record {
  author = h.author;
  comment = h.comment;
  created = h.created;
  created_by = join (str " ") h.cmd;
  empty_layer = s.empty;
}

-- The descriptor of a text that is written.
abbrev pub descriptor : Host → Str → Str → Descriptor
descriptor host media b = record {
  media_type = media;
  digest = host.digest_of b;
  size = pos (length b);
  platform = none;
}

-- As many empty descriptors as there are layers.
unfoldable pub empty_layers : List Str → List Descriptor
empty_layers [] = []
empty_layers (_ ∷ ids) = no_descriptor ∷ empty_layers ids

-- The labels that keep a manifest's layers, from the number `n` on.
unfoldable pub layer_labels : ℕ → List Descriptor → Dict Str → Dict Str
unfolding insert
layer_labels n [] labels = labels
layer_labels n (l ∷ ls) labels =
    layer_labels (suc n) ls
      (insert (str "containerd.io/gc.ref.content." ++ print_nat n) l.digest labels)

unfoldable pub gc_labels : OciManifest → Dict Str
unfolding layer_labels insert
gc_labels m =
    layer_labels 1 m.layers (insert (str "containerd.io/gc.ref.content.0") m.config.digest [])

module _ (host : Host) where
  -- `isEmptyLayer`
  unfoldable pub is_empty_layer : Str → Result Bool
  unfolding is_empty_history
  is_empty_layer text = do h ← host.decode_v1_history text; ok (is_empty_history h)

  -- The loop of `schema1ManifestHistory`. Each entry is put at the front, so that the order is turned around.
  unfoldable pub history_loop :
      Dict BlobState
      → List FsLayer
      → List History
      → List OciHistory
      → List Str
      → Result (List OciHistory × List Str)
  unfolding converted state_of
  history_loop blobs layers [] history ids = ok (history, ids)
  history_loop blobs layers (text ∷ texts) history ids = do
    h ← wrap (str "failed to unmarshal history: ") (host.decode_v1_history text.v1_compatibility)
    layer ← first_of layers
    (let s = state_of layer.blob_sum blobs in
        history_loop blobs (rest_of layers) texts (converted h s ∷ history)
          (if not s.empty then s.diff_id ∷ ids else ids))

  history_of : Dict BlobState → Manifest → Result (List OciHistory × List Str)
  unfolding history_loop
  history_of blobs m =
      let looped = history_loop blobs m.fs_layers m.history [] [] in
      if eqb (length m.history) 0 then errorf (str "no history") else looped

  -- `schema1ManifestHistory`
  unfoldable pub schema1_manifest_history : Converter → Result (List OciHistory × List Str)
  unfolding history_of
  schema1_manifest_history c = elim c.pulled_manifest [
    | none ↦ errorf (str "missing schema 1 manifest for conversion")
    | some m ↦ history_of c.blob_map m
  ]
