-- ===== src/Ctrd/Types.antt =====
-- ctrd/image: descriptors and manifests of images, and the state of the converter.
use d2p_migrator.Prelude.{Bool, List, [], Option, none, Str}
use d2p_migrator.Prelude.Int.{ℤ, pos}
use d2p_migrator.Prelude.Dict.{Dict}

-- `ocispec.Descriptor`, with a platform as its text.
pub record Descriptor : Type 0 where
  pub media_type : Str
  pub digest : Str
  pub size : ℤ
  pub platform : Option Str

-- `ocispec.Descriptor{}`
abbrev pub no_descriptor : Descriptor
no_descriptor = record { media_type = []; digest = []; size = pos 0; platform = none }

-- `ocispec.Manifest`, of schema 2.
pub record OciManifest : Type 0 where
  pub config : Descriptor
  pub layers : List Descriptor

-- `ocispec.Index`
pub record Index : Type 0 where
  pub manifests : List Descriptor

pub record FsLayer : Type 0 where
  pub blob_sum : Str

pub record History : Type 0 where
  pub v1_compatibility : Str

-- A manifest of schema 1.
pub record Manifest : Type 0 where
  pub fs_layers : List FsLayer
  pub history : List History

-- `v1History`
pub record V1History : Type 0 where
  pub author : Str
  pub created : Str
  pub comment : Str
  pub throw_away : Option Bool
  pub size : Option ℤ
  pub cmd : List Str

-- `ocispec.History`
pub record OciHistory : Type 0 where
  pub author : Str
  pub comment : Str
  pub created : Str
  pub created_by : Str
  pub empty_layer : Bool

-- `ocispec.Image`: its history and its file system, and the other fields, as the text they were read from.
pub record OciImage : Type 0 where
  pub base : Str
  pub history : List OciHistory
  pub root_fs_type : Str
  pub diff_ids : List Str

-- `protectedBlock`
pub record ProtectedBlock : Type 0 where
  pub length : ℤ
  pub tail : Str

pub record BlobState : Type 0 where
  pub diff_id : Str
  pub empty : Bool

-- `Converter`. The content store and the fetcher are the host's.
pub record Converter : Type 0 where
  pub pulled_manifest : Option Manifest
  pub blob_map : Dict BlobState

-- `NewConverter`
abbrev pub new_converter : Converter
new_converter = record { pulled_manifest = none; blob_map = [] }
