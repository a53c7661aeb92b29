-- ===== src/Ctrd/Manifest.antt =====
-- ctrd/image/image.go: the pull of an image's manifest and configuration, without its layers. The resolver of
-- the pull's context is the host's; that `children` warns of an unknown type is left out.
pub mod Quiet
pub mod Lease
pub mod Stored
pub mod Safe
use d2p_migrator.Prelude.{
  Bool, true, false, ◌||◌, ◌&&◌, not, List, [], ◌∷◌, ◌++◌, Option, none, some, Str, str, ◌==◌,
  if◌then◌else◌, keep,
}
use d2p_migrator.Prelude.Dict.{Dict}
use d2p_migrator.Prelude.Result.{Result, ok, err, panic, Class, is_class}
use d2p_migrator.Ctrd.Types.{Descriptor, Converter, new_converter}
use d2p_migrator.Ctrd.Converter.{media_schema1_manifest, media_image_manifest}
use d2p_migrator.Ctrd.Converter.Handle.{handle}
use d2p_migrator.Ctrd.Converter.Convert.{convert}
use d2p_migrator.World.{
  Host, Trace, Io, call, lift, pure, fail, attempt, done, failed, Attempt, ◌>>=◌, ◌>>◌,
  ctrd_with_lease, lease_done, resolver_resolve, resolver_fetcher, read_blob, fetch_content,
  image_create, image_update,
}
use d2p_migrator.World.Exec.{Exec}

-- `containerd.RemoteContext`, as far as a pull of a manifest reads it.
pub record RemoteContext : Type 0 where
  pub snapshotter : Str
  pub convert_schema1 : Bool
  pub labels : Dict Str

abbrev pub RemoteOpt : Type 0
RemoteOpt = RemoteContext → Result RemoteContext

-- `defaultRemoteContext`
abbrev pub default_remote_context : RemoteContext
default_remote_context = record {
  snapshotter = str "overlayfs";
  convert_schema1 = false;
  labels = [];
}

-- The loop over the options, up to the first that fails.
unfoldable pub apply_opts : List RemoteOpt → RemoteContext → Result RemoteContext
apply_opts [] c = ok c
apply_opts (o ∷ os) c = elim (o c) [ ok c' ↦ apply_opts os c' | err e ↦ err e | panic ↦ panic ]

abbrev pub media_docker_manifest : Str
media_docker_manifest = str "application/vnd.docker.distribution.manifest.v2+json"

abbrev pub media_docker_manifest_list : Str
media_docker_manifest_list = str "application/vnd.docker.distribution.manifest.list.v2+json"

abbrev pub media_image_index : Str
media_image_index = str "application/vnd.oci.image.index.v1+json"

abbrev pub is_manifest : Descriptor → Bool
is_manifest desc =
    desc.media_type == media_docker_manifest || desc.media_type == media_image_manifest

abbrev pub is_index : Descriptor → Bool
is_index desc =
    desc.media_type == media_docker_manifest_list || desc.media_type == media_image_index

-- A descriptor without a platform fits every one.
abbrev pub fits : (Str → Bool) → Descriptor → Bool
fits matcher d = elim d.platform [ none ↦ true | some p ↦ matcher p ]

module _ (host : Host) where
  manifest_children : Descriptor → Io (List Descriptor)
  manifest_children desc = do
    p ← call (read_blob desc) host.read_blob
    manifest ← lift (host.decode_manifest p)
    pure (manifest.config ∷ [])

  fitting : Str → List Descriptor → Io (List Descriptor)
  fitting platform manifests = do
    matcher ← lift (host.parse_platform platform)
    pure (keep (fits matcher) manifests)

  index_children : Descriptor → Str → Io (List Descriptor)
  unfolding fitting
  index_children desc platform = do
    p ← call (read_blob desc) host.read_blob
    index ← lift (host.decode_index p)
    (if not (platform == []) then fitting platform index.manifests else pure index.manifests)

  -- `children`. Types without children and unknown types have none.
  unfoldable pub children : Descriptor → Str → Io (List Descriptor)
  unfolding manifest_children index_children
  children desc platform =
      if is_manifest desc
      then manifest_children desc
      else if is_index desc
      then index_children desc platform
      else pure []

  -- The handler of a pull that does not convert: the content is fetched, and then its children are read.
  -- The converter is not touched.
  unfoldable pub fetch_handler : Descriptor → Exec Converter (List Descriptor)
  unfolding children
  fetch_handler desc c t =
      let handled : Io (List Descriptor) = (do
        call (fetch_content desc) host.fetch_content
        children desc host.default_platform) in
      let (r, t') = handled t in (r, c, t')

  -- What follows `Dispatch`.
  after_dispatch : Io Descriptor → Result (Unit {0}) × Trace → Result Descriptor × Trace
  after_dispatch next (ok _, t) = next t
  after_dispatch next (err e, t) = (err e, t)
  after_dispatch next (panic, t) = (panic, t)

  pull_schema1 : Descriptor → Io Descriptor
  unfolding after_dispatch
  pull_schema1 desc t =
      let (r, c, t') = host.dispatch (handle host) desc new_converter t in
      after_dispatch (convert host c) (r, t')

  pull_plain : Descriptor → Io Descriptor
  unfolding after_dispatch fetch_handler
  pull_plain desc t =
      let (r, _, t') = host.dispatch fetch_handler desc new_converter t in
      after_dispatch (pure desc) (r, t')

  -- The content of an image, and the descriptor under which it is known from then on.
  unfoldable pub pull_content : RemoteContext → Descriptor → Io Descriptor
  unfolding pull_schema1 pull_plain
  pull_content c desc =
      if desc.media_type == media_schema1_manifest && c.convert_schema1
      then pull_schema1 desc
      else pull_plain desc

  -- An image that is there already is updated.
  after_create : Str → Descriptor → Dict Str → Attempt (Unit {0}) → Io (Unit {0})
  after_create name desc labels (done _) = pure tt
  after_create name desc labels (failed e) =
      let updated = call (image_update name desc labels) host.image_update in
      if is_class e.class Class.already_exists then updated else fail e

  unfoldable pub store_image : Str → Descriptor → Dict Str → Io (Unit {0})
  unfolding after_create
  store_image name desc labels = do
    created ← attempt (call (image_create name desc labels) host.image_create)
    after_create name desc labels created

  -- `PullManifest` while the lease is held.
  unfoldable pub pull_leased : Str → RemoteContext → Io (Unit {0})
  pull_leased ref c = do
    (name, desc) ← call (resolver_resolve ref) host.resolver_resolve
    call (resolver_fetcher name) host.resolver_fetcher
    pulled ← pull_content c desc
    store_image name pulled c.labels

  -- The deferred release of the lease. A panic is taken for one of the walk, whose handler runs in a goroutine of its
  -- own, so that the process ends without what is deferred here.
  release : Result (Unit {0}) × Trace → Result (Unit {0}) × Trace
  release (ok _, t) = let (_, t') = call lease_done host.lease_done t in (ok tt, t')
  release (err e, t) = let (_, t') = call lease_done host.lease_done t in (err e, t')
  release (panic, t) = (panic, t)

  -- `PullManifest`
  unfoldable pub pull_manifest : Str → List RemoteOpt → Io (Unit {0})
  unfolding release
  pull_manifest ref opts = do
    c ← lift (apply_opts opts default_remote_context)
    call ctrd_with_lease host.ctrd_with_lease
    (λ t. release (pull_leased ref c t))
