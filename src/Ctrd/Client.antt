-- ===== src/Ctrd/Client.antt =====
-- ctrd/containerd.go: the client of containerd. The namespace and the lease of a call's context are
-- not on the trace. The resolver of a pull is the host's.
use d2p_migrator.Prelude.{Bool, true, List, [], ◌∷◌, ◌++◌, Str, str, if◌then◌else◌}
use d2p_migrator.World.{
  Host, Io, Mount, call, pure, lift, wrap_io, ◌>>=◌, ◌>>◌, ctrd_new, ctrd_list_leases,
  ctrd_create_lease, image_service_get, image_root_fs, ctrd_get_image, snapshot_prepare,
  snapshot_stat, snapshot_mounts, snapshot_remove, generate_spec, container_get, container_delete,
  container_new, ctrd_pull,
}
use d2p_migrator.Prelude.Result.{ok}
use d2p_migrator.Ctrd.Manifest.{RemoteContext, RemoteOpt, pull_manifest}
use d2p_migrator.Ctrd.Reference.{add_default_registry_if_missing}

abbrev pub default_snapshotter_name : Str
default_snapshotter_name = str "overlayfs"

abbrev pub default_registry : Str
default_registry = str "registry.hub.docker.com"

abbrev pub default_namespace : Str
default_namespace = str "library"

-- `WithSchema1Conversion` and `WithPullSnapshotter`.
abbrev pub pull_options : Str → List RemoteOpt
pull_options snapshotter =
    (λ (c : RemoteContext). ok (record c { convert_schema1 = true }))
    ∷ (λ (c : RemoteContext). ok (record c { snapshotter = snapshotter }))
    ∷ []

module _ (host : Host) where
  first_lease : List Str → Io Str
  first_lease [] = call ctrd_create_lease host.ctrd_create_lease
  first_lease (lease ∷ leases) = pure lease

  -- `NewCtrdClient`: it takes the first lease, or makes one if there is none.
  unfoldable pub new_ctrd_client : Io Str
  unfolding first_lease
  new_ctrd_client = do
    call ctrd_new host.ctrd_new
    leases ← call ctrd_list_leases host.ctrd_list_leases
    first_lease leases

  unfoldable pub create_snapshot : Str → Str → Io (Unit {0})
  create_snapshot id ref = do
    image ← call (image_service_get ref) host.image_service_get
    parent ← call (image_root_fs image) host.image_root_fs
    call (snapshot_prepare default_snapshotter_name id parent) host.snapshot_prepare

  abbrev pub get_snapshot : Str → Io (Unit {0})
  get_snapshot id = call (snapshot_stat default_snapshotter_name id) host.snapshot_stat

  abbrev pub get_mounts : Str → Io (List Mount)
  get_mounts id = call (snapshot_mounts default_snapshotter_name id) host.snapshot_mounts

  abbrev pub remove_snapshot : Str → Io (Unit {0})
  remove_snapshot id = call (snapshot_remove default_snapshotter_name id) host.snapshot_remove

  unfoldable pub new_container : Str → Io (Unit {0})
  new_container id = do
    wrap_io (str "fail to generate spec for container " ++ id ++ str ": ")
        (call (generate_spec id) host.generate_spec)
    wrap_io (str "failed to create new containerd container " ++ id ++ str ": ")
        (call (container_new id (str "docker-runc")) host.container_new)

  abbrev pub get_container : Str → Io (Unit {0})
  get_container id = call (container_get id) host.container_get

  abbrev pub delete_container : Str → Io (Unit {0})
  delete_container id = call (container_delete id) host.container_delete

  abbrev pub get_image : Str → Io Str
  get_image name = call (ctrd_get_image name) host.ctrd_get_image

  -- The name that is pulled: with the default registry, and as the package `reference` prints it.
  unfoldable pub pull_image : Str → Str → Bool → Io (Unit {0})
  pull_image ref snapshotter manifest_only = do
    name ← lift (
        host.parse_reference
          (add_default_registry_if_missing ref default_registry default_namespace))
    (if manifest_only
        then pull_manifest host name (pull_options snapshotter)
        else call (ctrd_pull name snapshotter true) host.ctrd_pull)
