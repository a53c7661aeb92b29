-- ===== src/Migrator/Volumes.antt =====
-- migrator/volume_migrate.go: references to volumes, and pouch's volume store.
pub mod References
use d2p_migrator.Prelude.{
  not, List, [], ◌∷◌, ◌++◌, none, some, Str, ◌==◌, str, if◌then◌else◌, contains, join,
}
use d2p_migrator.Prelude.Dict.{Dict, lookup, insert, get_str}
use d2p_migrator.Prelude.FilePath.{path_join}
use d2p_migrator.Prelude.Result.{Result, ok, panic}
use d2p_migrator.Docker
use d2p_migrator.Docker.{StatusValue, text, other}
use d2p_migrator.Docker.Client.{new_dockerd, volume_inspect}
use d2p_migrator.Pouch
use d2p_migrator.Migrator.Disk.{ensure_dir}
use d2p_migrator.World.{
  Host, Io, call, pure, wrap_io, lift, attempt, done, failed, Attempt, finally, ◌>>=◌, ◌>>◌,
  store_new, store_shutdown, store_put_volume, os_mkdir_all,
}

-- One mount of `ContainerVolumeRefsCount`. A missing name reads as the empty string.
add_reference : Str → Pouch.MountPoint → Dict Str → Dict Str
add_reference id mount refs =
    if mount.driver == []
    then refs
    else if get_str mount.name refs == []
    then insert mount.name id refs
    else if not (contains (get_str mount.name refs) id)
    then insert mount.name (join (str ",") (get_str mount.name refs ∷ id ∷ [])) refs
    else refs

-- `ContainerVolumeRefsCount`, which never fails: the loop over the mounts of a container.
unfoldable pub container_volume_refs_count : Str → List Pouch.MountPoint → Dict Str → Dict Str
unfolding add_reference
container_volume_refs_count id [] refs = refs
container_volume_refs_count id (mount ∷ mounts) refs =
    container_volume_refs_count id mounts (add_reference id mount refs)

size_keys : List Str
size_keys = str "size" ∷ str "opt.size" ∷ str "Size" ∷ str "opt.Size" ∷ []

-- The loop of `getVolumeSize`: the first key that is there decides, and its value must be a text.
unfoldable pub first_size : List Str → Dict StatusValue → Result Str
first_size [] status = ok []
first_size (k ∷ ks) status = elim (lookup k status) [
  | none ↦ first_size ks status
  | some v ↦ elim v [ text s ↦ ok s | other ↦ panic ]
]

unfoldable pub get_volume_size : Docker.Volume → Result Str
unfolding size_keys
get_volume_size volume = first_size size_keys volume.status

module _ (host : Host) where
  -- The size of a volume with the driver `alilocal` is asked for; that this may fail is ignored.
  sized : Pouch.Volume → Attempt Docker.Volume → Io Pouch.Volume
  sized vol (failed _) = pure vol
  sized vol (done volume) = do
    size ← lift (get_volume_size volume)
    pure (record vol { size = size })

  -- One round of the loop that updates the references.
  update_volume : Dict Str → Pouch.Volume → Io Pouch.Volume
  unfolding sized
  update_volume refs vol =
      if get_str vol.name refs == []
      then pure vol
      else let vol' : Pouch.Volume = record vol {
        extra = insert (str "ref") (get_str vol.name refs) vol.extra;
      } in
        if vol.backend == str "alilocal"
        then (do volume ← attempt (volume_inspect host vol.name); sized vol' volume)
        else pure vol'

  unfoldable pub update_volumes : Dict Str → List Pouch.Volume → Io (List Pouch.Volume)
  unfolding update_volume
  update_volumes refs [] = pure []
  update_volumes refs (vol ∷ vols) = do
    vol' ← update_volume refs vol
    vols' ← update_volumes refs vols
    pure (vol' ∷ vols')

  abbrev pub volume_db : Str → Str
  volume_db base_dir = path_join (base_dir ∷ str "volume.db" ∷ [])

  unfoldable pub new_volume_store : Str → Io (Unit {0})
  new_volume_store base_dir = do
    ensure_dir host base_dir (str "failed to prepare volume store dir " ++ base_dir ++ str ": ")
        (call (os_mkdir_all base_dir 0o666) host.os_mkdir_all)
    wrap_io (str "failed to initialize a new boltdb store: ")
        (call (store_new (str "boltdb") (volume_db base_dir)) host.store_new)

  unfoldable pub create_volumes : Str → List Pouch.Volume → Io (Unit {0})
  create_volumes base_dir [] = pure tt
  create_volumes base_dir (vol ∷ vols) = do
    wrap_io (str "failed to create volume " ++ vol.name ++ str ": ")
        (call (store_put_volume (volume_db base_dir) vol) host.store_put_volume)
    create_volumes base_dir vols

  unfoldable pub prepare_volumes : Str → List Pouch.Volume → Dict Str → Io (Unit {0})
  prepare_volumes home_dir volumes refs = do
    let base_dir = path_join (home_dir ∷ str "volume" ∷ [])
    new_dockerd host
    new_volume_store base_dir
    finally (do volumes' ← update_volumes refs volumes; create_volumes base_dir volumes')
        (call (store_shutdown (str "boltdb") (volume_db base_dir)) host.store_shutdown)
