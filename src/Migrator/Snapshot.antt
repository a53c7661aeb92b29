-- ===== src/Migrator/Snapshot.antt =====
-- migrator/cold_migrate.go: the snapshot of a container, `getOverlayFsDir` and the second half of
-- `doPrepare`, which does not touch the migrator's state.
use d2p_migrator.Prelude.{
  ◌||◌, List, [], ◌∷◌, ◌++◌, some, Str, ◌==◌, str, if◌then◌else◌, has_prefix, trim_prefix,
}
use d2p_migrator.Prelude.Dict.{get_str}
use d2p_migrator.Prelude.Result.{deref}
use d2p_migrator.Pouch
use d2p_migrator.Ctrd.Client.{get_mounts, get_snapshot, remove_snapshot, create_snapshot}
use d2p_migrator.Migrator.Quota.{set_dir_disk_quota}
use d2p_migrator.World.{
  Host, Io, Mount, pure, failf, lift, wrap_io, attempt, done, failed, Attempt, ◌>>=◌, ◌>>◌,
}

-- The loop over the options of a mount: the last `upperdir=` and the last `workdir=` count.
unfoldable pub overlay_dirs : List Str → Str × Str → Str × Str
overlay_dirs [] dirs = dirs
overlay_dirs (opt ∷ opts) (upper_dir, work_dir) = overlay_dirs opts (
    if has_prefix opt (str "upperdir=")
    then (trim_prefix opt (str "upperdir="), work_dir)
    else if has_prefix opt (str "workdir=")
    then (upper_dir, trim_prefix opt (str "workdir="))
    else (upper_dir, work_dir))

-- The test of the number of mounts.
unfoldable pub dirs_of_mounts : Str → List Mount → Io (Str × Str)
dirs_of_mounts snap_id (mount ∷ []) = pure (overlay_dirs mount ([], []))
dirs_of_mounts snap_id _ =
    failf (str "failed to get snapshots " ++ snap_id ++ str " mounts: not equals one")

module _ (host : Host) where
  unfoldable pub get_overlay_fs_dir : Str → Io (Str × Str)
  get_overlay_fs_dir snap_id = do
    mounts ←
        wrap_io (str "failed to get snapshot " ++ snap_id ++ str " mounts: ")
          (get_mounts host snap_id)
    dirs_of_mounts snap_id mounts

  -- A snapshot that is there already is removed; that this may fail is ignored.
  unfoldable pub remove_found : Str → Attempt (Unit {0}) → Io (Unit {0})
  remove_found id (failed _) = pure tt
  remove_found id (done _) = do _ ← attempt (remove_snapshot host id); pure tt

  -- The test of the two directories and what follows it. The snapshotter's data is a new map.
  unfoldable pub finish_snapshot :
      Pouch.Container → Pouch.ContainerConfig → Str → Str → Io Pouch.Container
  finish_snapshot meta config upper_dir work_dir =
      if (upper_dir == []) || (work_dir == [])
      then failf (
          str "snapshot mounts occurred an error: upperDir="
          ++ upper_dir
          ++ str ", workDir="
          ++ work_dir)
      else (do
        snapshotter ← lift (deref meta.snapshotter)
        let disk_quota = get_str (str "DiskQuota") config.labels
        set_dir_disk_quota host disk_quota config.quota_id upper_dir
        set_dir_disk_quota host disk_quota config.quota_id work_dir
        pure (record meta {
          snapshotter = some (record snapshotter { entries = (str "UpperDir", upper_dir) ∷ [] });
        }))

  unfoldable pub prepare_snapshot : Pouch.Container → Pouch.ContainerConfig → Io Pouch.Container
  prepare_snapshot meta config = do
    found ← attempt (get_snapshot host meta.id)
    remove_found meta.id found
    create_snapshot host meta.id config.image
    dirs ← get_overlay_fs_dir meta.id
    finish_snapshot meta config dirs.0 dirs.1
