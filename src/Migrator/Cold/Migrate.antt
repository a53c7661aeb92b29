-- ===== src/Migrator/Cold/Migrate.antt =====
-- migrator/cold_migrate.go: `Migrate` and `RevertMigration` of the cold migration, which read the
-- migrator's state and do not change it.
use d2p_migrator.Prelude.{List, [], ◌∷◌, ◌++◌, Str, str, if◌then◌else◌}
use d2p_migrator.Prelude.Result.{not_found, is_class}
use d2p_migrator.Docker.Client.{container_stop, container_start}
use d2p_migrator.Migrator.Disk.{get_pouch_home_dir, migrate_network_file}
use d2p_migrator.Migrator.Cold.{ColdMigrator, UpperDirMapping}
use d2p_migrator.Utils.Files.{exec, move_dir}
use d2p_migrator.World.{Host, Io, pure, failf, wrap_io, attempt, done, failed, Attempt, ◌>>=◌, ◌>>◌}

module _ (host : Host) where
  -- That a container is not found is no failure to stop it.
  stopped : Attempt (Unit {0}) → Io (Unit {0})
  stopped (done _) = pure tt
  stopped (failed e) =
      if is_class e.class not_found
      then pure tt
      else failf (str "failed to stop container: " ++ e.text)

  -- The loop that stops the containers, each with a timeout of one second.
  unfoldable pub stop_all : List Str → Io (Unit {0})
  unfolding stopped
  stop_all [] = pure tt
  stop_all (c ∷ cs) = do r ← attempt (container_stop host c 1); stopped r; stop_all cs

  abbrev pub touch : UpperDirMapping → Io (Unit {0})
  touch m = exec host (str "touch") ((m.src_dir ++ str "/d2p-migrator.txt") ∷ [])

  -- The loop that moves the upper directories. That the marker file fails is only logged.
  unfoldable pub move_all : List UpperDirMapping → Io (Unit {0})
  move_all [] = pure tt
  move_all (m ∷ ms) = do _ ← attempt (touch m); move_dir host m.src_dir m.dst_dir; move_all ms

  unfoldable pub migrate : ColdMigrator → Io (Unit {0})
  migrate cm = do
    migrate_network_file host cm.docker_home_dir (get_pouch_home_dir cm.docker_home_dir)
    stop_all cm.running_containers
    move_all cm.upper_dir_mapping_list

  unfoldable pub move_back : List UpperDirMapping → Io (Unit {0})
  move_back [] = pure tt
  move_back (m ∷ ms) = do move_dir host m.dst_dir m.src_dir; move_back ms

  unfoldable pub start_all : List Str → Io (Unit {0})
  start_all [] = pure tt
  start_all (c ∷ cs) = do
    wrap_io (str "failed start container: ") (container_start host c)
    start_all cs

  unfoldable pub revert_migration : ColdMigrator → Io (Unit {0})
  revert_migration cm = do move_back cm.upper_dir_mapping_list; start_all cm.running_containers

  -- `Cleanup`, which does nothing.
  abbrev pub cleanup : ColdMigrator → Io (Unit {0})
  cleanup cm = pure tt
