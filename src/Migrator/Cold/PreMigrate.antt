-- ===== src/Migrator/Cold/PreMigrate.antt =====
-- migrator/cold_migrate.go: `PreMigrate` of the cold migration.
pub mod State
pub mod Pulls
use d2p_migrator.Prelude.{
  Bool, true, false, List, [], ◌∷◌, ◌++◌, Option, none, some, Str, ◌==◌, str, if◌then◌else◌,
}
use d2p_migrator.Prelude.Dict.{Dict, insert, get_str}
use d2p_migrator.Prelude.FilePath.{path_join}
use d2p_migrator.Prelude.Result.{Result, ok, deref}
use d2p_migrator.Docker
use d2p_migrator.Docker.Client.{container_list, container_inspect, volume_list}
use d2p_migrator.Pouch
use d2p_migrator.Convertor.Container.{to_pouch_container_meta}
use d2p_migrator.Convertor.SandboxName.{sandbox_name_match}
use d2p_migrator.Convertor.Volumes.{to_volumes}
use d2p_migrator.Migrator.Disk.{get_pouch_home_dir, save_to_disk}
use d2p_migrator.Migrator.Volumes.{container_volume_refs_count, prepare_volumes}
use d2p_migrator.Migrator.Sandboxes.{generate_sandbox_meta_json}
use d2p_migrator.Migrator.Cold.{ColdMigrator, UpperDirMapping, do_prepare}
use d2p_migrator.World.{Host, Io, pure, wrap_io, lift, attempt, done, failed, Attempt}
use d2p_migrator.World.Exec.{Exec, io, gets, modify, ◌>>=◌, ◌>>◌}

-- The local variables of the loop: the references to volumes and the sandbox containers.
pub record Locals : Type 0 where
  pub volume_refs : Dict Str
  pub sandbox_containers : List Pouch.Container

-- A container is noted, and noted as running if it runs.
unfoldable pub note_container : Docker.ContainerSummary → ColdMigrator → ColdMigrator
note_container c cm = record cm {
  all_containers = insert c.id false cm.all_containers;
  running_containers =
      if c.state == str "running"
      then cm.running_containers ++ c.id ∷ []
      else cm.running_containers;
}

unfoldable pub note_mapping : UpperDirMapping → ColdMigrator → ColdMigrator
note_mapping m cm = record cm { upper_dir_mapping_list = cm.upper_dir_mapping_list ++ m ∷ [] }

abbrev pub rootfs : Str → Str → Str
rootfs pouch_home_dir id = path_join (
    pouch_home_dir
    ∷ str "containerd/state/io.containerd.runtime.v1.linux/default"
    ∷ id
    ∷ str "rootfs"
    ∷ [])

-- The locals behind a container. The list holds a pointer, so that it sees the container as it is
-- saved.
note_locals : Pouch.Container → Locals → Locals
note_locals meta locals = record {
  volume_refs = container_volume_refs_count meta.id meta.mounts locals.volume_refs;
  sandbox_containers =
      if sandbox_name_match meta.name
      then locals.sandbox_containers ++ meta ∷ []
      else locals.sandbox_containers;
}

module _ (host : Host) where
  -- One round of the loop over the containers.
  unfoldable pub migrate_container : Docker.ContainerSummary → Locals → Exec ColdMigrator Locals
  unfolding note_locals
  migrate_container c locals = do
    modify (note_container c)
    meta ← io (container_inspect host c.id)
    converted ← io (lift (to_pouch_container_meta host.to_utc meta))
    prepared ← do_prepare host converted
    docker_home_dir ← gets (λ (cm : ColdMigrator). cm.docker_home_dir)
    let pouch_home_dir = get_pouch_home_dir docker_home_dir
    let pouch_meta : Pouch.Container = record prepared {
      base_fs = rootfs pouch_home_dir meta.id;
      root_fs_provided = false;
    }
    snapshotter ← io (lift (deref pouch_meta.snapshotter))
    modify (
        note_mapping (record {
          src_dir = get_str (str "UpperDir") meta.graph_data;
          dst_dir = get_str (str "UpperDir") snapshotter.entries;
        }))
    io (save_to_disk host (path_join (pouch_home_dir ∷ str "containers" ∷ [])) pouch_meta)
    io (pure (note_locals pouch_meta locals))

  unfoldable pub migrate_containers :
      List Docker.ContainerSummary → Locals → Exec ColdMigrator Locals
  migrate_containers [] locals = io (pure locals)
  migrate_containers (c ∷ containers) locals = do
    locals' ← migrate_container c locals
    migrate_containers containers locals'

  -- The end of `PreMigrate`: where the volumes fail, the method returns no error.
  finish : Str → Locals → Attempt (Unit {0}) → Io (Unit {0})
  finish pouch_home_dir locals (failed _) = pure tt
  finish pouch_home_dir locals (done _) =
      generate_sandbox_meta_json host pouch_home_dir locals.sandbox_containers

  -- The part of `PreMigrate` behind the test for an empty host.
  unfoldable pub pre_migrate_containers :
      List Docker.ContainerSummary → Exec ColdMigrator (Unit {0})
  unfolding finish
  pre_migrate_containers containers = do
    docker_volumes ← io (wrap_io (str "failed to get volumes list: ") (volume_list host))
    pouch_volumes ← io (to_volumes host docker_volumes)
    locals ← migrate_containers containers (record { volume_refs = []; sandbox_containers = [] })
    docker_home_dir ← gets (λ (cm : ColdMigrator). cm.docker_home_dir)
    let pouch_home_dir = get_pouch_home_dir docker_home_dir
    prepared ← io (attempt (prepare_volumes host pouch_home_dir pouch_volumes locals.volume_refs))
    io (finish pouch_home_dir locals prepared)

  unfoldable pub pre_migrate_list : List Docker.ContainerSummary → Exec ColdMigrator (Unit {0})
  unfolding pre_migrate_containers
  pre_migrate_list [] = io (pure tt)
  pre_migrate_list (c ∷ cs) = pre_migrate_containers (c ∷ cs)

  unfoldable pub pre_migrate : Exec ColdMigrator (Unit {0})
  unfolding pre_migrate_list
  pre_migrate = do
    containers ← io (wrap_io (str "failed to get containers list: ") (container_list host))
    pre_migrate_list containers
