-- ===== src/Migrator/Live.antt =====
-- migrator/live_migrate.go: the live migration, which takes over running containers.
pub mod TakeOver
pub mod Quiet
pub mod Lost
use d2p_migrator.Prelude.{
  Bool, true, false, List, [], ◌∷◌, ◌++◌, Option, none, some, Str, str, if◌then◌else◌,
}
use d2p_migrator.Prelude.Dict.{Dict, insert}
use d2p_migrator.Prelude.FilePath.{path_join}
use d2p_migrator.Prelude.Result.{deref, not_found, is_class}
use d2p_migrator.Docker
use d2p_migrator.Hookplugins.{ContainerPlugin}
use d2p_migrator.Docker.Client.{container_list, container_inspect, volume_list}
use d2p_migrator.Pouch
use d2p_migrator.Pouch.{Status}
use d2p_migrator.Convertor.Container.{to_pouch_container_meta}
use d2p_migrator.Convertor.SandboxName.{sandbox_name_match}
use d2p_migrator.Convertor.Volumes.{to_volumes}
use d2p_migrator.Ctrd.Client.{get_container, delete_container, new_container}
use d2p_migrator.Migrator.Disk.{get_pouch_home_dir, save_to_disk, migrate_network_file}
use d2p_migrator.Migrator.Volumes.{container_volume_refs_count, prepare_volumes}
use d2p_migrator.Migrator.Sandboxes.{generate_sandbox_meta_json}
use d2p_migrator.Migrator.Removal.{mark_existing, deleted_of, replace_docker}
use d2p_migrator.World
use d2p_migrator.World.{Host, Io, pure, failf, wrap_io, lift, attempt, done, failed, Attempt}
use d2p_migrator.World.Exec.{Exec, io, gets, modify, ◌>>=◌, ◌>>◌}

-- `liveMigrator`
pub record LiveMigrator : Type 0 where
  pub docker_home_dir : Str
  pub all_containers : Dict Bool
  pub container_plugin : Option ContainerPlugin

-- The local variables of `PreMigrate`.
pub record Locals : Type 0 where
  pub volume_refs : Dict Str
  pub sandbox_containers : List Pouch.Container

note_locals : Pouch.Container → Locals → Locals
note_locals meta locals = record {
  volume_refs = container_volume_refs_count meta.id meta.mounts locals.volume_refs;
  sandbox_containers =
      if sandbox_name_match meta.name
      then locals.sandbox_containers ++ meta ∷ []
      else locals.sandbox_containers;
}

unfoldable pub is_running : Status → Bool
is_running Status.running = true
is_running _ = false

module _ (host : Host) where
  -- A containerd container that is there already is deleted first.
  delete_found : Str → Attempt (Unit {0}) → Io (Unit {0})
  delete_found id (done _) =
      wrap_io (str "failed to delete already existed containerd container " ++ id ++ str ": ")
        (delete_container host id)
  delete_found id (failed e) =
      if is_class e.class not_found
      then pure tt
      else failf (str "failed to get containerd container: " ++ e.text)

  take_over : Str → Io (Unit {0})
  unfolding delete_found
  take_over id =
      World.◌>>=◌ (attempt (get_container host id))
        λ found. World.◌>>=◌ (delete_found id found) λ _. new_container host id

  -- `prepareCtrdContainers`, which is all of `doPrepare`.
  unfoldable pub prepare_ctrd_containers : Pouch.Container → Io (Unit {0})
  unfolding take_over is_running
  prepare_ctrd_containers meta =
      World.◌>>=◌ (lift (deref meta.state))
        λ state. if is_running state.status then take_over meta.id else pure tt

  plug : Option ContainerPlugin → Str → Pouch.Container → Io Pouch.Container
  plug none home meta = pure meta
  plug (some plugin) home meta =
      wrap_io (str "failed to call PostConvert plugin: ") (plugin.post_convert home meta)

  -- One round of the loop over the containers.
  unfoldable pub migrate_container : Docker.ContainerSummary → Locals → Exec LiveMigrator Locals
  unfolding plug note_locals
  migrate_container c locals = do
    modify
        (λ (lm : LiveMigrator). record lm { all_containers = insert c.id false lm.all_containers })
    meta ← io (container_inspect host c.id)
    converted ← io (lift (to_pouch_container_meta host.to_utc meta))
    plugin ← gets (λ (lm : LiveMigrator). lm.container_plugin)
    home ← gets (λ (lm : LiveMigrator). lm.docker_home_dir)
    pouch_meta ← io (plug plugin home converted)
    io (prepare_ctrd_containers pouch_meta)
    io (save_to_disk host (path_join (get_pouch_home_dir home ∷ str "containers" ∷ [])) pouch_meta)
    io (pure (note_locals pouch_meta locals))

  unfoldable pub migrate_containers :
      List Docker.ContainerSummary → Locals → Exec LiveMigrator Locals
  migrate_containers [] locals = io (pure locals)
  migrate_containers (c ∷ containers) locals = do
    locals' ← migrate_container c locals
    migrate_containers containers locals'

  pre_migrate_list : List Docker.ContainerSummary → Exec LiveMigrator (Unit {0})
  pre_migrate_list [] = io (pure tt)
  pre_migrate_list (c ∷ cs) = do
    docker_volumes ← io (wrap_io (str "failed to get volumes list: ") (volume_list host))
    pouch_volumes ← io (to_volumes host docker_volumes)
    locals ← migrate_containers (c ∷ cs) (record { volume_refs = []; sandbox_containers = [] })
    home ← gets (λ (lm : LiveMigrator). lm.docker_home_dir)
    io (prepare_volumes host (get_pouch_home_dir home) pouch_volumes locals.volume_refs)
    io (generate_sandbox_meta_json host (get_pouch_home_dir home) locals.sandbox_containers)

  unfoldable pub pre_migrate : Exec LiveMigrator (Unit {0})
  unfolding pre_migrate_list
  pre_migrate = do
    containers ← io (wrap_io (str "failed to get containers list: ") (container_list host))
    pre_migrate_list containers

  unfoldable pub migrate : LiveMigrator → Io (Unit {0})
  migrate lm = migrate_network_file host lm.docker_home_dir (get_pouch_home_dir lm.docker_home_dir)

  unfoldable pub post_migrate : Str → Str → Exec LiveMigrator (Unit {0})
  post_migrate docker_rpm_name pouch_rpm_path = do
    containers ← io (wrap_io (str "failed to get containers list: ") (container_list host))
    modify (λ (lm : LiveMigrator). record lm {
      all_containers = mark_existing containers lm.all_containers;
    })
    deleted ← gets (λ (lm : LiveMigrator). deleted_of lm.all_containers)
    io (replace_docker host docker_rpm_name pouch_rpm_path deleted)

  -- `RevertMigration`, which does nothing.
  abbrev pub revert_migration : LiveMigrator → Io (Unit {0})
  revert_migration lm = pure tt

  -- `Cleanup`, which does nothing.
  abbrev pub cleanup : LiveMigrator → Io (Unit {0})
  cleanup lm = pure tt
