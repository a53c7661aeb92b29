-- ===== src/Migrator/Cold/PostMigrate.antt =====
-- migrator/cold_migrate.go: `PostMigrate` of the cold migration.
pub mod Laws
use d2p_migrator.Prelude.{Bool, List, [], ◌∷◌, ◌++◌, Str, str, if◌then◌else◌}
use d2p_migrator.Prelude.Dict.{Dict}
use d2p_migrator.Docker.{ContainerSummary}
use d2p_migrator.Docker.Client.{container_list}
use d2p_migrator.Pouch.Service.{container_start}
use d2p_migrator.Migrator.Cold.{ColdMigrator}
use d2p_migrator.Migrator.Removal.{mark_existing, deleted_of, replace_docker}
use d2p_migrator.Utils.{string_in_slice}
use d2p_migrator.Utils.Files.{exec}
use d2p_migrator.World
use d2p_migrator.World.{Host, Io, pure, wrap_io, attempt}
use d2p_migrator.World.Exec.{Exec, io, gets, modify, ◌>>=◌, ◌>>◌}

module _ (host : Host) where
  -- The loop that starts the containers which ran before and are still there.
  unfoldable pub start_running : List Str → List Str → Io (Unit {0})
  start_running deleted [] = pure tt
  start_running deleted (c ∷ cs) =
      let skip = start_running deleted cs in
      let start = World.◌>>=◌ (container_start host c) (λ _. start_running deleted cs) in
      if string_in_slice deleted c then skip else start

  unfoldable pub post_migrate : Str → Str → Exec ColdMigrator (Unit {0})
  post_migrate docker_rpm_name pouch_rpm_path = do
    containers ← io (wrap_io (str "failed to get containers list: ") (container_list host))
    modify (λ (cm : ColdMigrator). record cm {
      all_containers = mark_existing containers cm.all_containers;
    })
    deleted ← gets (λ (cm : ColdMigrator). deleted_of cm.all_containers)
    io (replace_docker host docker_rpm_name pouch_rpm_path deleted)
    _ ← io (attempt (exec host (str "ip") (str "link" ∷ str "del" ∷ str "docker0" ∷ [])))
    running ← gets (λ (cm : ColdMigrator). cm.running_containers)
    io (start_running deleted running)
