-- ===== src/Migrator/Removal.antt =====
-- migrator/cold_migrate.go and migrator/live_migrate.go: the containers that docker has lost since
-- `PreMigrate`, and the first part of `PostMigrate`, which is the same in both.
pub mod Laws
use d2p_migrator.Prelude.{
  Bool, true, false, not, List, [], ◌∷◌, ◌++◌, Str, str, contains, if◌then◌else◌,
}
use d2p_migrator.Prelude.Dict.{Dict, has, insert}
use d2p_migrator.Prelude.Result.{Error}
use d2p_migrator.Docker.{ContainerSummary}
use d2p_migrator.Docker.Service.{uninstall_docker_service}
use d2p_migrator.Pouch.Service.{install_pouch_service, new_pouch_client, container_remove}
use d2p_migrator.World.{Host, Io, pure, fail, attempt, done, failed, Attempt, ◌>>=◌, ◌>>◌}

-- The loop over docker's containers: those that are known are marked as still there.
unfoldable pub mark_existing : List ContainerSummary → Dict Bool → Dict Bool
mark_existing [] all = all
mark_existing (c ∷ cs) all = mark_existing cs (if has c.id all then insert c.id true all else all)

-- The loop over the map: those that are not marked.
unfoldable pub deleted_of : Dict Bool → List Str
deleted_of [] = []
deleted_of ((id, exists) ∷ all) =
    let rest = deleted_of all in if not exists then id ∷ rest else rest

module _ (host : Host) where
  -- That a container is not found is no failure to remove it.
  removed : Attempt (Unit {0}) → Io (Unit {0})
  removed (done _) = pure tt
  removed (failed e) = if not (contains e.text (str "not found")) then fail e else pure tt

  unfoldable pub remove_all : List Str → Io (Unit {0})
  unfolding removed
  remove_all [] = pure tt
  remove_all (c ∷ cs) = do r ← attempt (container_remove host c true); removed r; remove_all cs

  -- From the removal of docker to the removal of the lost containers from pouch.
  unfoldable pub replace_docker : Str → Str → List Str → Io (Unit {0})
  replace_docker docker_rpm_name pouch_rpm_path deleted = do
    uninstall_docker_service host docker_rpm_name
    install_pouch_service host pouch_rpm_path
    new_pouch_client host
    remove_all deleted
