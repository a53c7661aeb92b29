-- ===== src/Migrator/Cold/Lost.antt =====
-- migrator/cold_migrate.go: the containers that docker lists before `PreMigrate` and does not list
-- in `PostMigrate`.
use d2p_migrator.Prelude.{not, ◌&&◌, List, ◌∷◌, ◌≡◌, Str, member, arith}
use d2p_migrator.Prelude.Dict.{lookup}
use d2p_migrator.Prelude.Result.{ok}
use d2p_migrator.Docker.{ContainerSummary, ids}
use d2p_migrator.Migrator.Cold.{new_cold_migrator}
use d2p_migrator.Migrator.Cold.PreMigrate.{pre_migrate}
use d2p_migrator.Migrator.Cold.PreMigrate.State.{Noted, pre_migrate-Noted}
use d2p_migrator.Migrator.Cold.PostMigrate.Laws.{lost}
use d2p_migrator.Migrator.Removal.Laws.{deleted_of-mark_existing}
use d2p_migrator.World.{Host, Trace, docker_container_list}

module _ (host : Host) where
  -- Where a new migrator's `PreMigrate` returns no error and docker lists other containers later,
  -- the containers that `PostMigrate` is to remove from pouch are exactly those that docker listed first
  -- and does not list any more.
  pub member-lost :
      (home : Str) (before after : List ContainerSummary) (t : Trace) (k : Str)
      → host.docker_container_list (docker_container_list ∷ t) ≡ ok before
      → (pre_migrate host (new_cold_migrator home) t).0 ≡ ok tt
      → member k (lost host (pre_migrate host (new_cold_migrator home) t).1 after)
        ≡ (member k (ids before) && not (member k (ids after)))
  unfolding lookup
  member-lost home before after t k listed h =
      let cm = (pre_migrate host (new_cold_migrator home) t).1 in
      let noted : Noted before (new_cold_migrator home) cm =
        pre_migrate-Noted host before (new_cold_migrator home) t listed h in
      ground
        (arith, deleted_of-mark_existing after cm.all_containers k (noted.keyed tt), noted.all k)
