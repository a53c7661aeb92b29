-- ===== src/Tests/Cold.antt =====
-- The cold migration on the sample host.
use d2p_migrator.Prelude.{
  true, false, [], ◌∷◌, ◌++◌, ◌≡◌, ◌≢◌, refl, Str, str, length, ◌+◌, ◌≤◌, ℕ, take, arith,
}
use d2p_migrator.Prelude.Result.{ok, is_ok}
use d2p_migrator.Migrator.Cold.{ColdMigrator, new_cold_migrator}
use d2p_migrator.Migrator.Cold.PreMigrate.{pre_migrate, migrate_containers}
use d2p_migrator.Migrator.Cold.PreMigrate.State.{Noted, pre_migrate-Noted, no_locals}
use d2p_migrator.Migrator.Cold.PreMigrate.Pulls.{
  pulls, migrate_containers-pulls, migrate_containers-pulls_ok,
}
use d2p_migrator.Migrator.Cold.Migrate.{migrate, revert_migration, stop_all}
use d2p_migrator.Migrator.Cold.Order.{
  migrate-onto, revert_migration-onto, migrate_unstopped, stop_requests, start_requests,
  move_requests, move_back_requests, network_trace,
}
use d2p_migrator.Migrator.Cold.PostMigrate.{post_migrate}
use d2p_migrator.Migrator.Cold.PostMigrate.Laws
use d2p_migrator.Migrator.Cold.PostMigrate.Laws.{
  post_migrate-onto, lost, delete_bridge, still_there,
}
use d2p_migrator.Migrator.Disk.{migrate_network_file, get_pouch_home_dir}
use d2p_migrator.Migrator.Removal.{replace_docker}
use d2p_migrator.World.{docker_container_list}
use d2p_migrator.World.Calls.{onto}
use d2p_migrator.Tests.Samples.{host, stuck, listed}
use d2p_migrator.Tests.Everything.{everything}

abbrev fresh : ColdMigrator
fresh = new_cold_migrator (str "/var/lib/docker")

pre_migrate_ok : (pre_migrate host fresh []).0 ≡ ok tt
unfolding everything
pre_migrate_ok = refl

pre_migrate-Noted_example : Noted listed fresh (pre_migrate host fresh []).1
pre_migrate-Noted_example = pre_migrate-Noted host listed fresh [] refl pre_migrate_ok

migrate_containers-pulls_example :
    pulls (migrate_containers host listed no_locals fresh []).2 + length fresh.images
    ≤ pulls [] + length (migrate_containers host listed no_locals fresh []).1.images
migrate_containers-pulls_example = migrate_containers-pulls host listed no_locals fresh []

migrate_containers_ok : is_ok (migrate_containers host listed no_locals fresh []).0 ≡ true
unfolding everything
migrate_containers_ok = refl

migrate_containers-pulls_ok_example :
    pulls (migrate_containers host listed no_locals fresh []).2 + length fresh.images
    ≡ pulls [] + length (migrate_containers host listed no_locals fresh []).1.images
migrate_containers-pulls_ok_example =
    migrate_containers-pulls_ok host listed no_locals fresh [] migrate_containers_ok

-- Both containers use one image, which is pulled once.
pulls_once : pulls (migrate_containers host listed no_locals fresh []).2 ≡ 1
unfolding everything
pulls_once = refl

-- A migrator that has noted two containers that run and one mapping.
abbrev noted : ColdMigrator
noted = record fresh {
  upper_dir_mapping_list = record { src_dir = str "/old"; dst_dir = str "/upper" } ∷ [];
  all_containers = (str "c1", false) ∷ (str "c3", false) ∷ [];
  running_containers = str "c1" ∷ str "c3" ∷ [];
}

migrate_ok : (migrate host noted []).0 ≡ ok tt
unfolding everything
migrate_ok = refl

migrate-onto_example :
    (migrate host noted []).1
    ≡ onto
        (stop_requests noted.running_containers ++ move_requests noted.upper_dir_mapping_list)
        (network_trace host noted [])
migrate-onto_example = migrate-onto host noted [] migrate_ok

revert_ok : (revert_migration host noted []).0 ≡ ok tt
unfolding everything
revert_ok = refl

revert_migration-onto_example :
    (revert_migration host noted []).1
    ≡ onto
        (move_back_requests noted.upper_dir_mapping_list ++ start_requests noted.running_containers)
        []
revert_migration-onto_example = revert_migration-onto host noted [] revert_ok

copied :
    (migrate_network_file stuck noted.docker_home_dir
      (get_pouch_home_dir noted.docker_home_dir)
      []).0
    ≡ ok tt
unfolding everything
copied = refl

unstopped : (stop_all stuck noted.running_containers (network_trace stuck noted [])).0 ≢ ok tt
unfolding everything
unstopped h = absurd (ground (arith, h))

migrate_unstopped_example :
    ((migrate stuck noted []).0
      ≡ (stop_all stuck noted.running_containers (network_trace stuck noted [])).0)
    × ((n : ℕ) × ((migrate stuck noted []).1
          ≡ onto (stop_requests (take n noted.running_containers)) (network_trace stuck noted [])))
migrate_unstopped_example = migrate_unstopped stuck noted [] copied unstopped

abbrev rpm : Str
rpm = str "docker"

abbrev path : Str
path = str "pouch.rpm"

post_migrate_ok : (post_migrate host rpm path noted []).0 ≡ ok tt
unfolding everything
post_migrate_ok = refl

post_migrate-onto_example :
    (post_migrate host rpm path noted []).2
    ≡ onto
        (delete_bridge host
          ∷ Laws.start_requests (still_there (lost host noted listed) noted.running_containers))
        (replace_docker host rpm path (lost host noted listed) (docker_container_list ∷ [])).1
post_migrate-onto_example = post_migrate-onto host rpm path noted [] listed refl post_migrate_ok
