-- ===== src/Tests/Removal.antt =====
-- The containers that are lost, on the sample lists.
use d2p_migrator.Prelude.{Bool, false, not, ◌&&◌, List, [], ◌∷◌, ◌≡◌, refl, none, Str, str, member}
use d2p_migrator.Prelude.Dict.{Dict, lookup, NodupKeys}
use d2p_migrator.Prelude.Result.{Result, ok}
use d2p_migrator.Docker.{ContainerSummary, ids}
use d2p_migrator.Migrator.Cold.{new_cold_migrator}
use d2p_migrator.Migrator.Cold.PreMigrate.{pre_migrate}
use d2p_migrator.Migrator.Cold.PostMigrate.Laws.{lost}
use d2p_migrator.Migrator.Cold.Lost.{member-lost}
use d2p_migrator.Migrator.Removal.{mark_existing, deleted_of, remove_all, replace_docker}
use d2p_migrator.Migrator.Live
use d2p_migrator.Migrator.Live.{LiveMigrator}
use d2p_migrator.Migrator.Live.Lost.{post_migrate-lost}
use d2p_migrator.Migrator.Removal.Laws.{
  is_unmarked, deleted_of-mark_existing, remove_requests, remove_all-onto,
}
use d2p_migrator.World.{Host, Trace, docker_container_list, docker_info}
use d2p_migrator.World.Calls.{onto}
use d2p_migrator.Tests.Samples.{host, listed}
use d2p_migrator.Tests.Everything.{everything}

abbrev home : Str
home = str "/var/lib/docker"

-- What is left of the list once a container is gone.
abbrev later : List ContainerSummary
later = record { id = str "c2"; state = str "exited" } ∷ []

pre_migrate_ok : (pre_migrate host (new_cold_migrator home) []).0 ≡ ok tt
unfolding everything
pre_migrate_ok = refl

member-lost_example :
    member (str "c1") (lost host (pre_migrate host (new_cold_migrator home) []).1 later)
    ≡ (member (str "c1") (ids listed) && not (member (str "c1") (ids later)))
member-lost_example = member-lost host home listed later [] (str "c1") refl pre_migrate_ok

-- A live migrator, and a host from which the container goes after docker's first answer.
abbrev live : LiveMigrator
live = record { docker_home_dir = home; all_containers = []; container_plugin = none }

abbrev changing : Trace → Result (List ContainerSummary)
changing (_ ∷ []) = ok listed
changing _ = ok later

abbrev leaving : Host
leaving = record host { docker_container_list = changing }

prepared_ok : (Live.pre_migrate leaving live []).0 ≡ ok tt
unfolding everything
prepared_ok = refl

post_migrate-lost_example :
    (lost : List Str) × ((
      (Live.post_migrate leaving
          (str "docker")
          (str "pouch")
          (Live.pre_migrate leaving live []).1
          (docker_info ∷ [])).0,
      (Live.post_migrate leaving
          (str "docker")
          (str "pouch")
          (Live.pre_migrate leaving live []).1
          (docker_info ∷ [])).2,
    )
      ≡ replace_docker leaving
          (str "docker")
          (str "pouch")
          lost
          (docker_container_list ∷ (docker_info ∷ [])))
    × ((k : Str) → member k lost ≡ (member k (ids listed) && not (member k (ids later))))
post_migrate-lost_example =
    post_migrate-lost leaving (str "docker") (str "pouch") listed later live [] (docker_info ∷ [])
      refl refl prepared_ok refl

abbrev all : Dict Bool
all = (str "c1", false) ∷ (str "c2", false) ∷ []

all-NodupKeys : NodupKeys all
unfolding everything
all-NodupKeys = (refl, (refl, tt))

deleted_of-mark_existing_run :
    member (str "c1") (deleted_of (mark_existing later all))
    ≡ (is_unmarked (lookup (str "c1") all) && not (member (str "c1") (ids later)))
deleted_of-mark_existing_run = deleted_of-mark_existing later all (str "c1") all-NodupKeys

remove_ok : (remove_all host (str "c1" ∷ []) []).0 ≡ ok tt
unfolding everything
remove_ok = refl

remove_all-onto_run :
    (remove_all host (str "c1" ∷ []) []).1 ≡ onto (remove_requests (str "c1" ∷ [])) []
remove_all-onto_run = remove_all-onto host (str "c1" ∷ []) [] remove_ok
