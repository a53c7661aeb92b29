-- ===== src/Migrator/Cold.antt =====
-- migrator/cold_migrate.go: the state of the cold migration, and how a container is prepared.
pub mod PreMigrate
pub mod Migrate
pub mod PostMigrate
pub mod Order
pub mod Lost
use d2p_migrator.Prelude.{
  Bool, true, false, ◌||◌, List, [], ◌∷◌, ◌++◌, Option, none, some, Str, ◌==◌, str, if◌then◌else◌,
  has_prefix, trim_prefix,
}
use d2p_migrator.Prelude.Dict.{Dict, insert, has, get_str}
use d2p_migrator.Prelude.Result.{Result, ok, deref}
use d2p_migrator.Pouch
use d2p_migrator.Ctrd.Client.{pull_image}
use d2p_migrator.Migrator.Snapshot.{prepare_snapshot}
use d2p_migrator.World.{Host, Io, Mount, call, pure, failf, lift, attempt, done, failed, Attempt}
use d2p_migrator.World.Exec.{Exec, io, gets, modify, ◌>>=◌, ◌>>◌}

-- `upperDirMapping`
pub record UpperDirMapping : Type 0 where
  pub src_dir : Str
  pub dst_dir : Str

-- `coldMigrator`. The set of images is the map's keys.
pub record ColdMigrator : Type 0 where
  pub docker_home_dir : Str
  pub upper_dir_mapping_list : List UpperDirMapping
  pub all_containers : Dict Bool
  pub running_containers : List Str
  pub images : Dict (Unit {0})

-- `NewColdMigrator`
abbrev pub new_cold_migrator : Str → ColdMigrator
new_cold_migrator docker_home_dir = record {
  docker_home_dir = docker_home_dir;
  upper_dir_mapping_list = [];
  all_containers = [];
  running_containers = [];
  images = [];
}

module _ (host : Host) where
  -- The image is noted before it is pulled, and pulled only if it was not noted before.
  unfoldable pub prepare_image : Str → Str → Exec ColdMigrator (Unit {0})
  prepare_image img snapshotter = do
    exists ← gets (λ (cm : ColdMigrator). has img cm.images)
    (if exists then io (pure tt) else (do
      modify (λ (cm : ColdMigrator). record cm { images = insert img tt cm.images })
      io (pull_image host img snapshotter false)))

  -- `doPrepare`
  unfoldable pub do_prepare : Pouch.Container → Exec ColdMigrator Pouch.Container
  do_prepare meta = do
    config ← io (lift (deref meta.config))
    prepare_image config.image
        (if meta.driver == str "overlay" then str "overlay1fs" else str "overlayfs")
    io (prepare_snapshot host meta config)
