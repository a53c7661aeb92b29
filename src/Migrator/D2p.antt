-- ===== src/Migrator/D2p.antt =====
-- migrator/migrator.go and migrator/interface.go: the migrator that the command drives, over one of
-- the registered migrations.
pub mod Images
pub mod Start
pub mod Quiet
use d2p_migrator.Prelude.{
  Bool, true, false, List, [], ◌∷◌, ◌++◌, Option, none, some, Str, ◌==◌, str, if◌then◌else◌,
}
use d2p_migrator.Prelude.Dict.{Dict, lookup, insert}
use d2p_migrator.Prelude.Int.{ℤ, negsuc}
use d2p_migrator.Prelude.Result.{Result, ok, errorf}
use d2p_migrator.Docker.Client.{new_dockerd, info}
use d2p_migrator.Ctrd.Client.{new_ctrd_client}
use d2p_migrator.Ctrd.Process.{start_containerd, cleanup}
use d2p_migrator.Migrator.Disk.{validate_docker, get_pouch_home_dir, prepare_config_for_pouch}
use d2p_migrator.Migrator.Cold.{ColdMigrator, new_cold_migrator}
use d2p_migrator.Migrator.Cold.PreMigrate
use d2p_migrator.Migrator.Cold.Migrate
use d2p_migrator.Migrator.Cold.PostMigrate
use d2p_migrator.Migrator.Live
use d2p_migrator.Hookplugins.{ContainerPlugin, get_container_plugin}
use d2p_migrator.Migrator.Live.{LiveMigrator}
use d2p_migrator.World.{Host, Io, pure, failf, wrap_io, lift, ◌>>=◌, ◌>>◌, Trace}
use d2p_migrator.World.Exec.{Exec}

-- `Config`
pub record Config : Type 0 where
  pub type : Str
  pub docker_rpm_name : Str
  pub pouch_rpm_path : Str
  pub docker_home_dir : Str
  pub image_manifest_only : Bool
  pub container_plugin : Option ContainerPlugin

-- The values of the interface `Migrator`.
pub data Migrator : Type 0 where
  cold : ColdMigrator → Migrator
  live : LiveMigrator → Migrator

-- `Register`
abbrev pub Factory : Type 0
Factory = Dict (Config → Migrator)

unfoldable pub register : Str → (Config → Migrator) → Factory → Factory
register = insert

-- The constructors of the two migrations.
abbrev pub make_cold : Config → Migrator
make_cold cfg = cold (new_cold_migrator cfg.docker_home_dir)

abbrev pub make_live : Config → Migrator
make_live cfg = live (record {
  docker_home_dir = cfg.docker_home_dir;
  all_containers = [];
  container_plugin = cfg.container_plugin;
})

-- What the `init` functions of the two files register.
unfoldable pub migrator_factory : Factory
migrator_factory =
    register (str "live-migrate") make_live (register (str "cold-migrate") make_cold [])

-- `D2pMigrator`
pub record D2pMigrator : Type 0 where
  pub config : Config
  pub migrator : Migrator
  pub ctrd_pid : ℤ
  pub container_plugin : Option ContainerPlugin

-- The names of the packages, where they are not given.
unfoldable pub with_defaults : Config → Config
with_defaults cfg = record cfg {
  docker_rpm_name = if cfg.docker_rpm_name == [] then str "docker" else cfg.docker_rpm_name;
  pouch_rpm_path = if cfg.pouch_rpm_path == [] then str "pouch" else cfg.pouch_rpm_path;
}

-- `loadPlugin`, from the plugin that is registered and the migrator's own one.
unfoldable pub load_plugin :
    Option ContainerPlugin → Option ContainerPlugin → Option ContainerPlugin
load_plugin registered current = elim (get_container_plugin registered) [
  | none ↦ current
  | some plugin ↦ some plugin
]

find_factory : Str → Result (Config → Migrator)
find_factory type = elim (lookup type migrator_factory) [
  | none ↦ errorf (str "migrator type " ++ type ++ str " not found")
  | some create ↦ ok create
]

require_type : Str → Result (Unit {0})
require_type type = if type == [] then errorf (str "must specify migrator type") else ok tt

module _ (host : Host) where
  -- `NewD2pMigrator`, with the plugin that is registered.
  unfoldable pub new_d2p_migrator : Option ContainerPlugin → Config → Io D2pMigrator
  unfolding require_type find_factory
  new_d2p_migrator plugin given = do
    lift (require_type given.type)
    let cfg = with_defaults given
    create ← lift (find_factory cfg.type)
    wrap_io (str "failed to create docker client: ") (new_dockerd host)
    docker_info ← wrap_io (str "failed to get docker info: ") (info host)
    lift (validate_docker docker_info)
    let home = docker_info.docker_root_dir
    pid ←
        wrap_io (str "failed to start containerd instance: ")
          (start_containerd host (get_pouch_home_dir home) true)
    _ ← wrap_io (str "failed to get containerd client: ") (new_ctrd_client host)
    let config = record cfg { docker_home_dir = home }
    pure (record {
      config = config;
      migrator = create (record config { container_plugin = load_plugin plugin none });
      ctrd_pid = pid;
      container_plugin = load_plugin plugin none;
    })

  unfoldable pub init_pouch_env : D2pMigrator → Io (Unit {0})
  init_pouch_env d =
      wrap_io (str "failed to prepare config for pouch: ")
        (prepare_config_for_pouch host (get_pouch_home_dir d.config.docker_home_dir))

  -- The call of a method through the interface; the object may have changed when it returns.
  store_cold :
      D2pMigrator
      → Result (Unit {0}) × ColdMigrator × Trace
      → Result (Unit {0}) × D2pMigrator × Trace
  store_cold d (r, cm, t) = (r, record d { migrator = cold cm }, t)

  store_live :
      D2pMigrator
      → Result (Unit {0}) × LiveMigrator × Trace
      → Result (Unit {0}) × D2pMigrator × Trace
  store_live d (r, lm, t) = (r, record d { migrator = live lm }, t)

  pre_migrate_on : Migrator → Exec D2pMigrator (Unit {0})
  unfolding store_cold store_live
  pre_migrate_on (cold cm) d t = store_cold d (PreMigrate.pre_migrate host cm t)
  pre_migrate_on (live lm) d t = store_live d (Live.pre_migrate host lm t)

  post_migrate_on : Migrator → Exec D2pMigrator (Unit {0})
  unfolding store_cold store_live
  post_migrate_on (cold cm) d t =
      store_cold d
        (PostMigrate.post_migrate host d.config.docker_rpm_name d.config.pouch_rpm_path cm t)
  post_migrate_on (live lm) d t =
      store_live d (Live.post_migrate host d.config.docker_rpm_name d.config.pouch_rpm_path lm t)

  migrate_on : Migrator → Io (Unit {0})
  migrate_on (cold cm) = Migrate.migrate host cm
  migrate_on (live lm) = Live.migrate host lm

  revert_on : Migrator → Io (Unit {0})
  revert_on (cold cm) = Migrate.revert_migration host cm
  revert_on (live lm) = Live.revert_migration host lm

  cleanup_on : Migrator → Io (Unit {0})
  cleanup_on (cold cm) = Migrate.cleanup host cm
  cleanup_on (live lm) = Live.cleanup host lm

  after_init : Result (Unit {0}) × Trace → D2pMigrator → Result (Unit {0}) × D2pMigrator × Trace
  unfolding pre_migrate_on
  after_init (ok _, t) d = pre_migrate_on d.migrator d t
  after_init (r, t) d = (r, d, t)

  unfoldable pub pre_migrate : Exec D2pMigrator (Unit {0})
  unfolding after_init
  pre_migrate d t = after_init (init_pouch_env d t) d

  -- The containerd instance is stopped only behind a migration that succeeded.
  unfoldable pub migrate : D2pMigrator → Io (Unit {0})
  unfolding migrate_on
  migrate d = do
    migrate_on d.migrator
    wrap_io (str "failed to kill containerd instance: ") (cleanup host d.ctrd_pid)

  unfoldable pub post_migrate : Exec D2pMigrator (Unit {0})
  unfolding post_migrate_on
  post_migrate d t = post_migrate_on d.migrator d t

  unfoldable pub revert_migration : D2pMigrator → Io (Unit {0})
  unfolding revert_on
  revert_migration d = revert_on d.migrator

  -- `Cleanup`
  unfoldable pub cleanup_migrator : D2pMigrator → Io (Unit {0})
  unfolding cleanup_on
  cleanup_migrator d = cleanup_on d.migrator
