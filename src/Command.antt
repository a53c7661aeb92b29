-- ===== src/Command.antt =====
-- main.go: the command, from its flags to the end of the migration. `initLog` and the parse of the
-- command line only set up libraries.
pub mod Phases
pub mod Calm
pub mod Success
use d2p_migrator.Prelude.{ℕ, Bool, false, [], none, some, Str, ◌==◌, str, if◌then◌else◌, not}
use d2p_migrator.Prelude.Result.{Result, ok, err, panic}
use d2p_migrator.Ctrd.Proxy.{Registry, set_image_proxy, set_credential}
use d2p_migrator.Hookplugins.{registered_plugin}
use d2p_migrator.Migrator.D2p
use d2p_migrator.Migrator.D2p.{
  D2pMigrator, new_d2p_migrator, pre_migrate, migrate, post_migrate, revert_migration,
  cleanup_migrator,
}
use d2p_migrator.Migrator.D2p.Images.{prepare_images}
use d2p_migrator.World.{Host, Io, pure, attempt, finally, ◌>>=◌, Trace}

-- `Config` of main.go, and the flag for the version.
pub record Flags : Type 0 where
  pub docker_rpm_name : Str
  pub pouch_rpm_path : Str
  pub migrate_all : Bool
  pub image_proxy : Str
  pub live_migrate : Bool
  pub prepare_image : Bool
  pub image_manifest_only : Bool
  pub user : Str
  pub print_version : Bool

-- The default values of `setupFlags`.
abbrev pub default_flags : Flags
default_flags = record {
  docker_rpm_name = str "docker";
  pouch_rpm_path = str "pouch";
  migrate_all = false;
  image_proxy = [];
  live_migrate = false;
  prepare_image = false;
  image_manifest_only = false;
  user = [];
  print_version = false;
}

unfoldable pub set_registry : Flags → Registry → Registry
set_registry flags r =
    let r' = if not (flags.image_proxy == []) then set_image_proxy flags.image_proxy r else r in
    if not (flags.user == []) then set_credential flags.user r' else r'

-- The configuration of the migrator.
unfoldable pub migrator_config : Flags → D2p.Config
migrator_config flags = record {
  type = if flags.live_migrate then str "live-migrate" else str "cold-migrate";
  docker_rpm_name = flags.docker_rpm_name;
  pouch_rpm_path = flags.pouch_rpm_path;
  docker_home_dir = [];
  image_manifest_only = flags.image_manifest_only;
  container_plugin = none;
}

-- The result behind a reversal, whose error is only logged; a panic in it is one of the command.
abbrev pub reversed : Result (Unit {0}) → Result (Unit {0}) → Result (Unit {0})
reversed r (ok _) = r
reversed r (err _) = r
reversed r panic = panic

module _ (host : Host) where
  -- The deferred function that reverts a migration which failed. That this fails is only logged.
  revert : D2pMigrator → Io (Unit {0})
  revert d = do _ ← attempt (revert_migration host d); pure tt

  -- What follows `Migrate`.
  after_migrate : D2pMigrator → Result (Unit {0}) × Trace → Result (Unit {0}) × Trace
  unfolding revert
  after_migrate d (ok _, t) = let (r, _, t') = post_migrate host d t in (r, t')
  after_migrate d (err e, t) = let (r, t') = revert d t in (reversed (err e) r, t')
  after_migrate d (panic, t) = (panic, t)

  -- What follows `PreMigrate`.
  after_pre_migrate : Flags → Result (Unit {0}) × D2pMigrator × Trace → Result (Unit {0}) × Trace
  unfolding after_migrate
  after_pre_migrate flags (ok _, d, t) =
      let all = after_migrate d (migrate host d t) in if flags.migrate_all then all else (ok tt, t)
  after_pre_migrate flags (r, d, t) = (r, t)

  unfoldable pub run_migrator : Flags → D2pMigrator → Io (Unit {0})
  unfolding after_pre_migrate
  run_migrator flags d t =
      let all = after_pre_migrate flags (pre_migrate host d t) in
      let images = prepare_images host flags.image_manifest_only t in
      if flags.prepare_image then images else all

  -- `runCmd`, with the deferred `Cleanup`.
  unfoldable pub run_cmd : Flags → Io (Unit {0})
  unfolding run_migrator
  run_cmd flags =
      let run : Io (Unit {0}) = (do
        d ← new_d2p_migrator host registered_plugin (migrator_config flags)
        finally (run_migrator flags d) (cleanup_migrator host d)) in
      if flags.print_version then pure tt else run

  exit_code : Result (Unit {0}) → ℕ
  exit_code (ok _) = 0
  exit_code (err _) = 1
  exit_code panic = 2

  -- `main`, for flags that have been parsed: the exit code of the process. It does nothing where the process
  -- is one that docker's `reexec` has started; a panic ends it with 2.
  unfoldable pub main : Bool → Flags → Trace → ℕ × Trace
  unfolding exit_code run_cmd
  main reexec flags t =
      let (r, t') = run_cmd flags t in if reexec then (0, t) else (exit_code r, t')
