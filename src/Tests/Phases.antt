-- ===== src/Tests/Phases.antt =====
-- The phases of a run, the removal of docker and the references to volumes, on the sample host.
use d2p_migrator.Prelude.{
  ◌||◌, eqb, ℕ, suc, ◌≤◌, true, false, List, [], ◌∷◌, ◌++◌, ◌≡◌, refl, Str, str, contains,
  if◌then◌else◌, none,
}
use d2p_migrator.Prelude.Dict.{Dict, get_str}
use d2p_migrator.Prelude.Int.{pos}
use d2p_migrator.Prelude.Result.{ok}
use d2p_migrator.Pouch
use d2p_migrator.Hookplugins.{registered_plugin}
use d2p_migrator.Command.{Flags, default_flags, migrator_config, run_migrator, main}
use d2p_migrator.Command.Success.{started, main-success}
use d2p_migrator.Command.Phases.{
  plan, perform, prepared, migrated, verdict, ended, run_migrator-plan, run_migrator-verdict,
}
use d2p_migrator.Docker.Service.{uninstall_docker_service}
use d2p_migrator.Docker.Service.Uninstall.{
  StopsAfter, backups, stops, remove_request, uninstall-onto,
}
use d2p_migrator.Migrator.Cold.{new_cold_migrator}
use d2p_migrator.Migrator.Cold.PreMigrate
use d2p_migrator.Migrator.D2p.{D2pMigrator, new_d2p_migrator, cold, post_migrate, revert_migration}
use d2p_migrator.Migrator.D2p.Images.{prepare_images}
use d2p_migrator.Migrator.Quiet.Phases.{is_disruptive, pre_migrate-calm}
use d2p_migrator.Migrator.Volumes.{container_volume_refs_count}
use d2p_migrator.Migrator.Volumes.References.{
  uses, container_volume_refs_count-keeps, container_volume_refs_count-id,
}
use d2p_migrator.World.Calls.{onto, number_of}
use d2p_migrator.Tests.Samples.{host}
use d2p_migrator.Tests.Everything.{everything}

abbrev flags : Flags
flags = record default_flags { migrate_all = true }

abbrev migrator : D2pMigrator
migrator = record {
  config = record {
    type = str "cold-migrate";
    docker_rpm_name = str "docker";
    pouch_rpm_path = str "pouch";
    docker_home_dir = str "/var/lib/docker";
    image_manifest_only = false;
    container_plugin = none;
  };
  migrator = cold (new_cold_migrator (str "/var/lib/docker"));
  ctrd_pid = pos 42;
  container_plugin = none;
}

run_migrator-plan_example :
    (run_migrator host flags migrator []).1
    ≡ (perform host flags
        (plan flags (prepared host flags migrator []).0 (migrated host flags migrator []).0)
        (migrator, [])).1
run_migrator-plan_example = run_migrator-plan host flags migrator []

run_migrator-verdict_run : (run_migrator host flags migrator []).0 ≡ (
    if flags.prepare_image
    then (prepare_images host flags.image_manifest_only []).0
    else verdict (prepared host flags migrator []).0 (
        if flags.migrate_all
        then ended
            (migrated host flags migrator []).0
            (revert_migration host
              (prepared host flags migrator []).1
              (migrated host flags migrator []).1).0
            (post_migrate host
              (prepared host flags migrator []).1
              (migrated host flags migrator []).1).0
        else ok tt))
run_migrator-verdict_run = run_migrator-verdict host flags migrator []

main-success_example : eqb (main host false flags []).0 0 ≡ (
    flags.print_version
    || started host flags
        (new_d2p_migrator host registered_plugin (migrator_config flags) []).0
        (new_d2p_migrator host registered_plugin (migrator_config flags) []).1)
main-success_example = main-success host flags []

run_ok : (run_migrator host flags migrator []).0 ≡ ok tt
unfolding everything
run_ok = refl

pre_migrate-calm_example :
    number_of is_disruptive
      (PreMigrate.pre_migrate host (new_cold_migrator (str "/var/lib/docker")) []).2
    ≡ number_of is_disruptive []
pre_migrate-calm_example = pre_migrate-calm host (new_cold_migrator (str "/var/lib/docker")) []

uninstall_ok : (uninstall_docker_service host (str "docker") []).0 ≡ ok tt
unfolding everything
uninstall_ok = refl

uninstall-onto_example :
    (n : ℕ) × ((uninstall_docker_service host (str "docker") []).1
      ≡ onto (stops (suc n) ++ remove_request (str "docker") ∷ []) (onto backups []))
    × (n ≤ 2)
    × StopsAfter host n (onto backups [])
uninstall-onto_example = uninstall-onto host (str "docker") [] uninstall_ok

abbrev mounts : List Pouch.MountPoint
mounts =
    record {
      name = str "data";
      source = str "/s";
      destination = str "/d";
      driver = str "local";
      mode = [];
      rw = true;
      propagation = [];
      named = false;
    }
    ∷ []

abbrev refs : Dict Str
refs = (str "data", str "c1") ∷ []

holds : contains (get_str (str "data") refs) (str "c1") ≡ true
unfolding everything
holds = refl

used : uses (str "data") mounts ≡ true
unfolding everything
used = refl

container_volume_refs_count-keeps_example :
    contains (get_str (str "data") (container_volume_refs_count (str "c2") mounts refs)) (str "c1")
    ≡ true
container_volume_refs_count-keeps_example =
    container_volume_refs_count-keeps (str "c2") mounts refs (str "data") (str "c1") holds

container_volume_refs_count-id_example :
    contains (get_str (str "data") (container_volume_refs_count (str "c2") mounts refs)) (str "c2")
    ≡ true
container_volume_refs_count-id_example =
    container_volume_refs_count-id (str "c2") mounts refs (str "data") used
