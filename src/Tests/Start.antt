-- ===== src/Tests/Start.antt =====
-- The start of a migration, the live migration and the volumes, on the sample host.
use d2p_migrator.Prelude.{true, false, List, [], ◌∷◌, ◌≡◌, refl, none, some, str, if◌then◌else◌}
use d2p_migrator.Prelude.Int.{pos}
use d2p_migrator.Prelude.Result.{ok, is_ok}
use d2p_migrator.Docker
use d2p_migrator.Pouch
use d2p_migrator.Pouch.{Status}
use d2p_migrator.Convertor.Volumes.{to_volumes}
use d2p_migrator.Convertor.Volumes.Kept.{entries, wanted, all_supported, to_volumes-wanted}
use d2p_migrator.Migrator.D2p.{Config, D2pMigrator, Migrator, cold, new_d2p_migrator, with_defaults}
use d2p_migrator.Migrator.D2p.Start.{
  is_start, kind, supported, new_d2p_migrator-unsupported, new_d2p_migrator-kind,
}
use d2p_migrator.Migrator.Cold.{new_cold_migrator}
use d2p_migrator.Migrator.Disk.{validate_docker}
use d2p_migrator.Migrator.Live.{prepare_ctrd_containers, is_running}
use d2p_migrator.Migrator.Live.TakeOver.{take_over_requests, prepare_ctrd_containers-onto}
use d2p_migrator.World.{Host, container_get, docker_info, docker_new_client}
use d2p_migrator.World.Calls.{onto, number_of}
use d2p_migrator.Tests.Samples.{host, volume, pouch_container, pouch_state}
use d2p_migrator.Tests.Everything.{everything}

abbrev cfg : Config
cfg = record {
  type = str "cold-migrate";
  docker_rpm_name = [];
  pouch_rpm_path = [];
  docker_home_dir = [];
  image_manifest_only = false;
  container_plugin = none;
}

-- A host whose docker uses another storage driver.
abbrev other : Host
other = record host {
  docker_info = λ _. ok (record { docker_root_dir = str "/var/lib/docker"; driver = str "aufs" });
}

other-supported : supported (other.docker_info (docker_info ∷ docker_new_client ∷ [])) ≡ false
unfolding everything
other-supported = refl

new_d2p_migrator-unsupported_run :
    (number_of is_start (new_d2p_migrator other none cfg []).1 ≡ number_of is_start [])
    × (is_ok (new_d2p_migrator other none cfg []).0 ≡ false)
new_d2p_migrator-unsupported_run = new_d2p_migrator-unsupported other none cfg [] other-supported

abbrev made : D2pMigrator
made = record {
  config = record (with_defaults cfg) { docker_home_dir = str "/var/lib/docker" };
  migrator = cold (new_cold_migrator (str "/var/lib/docker"));
  ctrd_pid = pos 42;
  container_plugin = none;
}

made_ok : (new_d2p_migrator host none cfg []).0 ≡ ok made
unfolding everything
made_ok = refl

new_d2p_migrator-kind_run :
    (i : Docker.Info) × (host.docker_info (docker_info ∷ docker_new_client ∷ []) ≡ ok i)
    × (is_ok (validate_docker i) ≡ true)
    × (made.config.docker_home_dir ≡ i.docker_root_dir)
    × ((make : Config → Migrator) × (kind cfg.type ≡ some make)
        × (made.migrator ≡ make (record (made.config) { container_plugin = none })))
new_d2p_migrator-kind_run = new_d2p_migrator-kind host none cfg [] made made_ok

take_over_ok : (prepare_ctrd_containers host pouch_container []).0 ≡ ok tt
unfolding everything
take_over_ok = refl

prepare_ctrd_containers-onto_example : (prepare_ctrd_containers host pouch_container []).1 ≡ (
    if is_running pouch_state.status
    then onto
        (take_over_requests host pouch_container.id
          (is_ok (host.container_get (container_get pouch_container.id ∷ []))))
        []
    else [])
prepare_ctrd_containers-onto_example =
    prepare_ctrd_containers-onto host pouch_container pouch_state [] refl take_over_ok

abbrev volumes : List Docker.Volume
volumes = volume ∷ record volume { driver = str "ultron" } ∷ []

abbrev kept : List Pouch.Volume
kept =
    record {
      name = str "v";
      claimer = str "pouch";
      namespace = str "pouch";
      uid = str "uuid";
      labels = [];
      creation_timestamp = str "now";
      modify_timestamp = str "now";
      backend = str "local";
      extra = (str "mount", str "/v") ∷ [];
      size = [];
      mount_point = str "/v";
    }
    ∷ []

volumes_ok : (to_volumes host volumes []).0 ≡ ok kept
unfolding everything
volumes_ok = refl

to_volumes-wanted_example : (entries kept ≡ wanted volumes) × (all_supported volumes ≡ true)
to_volumes-wanted_example = to_volumes-wanted host volumes [] kept volumes_ok
