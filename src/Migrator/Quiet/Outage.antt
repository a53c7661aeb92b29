-- ===== src/Migrator/Quiet/Outage.antt =====
-- The requests that a host in service would notice.
use d2p_migrator.Prelude.{Bool, true, false, ◌≡◌, refl, sym, not, str, ◌==◌, arith}
use d2p_migrator.Ctrd.Manifest.Quiet.{is_image}
use d2p_migrator.Migrator.Quiet.{is_storage}
use d2p_migrator.World.{
  Request, docker_container_stop, docker_container_start, pouch_container_remove,
  pouch_container_start, exec_command,
}

-- The requests that stop or start a container of docker, remove or start one of pouch, or run a command by
-- `ExecCommand` other than the `sed` that edits pouch's configuration: those that stop docker, install and remove packages
-- and move directories. The start of a containerd, the containers made in it, and what the library for disk quotas
-- runs are none of these.
abbrev pub is_outage : Request → Bool
is_outage (docker_container_stop _ _) = true
is_outage (docker_container_start _) = true
is_outage (pouch_container_remove _ _) = true
is_outage (pouch_container_start _) = true
is_outage (exec_command command _) = not (command == str "sed")
is_outage _ = false

pub storage-outage : (r : Request) → is_storage r ≡ true → is_outage r ≡ false
storage-outage (docker_container_stop _ _) h = sym h
storage-outage (docker_container_start _) h = sym h
storage-outage (pouch_container_remove _ _) h = sym h
storage-outage (pouch_container_start _) h = sym h
storage-outage (exec_command _ _) h = absurd (ground (arith, h))
storage-outage _ h = refl

pub image-outage : (r : Request) → is_image r ≡ true → is_outage r ≡ false
image-outage (docker_container_stop _ _) h = sym h
image-outage (docker_container_start _) h = sym h
image-outage (pouch_container_remove _ _) h = sym h
image-outage (pouch_container_start _) h = sym h
image-outage (exec_command _ _) h = absurd (ground (arith, h))
image-outage _ h = refl
