-- ===== src/Migrator/Quiet.antt =====
-- migrator: what the preparation of containers does not ask for, whatever the calls answer.
pub mod Storage
pub mod Volumes
pub mod Sandboxes
pub mod Outage
pub mod Phases
use d2p_migrator.Prelude.{Bool, true, false}
use d2p_migrator.World.{
  Request, docker_container_stop, docker_container_start, ctrd_pull, ctrd_with_lease, lease_done,
  write_blob, image_create, image_update, container_new, container_delete, pouch_container_remove,
  pouch_container_start, exec_command, start_process, kill,
}

-- The requests that read docker's state, prepare snapshots and quotas, and write pouch's files.
abbrev pub is_storage : Request → Bool
is_storage (docker_container_stop _ _) = false
is_storage (docker_container_start _) = false
is_storage (ctrd_pull _ _ _) = false
is_storage ctrd_with_lease = false
is_storage lease_done = false
is_storage (write_blob _ _ _ _ _) = false
is_storage (image_create _ _ _) = false
is_storage (image_update _ _ _) = false
is_storage (container_new _ _) = false
is_storage (container_delete _) = false
is_storage (pouch_container_remove _ _) = false
is_storage (pouch_container_start _) = false
is_storage (exec_command _ _) = false
is_storage (start_process _ _ _) = false
is_storage (kill _) = false
is_storage _ = true
