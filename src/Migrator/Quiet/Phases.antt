-- ===== src/Migrator/Quiet/Phases.antt =====
-- migrator/cold_migrate.go: the whole of `PreMigrate`.
use d2p_migrator.Prelude.{Bool, true, false, List, [], ◌∷◌, ◌≡◌, refl, sym, Str, arith}
use d2p_migrator.Docker.{ContainerSummary}
use d2p_migrator.Pouch
use d2p_migrator.Ctrd.Client.{pull_image}
use d2p_migrator.Migrator.Cold.{ColdMigrator, prepare_image, do_prepare}
use d2p_migrator.Migrator.Cold.PreMigrate.{
  Locals, migrate_container, migrate_containers, pre_migrate_containers, pre_migrate_list,
  pre_migrate,
}
use d2p_migrator.Migrator.Quiet.{is_storage}
use d2p_migrator.Migrator.Quiet.Storage.{number_of-prepare_snapshot, number_of-save_to_disk}
use d2p_migrator.Migrator.Quiet.Volumes.{number_of-to_volumes, number_of-prepare_volumes}
use d2p_migrator.Migrator.Quiet.Sandboxes.{number_of-generate_sandbox_meta_json}
use d2p_migrator.World.{
  Host, Request, Trace, docker_container_stop, docker_container_start, pouch_container_remove,
  pouch_container_start, exec_command, kill, ctrd_pull, start_process, container_new,
  container_delete,
}
use d2p_migrator.World.Calls.{number_of}

module _ (host : Host) (p : Request → Bool)
    (quiet : (r : Request) → is_storage r ≡ true → p r ≡ false)
    (no_pull : (a b : Str) (c : Bool) → p (ctrd_pull a b c) ≡ false) where
  number_of-pull_image :
      (img snapshotter : Str) (t : Trace)
      → number_of p (pull_image host img snapshotter false t).1 ≡ number_of p t
  unfolding pull_image number_of
  number_of-pull_image img snapshotter t = grind (arith, no_pull)

  number_of-prepare_image :
      (img snapshotter : Str) (cm : ColdMigrator) (t : Trace)
      → number_of p (prepare_image host img snapshotter cm t).2 ≡ number_of p t
  unfolding prepare_image
  number_of-prepare_image img snapshotter cm t = grind (arith, number_of-pull_image)

  number_of-do_prepare :
      (meta : Pouch.Container) (cm : ColdMigrator) (t : Trace)
      → number_of p (do_prepare host meta cm t).2 ≡ number_of p t
  unfolding do_prepare
  number_of-do_prepare meta cm t =
      grind (arith, number_of-prepare_image, number_of-prepare_snapshot host p quiet)

  number_of-migrate_container :
      (c : ContainerSummary) (locals : Locals) (cm : ColdMigrator) (t : Trace)
      → number_of p (migrate_container host c locals cm t).2 ≡ number_of p t
  unfolding migrate_container number_of
  number_of-migrate_container c locals cm t =
      grind (arith, quiet, number_of-do_prepare, number_of-save_to_disk host p quiet)

  number_of-migrate_containers :
      (cs : List ContainerSummary) (locals : Locals) (cm : ColdMigrator) (t : Trace)
      → number_of p (migrate_containers host cs locals cm t).2 ≡ number_of p t
  unfolding migrate_containers
  number_of-migrate_containers [] locals cm t = refl
  number_of-migrate_containers (c ∷ cs) locals cm t =
      grind (arith, number_of-migrate_container, number_of-migrate_containers cs)

  number_of-pre_migrate_containers :
      (cs : List ContainerSummary) (cm : ColdMigrator) (t : Trace)
      → number_of p (pre_migrate_containers host cs cm t).2 ≡ number_of p t
  unfolding pre_migrate_containers number_of
  number_of-pre_migrate_containers cs cm t = grind (
    arith,
    quiet,
    number_of-to_volumes host p quiet,
    number_of-migrate_containers,
    number_of-prepare_volumes host p quiet,
    number_of-generate_sandbox_meta_json host p quiet,
  )

  pub number_of-pre_migrate :
      (cm : ColdMigrator) (t : Trace) → number_of p (pre_migrate host cm t).2 ≡ number_of p t
  unfolding pre_migrate pre_migrate_list number_of
  number_of-pre_migrate cm t = grind (arith, quiet, number_of-pre_migrate_containers)

-- The requests that stop, start or remove a container, run a command by `ExecCommand`, or start or end a process. What
-- the library for disk quotas runs by itself is none of these.
abbrev pub is_disruptive : Request → Bool
is_disruptive (docker_container_stop _ _) = true
is_disruptive (docker_container_start _) = true
is_disruptive (container_new _ _) = true
is_disruptive (container_delete _) = true
is_disruptive (pouch_container_remove _ _) = true
is_disruptive (pouch_container_start _) = true
is_disruptive (exec_command _ _) = true
is_disruptive (start_process _ _ _) = true
is_disruptive (kill _) = true
is_disruptive _ = false

storage-calm : (r : Request) → is_storage r ≡ true → is_disruptive r ≡ false
storage-calm (docker_container_stop _ _) h = sym h
storage-calm (docker_container_start _) h = sym h
storage-calm (container_new _ _) h = sym h
storage-calm (container_delete _) h = sym h
storage-calm (pouch_container_remove _ _) h = sym h
storage-calm (pouch_container_start _) h = sym h
storage-calm (exec_command _ _) h = sym h
storage-calm (start_process _ _ _) h = sym h
storage-calm (kill _) h = sym h
storage-calm _ h = refl

-- However the cold `PreMigrate` ends, it stops, starts and removes no container of docker, containerd or pouch, runs no
-- command by `ExecCommand`, and starts and ends no process. It may ask the library for disk quotas to set one,
-- whose commands are not counted here.
pub pre_migrate-calm :
    (host : Host) (cm : ColdMigrator) (t : Trace)
    → number_of is_disruptive (pre_migrate host cm t).2 ≡ number_of is_disruptive t
pre_migrate-calm host cm t =
    number_of-pre_migrate host is_disruptive storage-calm (λ a b c. refl) cm t
