-- ===== src/Migrator/Cold/PreMigrate/State.antt =====
-- migrator/cold_migrate.go: the state that `PreMigrate` leaves behind for the later phases.
use d2p_migrator.Prelude.{
  ◌+◌, true, false, List, [], ◌∷◌, ◌++◌, ◌≡◌, refl, sym, some, Str, ◌==◌, str, arith, member,
  if◌then◌else◌, inl, inr, length, length-append, append_assoc, append-nil,
}
use d2p_migrator.Prelude.Dict.{lookup, lookup-insert, NodupKeys, insert-NodupKeys}
use d2p_migrator.Prelude.Result.{ok, Result-cases, is_ok, is_ok-value}
use d2p_migrator.Docker.{ContainerSummary, ids}
use d2p_migrator.Pouch
use d2p_migrator.Convertor.Volumes.{to_volumes}
use d2p_migrator.Migrator.Cold.{ColdMigrator, do_prepare, prepare_image}
use d2p_migrator.Migrator.Cold.PreMigrate.{
  Locals, note_container, note_mapping, migrate_container, migrate_containers,
  pre_migrate_containers, pre_migrate_list, pre_migrate,
}
use d2p_migrator.World.{Host, Trace, docker_container_list, docker_volume_list}

-- What one round keeps of the state, and what it adds.
record Advances (c : ContainerSummary) (cm cm' : ColdMigrator) : Type 0 where
  home : cm'.docker_home_dir ≡ cm.docker_home_dir
  all : cm'.all_containers ≡ (note_container c cm).all_containers
  running : cm'.running_containers ≡ (note_container c cm).running_containers
  mapped : length cm'.upper_dir_mapping_list ≡ length cm.upper_dir_mapping_list + 1

record SameNotes (cm cm' : ColdMigrator) : Type 0 where
  home : cm'.docker_home_dir ≡ cm.docker_home_dir
  all : cm'.all_containers ≡ cm.all_containers
  running : cm'.running_containers ≡ cm.running_containers
  mapped : cm'.upper_dir_mapping_list ≡ cm.upper_dir_mapping_list

module _ (host : Host) where
  do_prepare-SameNotes :
      (meta : Pouch.Container) (cm : ColdMigrator) (t : Trace)
      → SameNotes cm (do_prepare host meta cm t).1
  unfolding do_prepare prepare_image
  do_prepare-SameNotes meta cm t = ground arith

  migrate_container-Advances :
      (c : ContainerSummary) (locals : Locals) (cm : ColdMigrator) (t : Trace) {locals' : Locals}
      → (migrate_container host c locals cm t).0 ≡ ok locals'
      → Advances c cm (migrate_container host c locals cm t).1
  unfolding migrate_container note_mapping note_container
  migrate_container-Advances c locals cm t h = grind (arith, do_prepare-SameNotes, length-append)

-- The ids of the containers that docker reports as running, in order.
abbrev pub running_ids : List ContainerSummary → List Str
running_ids [] = []
running_ids (c ∷ cs) =
    let rest = running_ids cs in if c.state == str "running" then c.id ∷ rest else rest

-- What the loop over the containers leaves in the migrator.
pub record Noted (cs : List ContainerSummary) (cm cm' : ColdMigrator) : Type 0 where
  pub home : cm'.docker_home_dir ≡ cm.docker_home_dir
  pub all :
      (k : Str)
      → lookup k cm'.all_containers
        ≡ (if member k (ids cs) then some false else lookup k cm.all_containers)
  pub keyed : NodupKeys cm.all_containers → NodupKeys cm'.all_containers
  pub running : cm'.running_containers ≡ cm.running_containers ++ running_ids cs
  pub mapped : length cm'.upper_dir_mapping_list ≡ length cm.upper_dir_mapping_list + length cs

Advances-Noted :
    (c : ContainerSummary) (cs : List ContainerSummary) (cm cm' cm'' : ColdMigrator)
    → Advances c cm cm'
    → Noted cs cm' cm''
    → Noted (c ∷ cs) cm cm''
unfolding note_container
Advances-Noted c cs cm cm' cm'' one rest = record {
  home = ground arith;
  all = λ k. ground (arith, one.all, rest.all k, lookup-insert c.id k false cm.all_containers);
  keyed = λ u. rest.keyed (rw one.all (insert-NodupKeys c.id false cm.all_containers u));
  running = ground (
    arith,
    one.running,
    rest.running,
    append_assoc cm.running_containers (c.id ∷ []) (running_ids cs),
  );
  mapped = ground (arith, one.mapped, rest.mapped);
}

abbrev pub no_locals : Locals
no_locals = record { volume_refs = []; sandbox_containers = [] }

module _ (host : Host) where
  -- Where the loop over the containers succeeds, every listed container is noted as not yet found
  -- again, exactly the listed containers that run are noted as running, in order, behind those noted
  -- before, and one mapping of upper directories is added for each container.
  pub migrate_containers-Noted :
      (cs : List ContainerSummary) (locals : Locals) (cm : ColdMigrator) (t : Trace)
      {locals' : Locals}
      → (migrate_containers host cs locals cm t).0 ≡ ok locals'
      → Noted cs cm (migrate_containers host cs locals cm t).1
  unfolding migrate_containers
  migrate_containers-Noted [] locals cm t h = record {
    home = refl;
    all = λ k. refl;
    keyed = λ u. u;
    running = sym (append-nil cm.running_containers);
    mapped = omega arith;
  }
  migrate_containers-Noted (c ∷ cs) locals cm t h =
      elim (Result-cases (migrate_container host c locals cm t).0) [
        | inl (locals1, went_on) ↦
            let out = migrate_container host c locals cm t in
            let same : migrate_containers host (c ∷ cs) locals cm t
                ≡ migrate_containers host cs locals1 out.1 out.2 =
              ground (arith, went_on) in
            rw same (
              Advances-Noted c cs cm out.1 (migrate_containers host cs locals1 out.1 out.2).1
                (migrate_container-Advances host c locals cm t went_on)
                (migrate_containers-Noted cs locals1 out.1 out.2 (rw same at h)))
        | inr (inl (e, stopped)) ↦ absurd (ground (arith, stopped))
        | inr (inr stopped) ↦ absurd (ground (arith, stopped))
      ]

  -- The part behind the loop does not touch the state.
  pre_migrate_containers-state :
      (cs : List ContainerSummary) (cm : ColdMigrator) (t : Trace)
      → (pre_migrate_containers host cs cm t).0 ≡ ok tt
      → (u : Trace) × (is_ok (migrate_containers host cs no_locals cm u).0 ≡ true)
        × ((pre_migrate_containers host cs cm t).1 ≡ (migrate_containers host cs no_locals cm u).1)
  unfolding pre_migrate_containers
  pre_migrate_containers-state cs cm t h =
      let t' = docker_volume_list ∷ t in
      elim (Result-cases (host.docker_volume_list t')) [
        | inl (vols, answer) ↦
            ((to_volumes host vols t').1, ground (arith, answer), ground (arith, answer))
        | inr (inl (e, stopped)) ↦ absurd (ground (arith, stopped))
        | inr (inr stopped) ↦ absurd (ground (arith, stopped))
      ]

  pre_migrate_containers-Noted :
      (cs : List ContainerSummary) (cm : ColdMigrator) (t : Trace)
      → (pre_migrate_containers host cs cm t).0 ≡ ok tt
      → Noted cs cm (pre_migrate_containers host cs cm t).1
  pre_migrate_containers-Noted cs cm t h =
      let (u, went_on, same) = pre_migrate_containers-state cs cm t h in
      let (locals, e) = is_ok-value (migrate_containers host cs no_locals cm u).0 went_on in
      rw same (migrate_containers-Noted cs no_locals cm u e)

  -- Where docker lists the containers and `PreMigrate` returns no error, the migrator has noted them
  -- all: none as found again, exactly those that run as running, in order, and one mapping of upper
  -- directories for each.
  pub pre_migrate-Noted :
      (cs : List ContainerSummary) (cm : ColdMigrator) (t : Trace)
      → host.docker_container_list (docker_container_list ∷ t) ≡ ok cs
      → (pre_migrate host cm t).0 ≡ ok tt
      → Noted cs cm (pre_migrate host cm t).1
  unfolding migrate_containers
  pre_migrate-Noted [] cm t listed h =
      let same : (pre_migrate host cm t).1 ≡ cm =
        unfold pre_migrate pre_migrate_list in ground (arith, listed) in
      rw same (migrate_containers-Noted [] no_locals cm t (unfold migrate_containers in refl))
  pre_migrate-Noted (c ∷ cs) cm t listed h =
      let same : pre_migrate host cm t
          ≡ pre_migrate_containers host (c ∷ cs) cm (docker_container_list ∷ t) =
        unfold pre_migrate pre_migrate_list in ground (arith, listed) in
      rw same (pre_migrate_containers-Noted (c ∷ cs) cm (docker_container_list ∷ t) (rw same at h))
