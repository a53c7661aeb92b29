-- ===== src/Migrator/Cold/Order.antt =====
-- migrator/cold_migrate.go: what `Migrate` and `RevertMigration` ask of the world, in which order.
use d2p_migrator.Prelude.{
  ℕ, suc, take, List, [], ◌∷◌, ◌++◌, ◌≡◌, ◌≢◌, refl, Str, str, arith, inl, inr, Bool-cases,
}
use d2p_migrator.Prelude.Result.{ok, not_found, is_class, Result-cases}
use d2p_migrator.Migrator.Cold.{ColdMigrator, UpperDirMapping}
use d2p_migrator.Migrator.Cold.Migrate.{
  stop_all, move_all, migrate, move_back, start_all, revert_migration,
}
use d2p_migrator.Migrator.Disk.{migrate_network_file, get_pouch_home_dir}
use d2p_migrator.Utils.Files.{move_dir, move_command}
use d2p_migrator.World.{
  Host, Request, Trace, docker_container_stop, docker_container_start, exec_command,
}
use d2p_migrator.World.Calls.{onto, onto-append}

-- The requests that stop containers.
abbrev pub stop_requests : List Str → List Request
stop_requests [] = []
stop_requests (c ∷ cs) = docker_container_stop c 1 ∷ stop_requests cs

abbrev pub start_requests : List Str → List Request
start_requests [] = []
start_requests (c ∷ cs) = docker_container_start c ∷ start_requests cs

abbrev pub move_request : Str → Str → Request
move_request src dst = exec_command (str "bash") (str "-c" ∷ move_command src dst ∷ [])

abbrev pub touch_request : UpperDirMapping → Request
touch_request m = exec_command (str "touch") ((m.src_dir ++ str "/d2p-migrator.txt") ∷ [])

abbrev pub move_requests : List UpperDirMapping → List Request
move_requests [] = []
move_requests (m ∷ ms) = touch_request m ∷ move_request m.src_dir m.dst_dir ∷ move_requests ms

abbrev pub move_back_requests : List UpperDirMapping → List Request
move_back_requests [] = []
move_back_requests (m ∷ ms) = move_request m.dst_dir m.src_dir ∷ move_back_requests ms

module _ (host : Host) where
  stop_all-onto :
      (cs : List Str) (t : Trace)
      → (stop_all host cs t).0 ≡ ok tt
      → (stop_all host cs t).1 ≡ onto (stop_requests cs) t
  unfolding stop_all onto
  stop_all-onto [] t h = refl
  stop_all-onto (c ∷ cs) t h = ground (arith, stop_all-onto cs (docker_container_stop c 1 ∷ t))

  -- Also where it fails, the loop has asked to stop the first few containers and nothing else.
  stop_all-prefix :
      (cs : List Str) (t : Trace)
      → (n : ℕ) × ((stop_all host cs t).1 ≡ onto (stop_requests (take n cs)) t)
  unfolding stop_all onto
  stop_all-prefix [] t = (0, refl)
  stop_all-prefix (c ∷ cs) t =
      let t' = docker_container_stop c 1 ∷ t in
      let (n, e) = stop_all-prefix cs t' in
      elim (Result-cases (host.docker_container_stop t')) [
        | inl (_, answer) ↦ (suc n, ground (arith, answer, e))
        | inr (inr answer) ↦ (1, ground (arith, answer))
        | inr (inl (error, answer)) ↦ elim (Bool-cases (is_class error.class not_found)) [
          | inl gone ↦ (suc n, ground (arith, answer, gone, e))
          | inr there ↦ (1, ground (arith, answer, there))
        ]
      ]

  move_all-onto :
      (ms : List UpperDirMapping) (t : Trace)
      → (move_all host ms t).0 ≡ ok tt
      → (move_all host ms t).1 ≡ onto (move_requests ms) t
  unfolding move_all onto move_dir
  move_all-onto [] t h = refl
  move_all-onto (m ∷ ms) t h =
      ground (arith, move_all-onto ms (move_request m.src_dir m.dst_dir ∷ touch_request m ∷ t))

  move_back-onto :
      (ms : List UpperDirMapping) (t : Trace)
      → (move_back host ms t).0 ≡ ok tt
      → (move_back host ms t).1 ≡ onto (move_back_requests ms) t
  unfolding move_back onto move_dir
  move_back-onto [] t h = refl
  move_back-onto (m ∷ ms) t h =
      ground (arith, move_back-onto ms (move_request m.dst_dir m.src_dir ∷ t))

  start_all-onto :
      (cs : List Str) (t : Trace)
      → (start_all host cs t).0 ≡ ok tt
      → (start_all host cs t).1 ≡ onto (start_requests cs) t
  unfolding start_all onto
  start_all-onto [] t h = refl
  start_all-onto (c ∷ cs) t h = ground (arith, start_all-onto cs (docker_container_start c ∷ t))

  -- The trace once the network's files are copied.
  abbrev pub network_trace : ColdMigrator → Trace → Trace
  network_trace cm t =
      (migrate_network_file host cm.docker_home_dir (get_pouch_home_dir cm.docker_home_dir) t).1

  -- A migration that succeeds has, behind the copy of the network's files, asked to stop every running
  -- container, in the order of the list, and then to move every upper directory, in the order of the
  -- mappings, each behind a marker file, and it has asked for nothing else.
  pub migrate-onto :
      (cm : ColdMigrator) (t : Trace)
      → (migrate host cm t).0 ≡ ok tt
      → (migrate host cm t).1
        ≡ onto
            (stop_requests cm.running_containers ++ move_requests cm.upper_dir_mapping_list)
            (network_trace cm t)
  unfolding migrate
  migrate-onto cm t h =
      let n = network_trace cm t in
      let s = (stop_all host cm.running_containers n).1 in
      rw onto-append (
        ground
          (arith, stop_all-onto cm.running_containers n, move_all-onto cm.upper_dir_mapping_list s))

  -- A reversal that succeeds has moved every upper directory back, from the new place to the old
  -- one, and then started every container that ran, and it has asked for nothing else.
  pub revert_migration-onto :
      (cm : ColdMigrator) (t : Trace)
      → (revert_migration host cm t).0 ≡ ok tt
      → (revert_migration host cm t).1
        ≡ onto
            (move_back_requests cm.upper_dir_mapping_list ++ start_requests cm.running_containers)
            t
  unfolding revert_migration
  revert_migration-onto cm t h =
      let s = (move_back host cm.upper_dir_mapping_list t).1 in
      rw onto-append (
        ground (
          arith,
          move_back-onto cm.upper_dir_mapping_list t,
          start_all-onto cm.running_containers s,
        ))

  -- Where a container cannot be stopped, no upper directory is moved: behind the copy of the
  -- network's files, the migration has asked to stop the first few running containers and nothing
  -- else, and it fails as the stop does.
  pub migrate_unstopped :
      (cm : ColdMigrator) (t : Trace)
      → (migrate_network_file host cm.docker_home_dir (get_pouch_home_dir cm.docker_home_dir) t).0
        ≡ ok tt
      → (stop_all host cm.running_containers (network_trace cm t)).0 ≢ ok tt
      → ((migrate host cm t).0 ≡ (stop_all host cm.running_containers (network_trace cm t)).0)
        × ((n : ℕ) × ((migrate host cm t).1
              ≡ onto (stop_requests (take n cm.running_containers)) (network_trace cm t)))
  unfolding migrate
  migrate_unstopped cm t copied unstopped =
      let (n, e) = stop_all-prefix cm.running_containers (network_trace cm t) in
      (ground (arith, copied, unstopped), (n, ground (arith, copied, unstopped, e)))
