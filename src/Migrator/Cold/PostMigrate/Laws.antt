-- ===== src/Migrator/Cold/PostMigrate/Laws.antt =====
-- migrator/cold_migrate.go: what `PostMigrate` starts.
use d2p_migrator.Prelude.{
  not, List, [], ◌∷◌, ◌≡◌, refl, Str, str, arith, keep, inl, inr, Bool-cases,
}
use d2p_migrator.Prelude.Result.{ok}
use d2p_migrator.Docker.{ContainerSummary}
use d2p_migrator.Migrator.Cold.{ColdMigrator}
use d2p_migrator.Migrator.Cold.PostMigrate.{start_running, post_migrate}
use d2p_migrator.Migrator.Removal.{mark_existing, deleted_of, replace_docker}
use d2p_migrator.Utils.{string_in_slice}
use d2p_migrator.World.{
  Host, Trace, Request, pouch_container_start, exec_command, docker_container_list,
}
use d2p_migrator.World.Calls.{onto}

abbrev pub start_requests : List Str → List Request
start_requests [] = []
start_requests (c ∷ cs) = pouch_container_start c ∷ start_requests cs

-- The containers that ran and were not deleted since.
abbrev pub still_there : List Str → List Str → List Str
still_there deleted = keep (λ c. not (string_in_slice deleted c))

module _ (host : Host) where
  start_running-onto :
      (deleted cs : List Str) (t : Trace)
      → (start_running host deleted cs t).0 ≡ ok tt
      → (start_running host deleted cs t).1 ≡ onto (start_requests (still_there deleted cs)) t
  unfolding start_running onto
  start_running-onto deleted [] t h = refl
  start_running-onto deleted (c ∷ cs) t h = elim (Bool-cases (string_in_slice deleted c)) [
    | inl gone ↦ ground (arith, gone, start_running-onto deleted cs t)
    | inr there ↦ ground (arith, there, start_running-onto deleted cs (pouch_container_start c ∷ t))
  ]

  abbrev list_trace : Trace → Trace
  list_trace t = docker_container_list ∷ t

  -- The containers that are lost, by the answer of docker.
  abbrev pub lost : ColdMigrator → List ContainerSummary → List Str
  lost cm containers = deleted_of (mark_existing containers cm.all_containers)

  abbrev pub delete_bridge : Request
  delete_bridge = exec_command (str "ip") (str "link" ∷ str "del" ∷ str "docker0" ∷ [])

  -- Where docker lists the containers and the method succeeds, it has put pouch in docker's place
  -- and removed the lost containers, then deleted docker's bridge, and then started, in order and
  -- each once, those containers that ran before and are not lost. It asks for nothing else.
  pub post_migrate-onto :
      (rpm path : Str) (cm : ColdMigrator) (t : Trace) (containers : List ContainerSummary)
      → host.docker_container_list (list_trace t) ≡ ok containers
      → (post_migrate host rpm path cm t).0 ≡ ok tt
      → (post_migrate host rpm path cm t).2
        ≡ onto
            (delete_bridge
              ∷ start_requests (still_there (lost cm containers) cm.running_containers))
            (replace_docker host rpm path (lost cm containers) (list_trace t)).1
  unfolding post_migrate onto
  post_migrate-onto rpm path cm t containers listed h =
      let t' = (replace_docker host rpm path (lost cm containers) (list_trace t)).1 in
      ground (
        arith,
        listed,
        start_running-onto (lost cm containers) cm.running_containers (delete_bridge ∷ t'),
      )
