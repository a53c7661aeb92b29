-- ===== src/Migrator/Live/TakeOver.antt =====
-- migrator/live_migrate.go: what is asked of containerd for a container.
use d2p_migrator.Prelude.{Bool, List, [], ◌∷◌, ◌++◌, ◌≡◌, some, Str, str, arith, if◌then◌else◌}
use d2p_migrator.Prelude.Result.{ok, is_ok}
use d2p_migrator.Pouch
use d2p_migrator.Pouch.{Status}
use d2p_migrator.Ctrd.Client.{new_container}
use d2p_migrator.Migrator.Live.{prepare_ctrd_containers, is_running}
use d2p_migrator.World.{
  Host, Trace, Request, container_get, container_delete, generate_spec, container_new,
}
use d2p_migrator.World.Calls.{onto}

module _ (host : Host) where
  -- The requests for a container that runs, by whether containerd knows it already.
  abbrev pub take_over_requests : Str → Bool → List Request
  take_over_requests id known =
      container_get id ∷ (if known then container_delete id ∷ [] else [])
      ++ generate_spec id ∷ container_new id (str "docker-runc") ∷ []

  -- Where a container is handed to containerd without an error, nothing was asked for if it does not
  -- run; if it runs, containerd was asked for it, then to delete it if it was found, and then to make
  -- it anew for docker's runtime.
  pub prepare_ctrd_containers-onto :
      (meta : Pouch.Container) (s : Pouch.ContainerState) (t : Trace)
      → meta.state ≡ some s
      → (prepare_ctrd_containers host meta t).0 ≡ ok tt
      → (prepare_ctrd_containers host meta t).1 ≡ (
          if is_running s.status
          then onto
              (take_over_requests meta.id (is_ok (host.container_get (container_get meta.id ∷ t))))
              t
          else t)
  unfolding prepare_ctrd_containers new_container onto
  prepare_ctrd_containers-onto meta s t has_state h = ground (arith, has_state)
