-- ===== src/Docker/Service.antt =====
-- docker/utils.go: stopping and removing docker's service.
pub mod Uninstall
use d2p_migrator.Prelude.{ℕ, zero, suc, [], ◌∷◌, ◌++◌, Str, str}
use d2p_migrator.World.{Host, Io, pure, fail, wrap_io, attempt, done, failed, Attempt, ◌>>=◌, ◌>>◌}
use d2p_migrator.Utils.Files.{exec}

module _ (host : Host) where
  abbrev stop_once : Io (Unit {0})
  stop_once = exec host (str "systemctl") (str "stop" ∷ str "docker" ∷ [])

  -- The rounds of the loop that are left, and the error of the last one.
  unfoldable pub stop_rounds : ℕ → Attempt (Unit {0}) → Io (Unit {0})
  stop_rounds rounds (done _) = pure tt
  stop_rounds zero (failed e) = fail e
  stop_rounds (suc rounds) (failed e) = do r ← attempt stop_once; stop_rounds rounds r

  -- `StopDockerService`. The goroutine's result is waited for at once.
  unfoldable pub stop_docker_service : Io (Unit {0})
  stop_docker_service =
      wrap_io (str "failed to stop docker: ") (do r ← attempt stop_once; stop_rounds 2 r)

  abbrev pub backup : Str → Io (Unit {0})
  backup f = exec host (str "cp") (f ∷ (f ++ str ".bk") ∷ [])

  unfoldable pub uninstall_docker_service : Str → Io (Unit {0})
  uninstall_docker_service docker_rpm_name = do
    backup (str "/etc/sysconfig/docker")
    backup (str "/etc/docker/daemon.json")
    stop_docker_service
    wrap_io (str "failed to uninstall docker: ")
        (exec host (str "rpm") (str "-e" ∷ docker_rpm_name ∷ []))
