-- ===== src/Docker/Service/Uninstall.antt =====
-- docker/utils.go: docker is removed only once it is stopped.
use d2p_migrator.Prelude.{
  ℕ, zero, suc, ◌≤◌, List, [], ◌∷◌, ◌++◌, ◌≡◌, refl, sym, ap, ◌∙◌, true, false, Str, str, arith,
  inl, inr,
}
use d2p_migrator.Prelude.Result.{ok, is_ok, Result-cases}
use d2p_migrator.Docker.Service.{stop_rounds, stop_docker_service, uninstall_docker_service}
use d2p_migrator.World.{Host, Trace, Request, Io, call, attempt, exec_command, ◌>>=◌}
use d2p_migrator.World.Calls.{onto, onto-append}

abbrev pub stop_request : Request
stop_request = exec_command (str "systemctl") (str "stop" ∷ str "docker" ∷ [])

-- `n` attempts to stop docker.
abbrev pub stops : ℕ → List Request
stops zero = []
stops (suc n) = stop_request ∷ stops n

abbrev pub backup_request : Str → Request
backup_request f = exec_command (str "cp") (f ∷ (f ++ str ".bk") ∷ [])

abbrev pub backups : List Request
backups =
    backup_request (str "/etc/sysconfig/docker")
    ∷ backup_request (str "/etc/docker/daemon.json")
    ∷ []

abbrev pub remove_request : Str → Request
remove_request rpm = exec_command (str "rpm") (str "-e" ∷ rpm ∷ [])

module _ (host : Host) where
  -- So many attempts to stop docker fail, and one more succeeds.
  abbrev pub StopsAfter : ℕ → Trace → Type 0
  StopsAfter zero t = is_ok (host.exec_command (stop_request ∷ t)) ≡ true
  StopsAfter (suc n) t =
      (is_ok (host.exec_command (stop_request ∷ t)) ≡ false) × StopsAfter n (stop_request ∷ t)

  -- An attempt, and what follows it.
  abbrev stop_then : ℕ → Io (Unit {0})
  stop_then rounds = attempt (call stop_request host.exec_command) >>= stop_rounds host rounds

  stop_rounds-StopsAfter :
      (rounds : ℕ) (t : Trace)
      → (stop_then rounds t).0 ≡ ok tt
      → (n : ℕ) × ((stop_then rounds t).1 ≡ onto (stops (suc n)) t) × (n ≤ rounds) × StopsAfter n t
  unfolding stop_rounds onto
  stop_rounds-StopsAfter zero t h = elim (Result-cases (host.exec_command (stop_request ∷ t))) [
    | inl (u, e) ↦ (0, ground (arith, e), omega arith, ground (arith, e))
    | inr (inl (error, e)) ↦ absurd (ground (arith, e, h))
    | inr (inr e) ↦ absurd (ground (arith, e, h))
  ]
  stop_rounds-StopsAfter (suc rounds) t h =
      elim (Result-cases (host.exec_command (stop_request ∷ t))) [
        | inl (u, e) ↦ (0, ground (arith, e), omega arith, ground (arith, e))
        | inr (inl (error, e)) ↦
            let step : stop_then (suc rounds) t ≡ stop_then rounds (stop_request ∷ t) = rw e refl in
            let (n, same, few, after) =
              stop_rounds-StopsAfter rounds (stop_request ∷ t) (rw step at h) in
            (suc n, rw step same, omega (arith, few), (ground (arith, e), after))
        | inr (inr e) ↦ absurd (ground (arith, e, h))
      ]

  -- Where the removal succeeds, both configuration files were copied, then docker was asked to stop, once, twice or
  -- three times, of which the last succeeded and the others failed, and then its package was removed; nothing else
  -- was asked for.
  pub uninstall-onto :
      (rpm : Str) (t : Trace)
      → (uninstall_docker_service host rpm t).0 ≡ ok tt
      → (n : ℕ) × ((uninstall_docker_service host rpm t).1
          ≡ onto (stops (suc n) ++ remove_request rpm ∷ []) (onto backups t))
        × (n ≤ 2)
        × StopsAfter n (onto backups t)
  unfolding uninstall_docker_service stop_docker_service onto
  uninstall-onto rpm t h =
      let t' = onto backups t in
      let stopped : (stop_then 2 t').0 ≡ ok tt = elim (Result-cases (stop_then 2 t').0) [
        | inl (_, e) ↦ e
        | inr (inl (_, e)) ↦ absurd (ground (arith, e, h))
        | inr (inr e) ↦ absurd (ground (arith, e, h))
      ] in
      let (n, same, few, after) = stop_rounds-StopsAfter 2 t' stopped in
      let last : (uninstall_docker_service host rpm t).1
          ≡ onto (remove_request rpm ∷ []) (stop_then 2 t').1 =
        ground (arith, h) in
      (
        n,
        last
            ∙ (ap (onto (remove_request rpm ∷ [])) same
                ∙ sym (onto-append (stops (suc n)) (remove_request rpm ∷ []) t')),
        few,
        after,
      )
