-- ===== src/Pouch/Service.antt =====
-- pouch/utils.go and pouch/pouch.go: pouch's service and its client.
pub mod Wait
use d2p_migrator.Prelude.{ℕ, zero, suc, [], ◌∷◌, ◌++◌, Str, str, Bool}
use d2p_migrator.World.{
  Host, Io, call, pure, failf, attempt, done, failed, Attempt, ◌>>=◌, ◌>>◌, os_stat, net_dial,
  pouch_new_client, pouch_container_remove, pouch_container_start,
}
use d2p_migrator.Utils.Files.{exec}

abbrev pub config_file : Str
config_file = str "/etc/pouch/config.json"

abbrev pub socket_addr : Str
socket_addr = str "/var/run/pouchd.sock"

module _ (host : Host) where
  -- The dials that return while the wait still listens.
  unfoldable pub wait_rounds : ℕ → Io (Unit {0})
  wait_rounds zero = failf (str "failed to wait pouchd start, 120s timeout")
  wait_rounds (suc rounds) = do
    r ← attempt (call (net_dial socket_addr) host.net_dial)
    elim r [ done _ ↦ pure tt | failed _ ↦ wait_rounds rounds ]

  -- `waitPouchAlive`: one goroutine dials until the process ends, another one sleeps for 120 seconds, and the wait takes the
  -- first of the two that reports. The host says how the two race. A dial that returns later is left out: nobody
  -- takes its result.
  unfoldable pub wait_pouch_alive : Io (Unit {0})
  wait_pouch_alive t = wait_rounds (host.dial_rounds t) t

  unfoldable pub install_pouch_service : Str → Io (Unit {0})
  install_pouch_service pouch_rpm_path = do
    exec host (str "rpm") (str "-Uvh" ∷ pouch_rpm_path ∷ [])
    wait_pouch_alive

  -- `ChangeHomeDir` rewrites the configuration file by `sed`.
  unfoldable pub change_home_dir : Str → Io (Unit {0})
  change_home_dir home_dir = do
    call (os_stat config_file) host.os_stat
    exec host (str "sed") (
        str "-i"
        ∷ (str "s|\\(\"home-dir\": \"\\).*|\\1" ++ home_dir ++ str "\",|")
        ∷ config_file
        ∷ [])

  abbrev pub new_pouch_client : Io (Unit {0})
  new_pouch_client = call pouch_new_client host.pouch_new_client

  abbrev pub container_remove : Str → Bool → Io (Unit {0})
  container_remove id force = call (pouch_container_remove id force) host.pouch_container_remove

  abbrev pub container_start : Str → Io (Unit {0})
  container_start id = call (pouch_container_start id) host.pouch_container_start
