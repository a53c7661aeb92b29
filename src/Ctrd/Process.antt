-- ===== src/Ctrd/Process.antt =====
-- ctrd/containerd.go: the containerd instance that the migration runs.
use d2p_migrator.Prelude.{Bool, List, [], ◌∷◌, Str, str, if◌then◌else◌, has_prefix, zero}
use d2p_migrator.Prelude.FilePath.{path_join}
use d2p_migrator.Prelude.Int.{ℤ, negsuc}
use d2p_migrator.Utils.{if_then_else}
use d2p_migrator.World.{
  Host, Io, call, pure, wrap_io, attempt, done, failed, Attempt, ◌>>=◌, ◌>>◌, os_stat,
  os_remove_all, os_remove, look_path, start_process, kill,
}

abbrev pub socket_addr : Str
socket_addr = str "/tmp/containerd-migrator.sock"

-- The environment without the variables that begin with `NOTIFY_SOCKET`.
drop_notify : List Str → List Str
drop_notify [] = []
drop_notify (e ∷ es) =
    let rest = drop_notify es in if has_prefix e (str "NOTIFY_SOCKET") then rest else e ∷ rest

unfoldable pub containerd_args : Str → Bool → List Str
containerd_args home_dir debug =
    str "-a"
    ∷ socket_addr
    ∷ str "--root"
    ∷ path_join (home_dir ∷ str "containerd/root" ∷ [])
    ∷ str "--state"
    ∷ path_join (home_dir ∷ str "containerd/state" ∷ [])
    ∷ str "-l"
    ∷ if_then_else debug (str "debug") (str "info")
    ∷ []

module _ (host : Host) where
  -- A socket file that is there is deleted; that this may fail is ignored.
  remove_stale : Attempt (Unit {0}) → Io (Unit {0})
  remove_stale (done _) = do
    _ ← attempt (call (os_remove_all socket_addr) host.os_remove_all)
    pure tt
  remove_stale (failed _) = pure tt

  -- `StartContainerd`, with the body of `newContainerdCmd`. The result is the process's id.
  unfoldable pub start_containerd : Str → Bool → Io ℤ
  unfolding remove_stale drop_notify
  start_containerd home_dir debug = do
    stale ← attempt (call (os_stat socket_addr) host.os_stat)
    remove_stale stale
    path ←
        wrap_io (str "failed to find containerd binary ")
          (call (look_path (str "d2p-containerd")) host.look_path)
    call (start_process path (containerd_args home_dir debug) (drop_notify host.environ))
        host.start_process

  kill_if_started : ℤ → Io (Unit {0})
  kill_if_started (negsuc zero) = pure tt
  kill_if_started pid = do _ ← attempt (call (kill pid) host.kill); pure tt

  -- `Cleanup`. What the calls return is ignored.
  unfoldable pub cleanup : ℤ → Io (Unit {0})
  unfolding kill_if_started
  cleanup pid = do
    kill_if_started pid
    _ ← attempt (call (os_remove socket_addr) host.os_remove)
    pure tt
