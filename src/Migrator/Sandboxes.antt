-- ===== src/Migrator/Sandboxes.antt =====
-- migrator/cri_migrate.go: pouch's store of CRI sandboxes.
use d2p_migrator.Prelude.{List, [], ◌∷◌, ◌++◌, Str, ◌==◌, str, if◌then◌else◌}
use d2p_migrator.Prelude.FilePath.{path_join}
use d2p_migrator.Pouch
use d2p_migrator.Migrator.Disk.{ensure_dir}
use d2p_migrator.Convertor.Sandbox.{to_cri_meta_json}
use d2p_migrator.Utils.Files.{copy_file}
use d2p_migrator.World.{
  Host, Io, call, pure, wrap_io, attempt, finally, ◌>>=◌, ◌>>◌, store_new, store_shutdown,
  store_put_sandbox, os_mkdir_all,
}

abbrev pub sandboxes_meta : Str → Str
sandboxes_meta base_dir = path_join (base_dir ∷ str "sandboxes-meta" ∷ [])

abbrev pub sandboxes : Str → Str
sandboxes base_dir = path_join (base_dir ∷ str "sandboxes" ∷ [])

module _ (host : Host) where
  cri_dir : Str → Io (Unit {0})
  cri_dir dir =
      ensure_dir host dir (str "failed to prepare cri dir " ++ dir ++ str ": ")
        (call (os_mkdir_all dir 0o666) host.os_mkdir_all)

  unfoldable pub new_cri_store : Str → Io (Unit {0})
  unfolding cri_dir
  new_cri_store base_dir = do
    cri_dir (sandboxes_meta base_dir)
    cri_dir (sandboxes base_dir)
    call (store_new (str "local") (sandboxes_meta base_dir)) host.store_new

  unfoldable pub setup_sandbox_files : Str → Str → Str → Io (Unit {0})
  setup_sandbox_files base_dir resolv_conf_path id = do
    let sandbox_dir = path_join (sandboxes base_dir ∷ id ∷ [])
    ensure_dir host sandbox_dir (str "failed to prepare sandbox dir " ++ sandbox_dir ++ str ": ")
        (call (os_mkdir_all sandbox_dir 0o666) host.os_mkdir_all)
    copy_file host (path_join (sandbox_dir ∷ str "resolv.conf" ∷ []))
        (if resolv_conf_path == [] then str "/etc/resolv.conf" else resolv_conf_path) 0o644

  -- A failure to copy the resolver's configuration is only logged.
  unfoldable pub create_sandboxes : Str → List Pouch.Container → Io (Unit {0})
  create_sandboxes base_dir [] = pure tt
  create_sandboxes base_dir (c ∷ conts) = do
    sandbox ← to_cri_meta_json host c
    wrap_io (str "failed to create sandbox " ++ c.id ++ str ": ")
        (call (store_put_sandbox (sandboxes_meta base_dir) sandbox) host.store_put_sandbox)
    _ ← attempt (setup_sandbox_files base_dir c.resolv_conf_path sandbox.id)
    create_sandboxes base_dir conts

  unfoldable pub generate_sandbox_meta_json : Str → List Pouch.Container → Io (Unit {0})
  generate_sandbox_meta_json home_dir sandbox_cons = do
    wrap_io (str "failed to initialize cri store: ") (new_cri_store home_dir)
    finally (create_sandboxes home_dir sandbox_cons)
        (call (store_shutdown (str "local") (sandboxes_meta home_dir)) host.store_shutdown)
