-- ===== src/Migrator/Disk.antt =====
-- migrator/migrator_utils.go: files and directories of the two daemons.
use d2p_migrator.Prelude.{◌&&◌, not, [], ◌∷◌, ◌++◌, Str, ◌==◌, str, if◌then◌else◌, trim_suffix}
use d2p_migrator.Prelude.FilePath.{path_join}
use d2p_migrator.Prelude.Result.{Result, ok, errorf, not_exist, is_class}
use d2p_migrator.Docker
use d2p_migrator.Pouch
use d2p_migrator.Pouch.Service.{change_home_dir}
use d2p_migrator.Utils.Files.{exec}
use d2p_migrator.World.{
  Host, Io, call, pure, lift, wrap_io, attempt, done, failed, Attempt, ◌>>=◌, ◌>>◌, os_stat,
  os_mkdir_all, os_open_file, os_write, os_remove_all,
}

-- `validateDocker`
unfoldable pub validate_docker : Docker.Info → Result (Unit {0})
validate_docker info =
    if info.docker_root_dir == []
    then errorf (str "docker root dir is empty")
    else if not (info.driver == str "overlay") && not (info.driver == str "overlay2")
    then errorf (str "d2p-migrator only support overlayfs Storage Driver")
    else ok tt

-- `getPouchHomeDir`
unfoldable pub get_pouch_home_dir : Str → Str
get_pouch_home_dir docker_home_dir =
    path_join (trim_suffix docker_home_dir (str "docker") ∷ str "pouch" ∷ [])

module _ (host : Host) where
  make_if_missing : Attempt (Unit {0}) → Str → Io (Unit {0}) → Io (Unit {0})
  make_if_missing (done _) text make = pure tt
  make_if_missing (failed e) text make =
      if is_class e.class not_exist then wrap_io text make else pure tt

  -- A directory is made if looking for it fails because it does not exist.
  unfoldable pub ensure_dir : Str → Str → Io (Unit {0}) → Io (Unit {0})
  unfolding make_if_missing
  ensure_dir dir text make = do
    found ← attempt (call (os_stat dir) host.os_stat)
    make_if_missing found text make

  -- `save2Disk`. The file is flushed and closed on every path, which no later call can tell.
  unfoldable pub save_to_disk : Str → Pouch.Container → Io (Unit {0})
  save_to_disk home_dir meta = do
    let dir = path_join (home_dir ∷ meta.id ∷ [])
    ensure_dir dir (str "failed to mkdir " ++ dir ++ str ": ")
        (call (os_mkdir_all dir 0o744) host.os_mkdir_all)
    value ← wrap_io (str "failed to encode meta data: ") (lift (host.marshal meta))
    let file_name = path_join (dir ∷ str "meta.json" ∷ [])
    wrap_io (str "failed to open file " ++ file_name ++ str ": ")
        (call (os_open_file file_name 0o644) host.os_open_file)
    wrap_io (str "failed to write file " ++ file_name ++ str ": ")
        (call (os_write file_name value) host.os_write)

  unfoldable pub migrate_network_file : Str → Str → Io (Unit {0})
  migrate_network_file docker_home_dir pouch_home_dir = do
    let db_name = str "local-kv.db"
    let db_file = path_join (docker_home_dir ∷ str "network" ∷ str "files" ∷ db_name ∷ [])
    let new_db_dir = path_join (pouch_home_dir ∷ str "network" ∷ str "files" ∷ [])
    let new_db_file = path_join (new_db_dir ∷ db_name ∷ [])
    call (os_stat db_file) host.os_stat
    ensure_dir new_db_dir (str "failed to prepare network dir: ")
        (call (os_mkdir_all new_db_dir 0o666) host.os_mkdir_all)
    wrap_io (str "failed to delete old network db file: ")
        (call (os_remove_all new_db_file) host.os_remove_all)
    wrap_io (str "failed to prepare network db file: ")
        (exec host (str "cp") (db_file ∷ new_db_dir ∷ []))

  unfoldable pub prepare_config_for_pouch : Str → Io (Unit {0})
  prepare_config_for_pouch home_dir = do
    ensure_dir home_dir (str "failed to mkdir: ")
        (call (os_mkdir_all home_dir 0o666) host.os_mkdir_all)
    wrap_io (str "failed to change the pouchd home dir: ") (change_home_dir host home_dir)
