-- ===== src/Convertor/Config.antt =====
-- pouch/convertor/core.go: the status, the configuration and the environment of a container.
pub mod Env
use d2p_migrator.Prelude.{List, [], ◌∷◌, Option, none, some, Str, ◌==◌, if◌then◌else◌, str, split}
use d2p_migrator.Prelude.Dict.{Dict, insert, get_str}
use d2p_migrator.Prelude.Result.{Result, ok}
use d2p_migrator.Docker
use d2p_migrator.Pouch.{Status, unset, created, running, stopped, paused, dead, ContainerConfig}

unfoldable pub to_container_status : Str → Status
unfolding str
to_container_status status =
    if status == str "running"
    then running
    else if status == str "exited"
    then stopped
    else if status == str "created"
    then created
    else if status == str "paused"
    then paused
    else if status == str "dead"
    then dead
    else unset

unfoldable pub labels_or_empty : Option (Dict Str) → Dict Str
labels_or_empty none = []
labels_or_empty (some labels) = labels

-- `toContainerConfig`. A missing `QuotaId` label leaves the field at its zero value, as reading the
-- empty string from the map does. The volumes are the keys of a map.
unfoldable pub to_container_config : Option Docker.Config → Result (Option ContainerConfig)
unfolding labels_or_empty get_str
to_container_config none = ok none
to_container_config (some config) = ok (
    some (record {
      hostname = config.hostname;
      domainname = config.domainname;
      user = config.user;
      attach_stdin = config.attach_stdin;
      attach_stdout = config.attach_stdout;
      attach_stderr = config.attach_stderr;
      tty = config.tty;
      cmd = config.cmd;
      entrypoint = config.entrypoint;
      env = config.env;
      image = config.image;
      labels = labels_or_empty config.labels;
      mac_address = config.mac_address;
      network_disabled = config.network_disabled;
      on_build = config.on_build;
      open_stdin = config.open_stdin;
      shell = config.shell;
      stop_signal = config.stop_signal;
      working_dir = config.working_dir;
      volumes = config.volumes;
      quota_id = get_str (str "QuotaId") (labels_or_empty config.labels);
      spec_annotation = none;
    }))

-- One round of the loop of `parseEnv`: an entry counts if it has exactly one equals sign.
add_env : List Str → Dict Str → Dict Str
unfolding insert
add_env (name ∷ value ∷ []) result = insert name value result
add_env _ result = result

parse_env_loop : List Str → Dict Str → Dict Str
unfolding add_env split
parse_env_loop [] result = result
parse_env_loop (e ∷ envs) result = parse_env_loop envs (add_env (split b'=' e) result)

unfoldable pub parse_env : List Str → Result (Dict Str)
unfolding parse_env_loop
parse_env envs = ok (parse_env_loop envs [])
