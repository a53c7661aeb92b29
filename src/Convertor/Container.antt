-- ===== src/Convertor/Container.antt =====
-- pouch/convertor/core.go: the conversion of a whole container. A nil pointer that is read through
-- is a panic. `to_utc` stands for `time.Parse(RFC3339Nano, t)` with `UTC().Format(RFC3339Nano)`
-- behind it, and has no value where the parse fails.
pub mod RunMode
pub mod Fields
pub mod Labels
pub mod Laws
use d2p_migrator.Prelude.{
  true, false, List, [], ◌∷◌, ◌++◌, Option, none, some, Str, ◌==◌, if◌then◌else◌, str, trim_prefix,
  ◌&&◌, not,
}
use d2p_migrator.Prelude.Dict.{Dict, lookup, insert, get_str}
use d2p_migrator.Prelude.Int.{ℤ, pos}
use d2p_migrator.Prelude.Result.{Result, ok, errorf, ◌>>=◌, deref}
use d2p_migrator.Utils.{string_in_slice}
use d2p_migrator.Docker
use d2p_migrator.Pouch
use d2p_migrator.Convertor.SandboxName.{sandbox_name_match}
use d2p_migrator.Convertor.Config.{to_container_status, to_container_config, parse_env}
use d2p_migrator.Convertor.HostConfig.{to_host_config}
use d2p_migrator.Convertor.Network.{to_mount_points, to_network_settings}

-- The constants of cri.go and of pouch's package `annotations`.
abbrev pub pouch_container_type_label_key : Str
pouch_container_type_label_key = str "io.kubernetes.pouch.type"

abbrev pub pouch_container_type_label_sandbox : Str
pouch_container_type_label_sandbox = str "sandbox"

abbrev pub pouch_container_type_label_container : Str
pouch_container_type_label_container = str "container"

abbrev pub docker_container_type_label_key : Str
docker_container_type_label_key = str "io.kubernetes.docker.type"

abbrev pub sandbox_id_label_key : Str
sandbox_id_label_key = str "io.kubernetes.sandbox.id"

abbrev pub annotation_container_type : Str
annotation_container_type = str "io.kubernetes.cri-o.ContainerType"

abbrev pub annotation_sandbox_name : Str
annotation_sandbox_name = str "io.kubernetes.cri-o.SandboxName"

abbrev pub annotation_sandbox_id : Str
annotation_sandbox_id = str "io.kubernetes.cri-o.SandboxID"

-- The label that marks a sandbox, set by the container's name.
unfoldable pub mark_sandbox : Str → Pouch.ContainerConfig → Pouch.ContainerConfig
mark_sandbox name config =
    if sandbox_name_match name
    then record config {
      labels =
          insert pouch_container_type_label_key pouch_container_type_label_sandbox config.labels;
    }
    else config

-- The annotations get the container type only if there were none.
initial_annotations : Option (Dict Str) → Dict Str
initial_annotations none = insert annotation_container_type pouch_container_type_label_container []
initial_annotations (some annotations) = annotations

add_sandbox_id : Option Str → Dict Str → Dict Str
add_sandbox_id none annotations = annotations
add_sandbox_id (some v) annotations =
    insert annotation_sandbox_id v (insert annotation_sandbox_name v annotations)

-- The labels and annotations of a container that belongs to a sandbox.
unfoldable pub mark_container : Pouch.ContainerConfig → Pouch.ContainerConfig
unfolding initial_annotations add_sandbox_id
mark_container config =
    if get_str docker_container_type_label_key config.labels == pouch_container_type_label_container
    then (let labels =
          insert pouch_container_type_label_key pouch_container_type_label_container
            config.labels in
        record config {
          labels = labels;
          spec_annotation = some (
              add_sandbox_id (lookup sandbox_id_label_key labels)
                (initial_annotations config.spec_annotation));
        })
    else config

-- The loop over `config.Env` that rewrites the first entry equal to the old run mode.
unfoldable pub replace_first : Str → Str → List Str → List Str
replace_first old new [] = []
replace_first old new (v ∷ vs) = if v == old then new ∷ vs else v ∷ replace_first old new vs

abbrev pub run_mode : Str
run_mode = str "ali_run_mode"

unfoldable pub set_run_mode : Option Str → List Str → List Str
set_run_mode none env = env
set_run_mode (some mode) env =
    if mode == str "vm"
    then env
    else replace_first (run_mode ++ b'=' ∷ mode) (run_mode ++ b'=' ∷ str "vm") env

-- The log driver of a container with a log path and no driver.
unfoldable pub set_log_driver : Str → Pouch.HostConfig → Pouch.HostConfig
set_log_driver log_path h =
    if (h.log_config.log_driver == []) && not (log_path == [])
    then record h { log_config = record (h.log_config) { log_driver = str "json-file" } }
    else h

ld_bind : Option Str → Str
ld_bind none = []
ld_bind (some path) = if path == [] then [] else path ++ b':' ∷ path ++ str ":ro"

-- The bind for the library of `LD_PRELOAD`.
unfoldable pub add_ld_bind : Option Str → List Str → List Str
unfolding ld_bind
add_ld_bind path binds =
    if not (ld_bind path == []) && not (string_in_slice binds (ld_bind path))
    then binds ++ ld_bind path ∷ []
    else binds

int_or_zero : Option ℤ → ℤ
int_or_zero none = pos 0
int_or_zero (some n) = n

non_empty_config : Option Pouch.ContainerConfig → Result Pouch.ContainerConfig
non_empty_config none = errorf (str "got an empty ContainerConfig")
non_empty_config (some config) = ok config

module _ (to_utc : Str → Option Str) where
  unfoldable pub convert_time : Str → Str
  convert_time t = elim (to_utc t) [ none ↦ t | some u ↦ u ]

  to_state : Docker.ContainerState → Pouch.ContainerState
  to_state s = record {
    dead = s.dead;
    error = s.error;
    exit_code = s.exit_code;
    finished_at = convert_time s.finished_at;
    oom_killed = false;
    paused = s.paused;
    pid = s.pid;
    restarting = false;
    running = s.running;
    started_at = convert_time s.started_at;
    status = to_container_status s.status;
  }

  -- `ToPouchContainerMeta`, at a container that is not nil.
  unfoldable pub to_pouch_container_meta : Docker.ContainerJson → Result Pouch.Container
  unfolding to_state non_empty_config mark_sandbox mark_container int_or_zero
  to_pouch_container_meta meta = do
    state ← deref meta.state
    let name = trim_prefix meta.name (b'/' ∷ [])
    converted ← to_container_config meta.config
    plain_config ← non_empty_config converted
    let config = mark_container (mark_sandbox name plain_config)
    envs ← parse_env config.env
    let env = set_run_mode (lookup run_mode envs) config.env
    maybe_host ← to_host_config meta.host_config
    host ← deref maybe_host
    mounts ← to_mount_points meta.mounts
    let host_config = set_log_driver meta.log_path host
    let binds = add_ld_bind (lookup (str "LD_PRELOAD") envs) host_config.binds
    networks ← to_network_settings meta.network_settings
    ok (record {
      app_armor_profile = meta.app_armor_profile;
      seccomp_profile = [];
      no_new_privileges = false;
      args = meta.args;
      config = some (record config { env = env });
      created = convert_time meta.created;
      driver = meta.driver;
      exec_ids = [];
      snapshotter = some (record { name = str "overlayfs"; entries = meta.graph_data });
      graph_driver = none;
      host_config = some (record host_config { binds = binds });
      hostname_path = meta.hostname_path;
      hosts_path = meta.hosts_path;
      id = meta.id;
      image = meta.image;
      log_path = meta.log_path;
      mount_label = meta.mount_label;
      mounts = mounts;
      name = name;
      network_settings = networks;
      path = meta.path;
      process_label = meta.process_label;
      resolv_conf_path = meta.resolv_conf_path;
      restart_count = meta.restart_count;
      size_root_fs = int_or_zero meta.size_root_fs;
      size_rw = int_or_zero meta.size_rw;
      state = some (to_state state);
      base_fs = get_str (str "MergedDir") meta.graph_data;
      detach_keys = [];
      root_fs_provided = true;
    })

  -- `ToPouchContainerMeta`. At a nil pointer the result is nil, with no error.
  unfoldable pub to_pouch_container_meta_ptr :
      Option Docker.ContainerJson → Result (Option Pouch.Container)
  to_pouch_container_meta_ptr none = ok none
  to_pouch_container_meta_ptr (some meta) = do c ← to_pouch_container_meta meta; ok (some c)
