-- ===== src/Tests/Samples.antt =====
-- A host on which every call succeeds, with two containers, and variants of it.
use d2p_migrator.Prelude.{
  ℕ, zero, suc, true, false, List, [], ◌∷◌, ◌++◌, none, some, Str, str, ◌==◌,
}
use d2p_migrator.Prelude.Int.{pos, negsuc}
use d2p_migrator.Prelude.Result.{Result, ok, err, Class}
use d2p_migrator.Docker
use d2p_migrator.Pouch
use d2p_migrator.Docker.{ContainerSummary, ContainerJson}
use d2p_migrator.Ctrd.Types.{Descriptor, Manifest, V1History, Converter}
use d2p_migrator.Ctrd.Converter.{media_schema1_manifest, media_image_config}
use d2p_migrator.World.{Host, Trace, docker_container_inspect, pure}
use d2p_migrator.World.Exec.{Exec, io, ◌>>=◌}

abbrev pub resources : Docker.Resources
resources = record {
  cpu_shares = pos 0;
  memory = pos 0;
  cgroup_parent = str "/kube";
  blkio_weight = 0;
  blkio_weight_device = none;
  blkio_device_read_bps = some (some (record { path = str "/dev/sda"; rate = 10 }) ∷ []);
  blkio_device_write_bps = none;
  blkio_device_read_iops = none;
  blkio_device_write_iops = none;
  cpu_period = pos 0;
  cpu_quota = pos 0;
  cpuset_cpus = [];
  cpuset_mems = [];
  devices = [];
  kernel_memory = pos 0;
  memory_reservation = pos 0;
  memory_swap = pos 0;
  memory_swappiness = none;
  oom_kill_disable = none;
  pids_limit = pos 0;
  ulimits = none;
  cpu_count = pos 0;
  cpu_percent = pos 0;
  io_maximum_iops = 0;
  io_maximum_bandwidth = 0;
}

abbrev pub host_config : Docker.HostConfig
host_config = record {
  binds = str "/a:/a" ∷ [];
  container_id_file = [];
  log_config = record { type = []; config = [] };
  network_mode = str "host";
  restart_policy = record { name = str "no"; maximum_retry_count = pos 0 };
  auto_remove = false;
  volume_driver = [];
  cap_add = str "NET_ADMIN" ∷ [];
  cap_drop = [];
  dns = [];
  dns_options = [];
  dns_search = [];
  extra_hosts = [];
  group_add = [];
  ipc_mode = [];
  cgroup = [];
  links = [];
  oom_score_adj = pos 0;
  pid_mode = [];
  privileged = false;
  publish_all_ports = false;
  readonly_rootfs = false;
  security_opt = [];
  storage_opt = [];
  tmpfs = [];
  uts_mode = [];
  shm_size = pos 0;
  sysctls = [];
  isolation = [];
  resources = resources;
}

abbrev pub config : Docker.Config
config = record {
  hostname = str "h";
  domainname = [];
  user = [];
  attach_stdin = false;
  attach_stdout = false;
  attach_stderr = false;
  tty = false;
  open_stdin = false;
  env = str "A=1" ∷ str "ali_run_mode=container" ∷ [];
  cmd = str "sh" ∷ [];
  image = str "busybox";
  volumes = [];
  working_dir = [];
  entrypoint = [];
  network_disabled = false;
  mac_address = [];
  on_build = [];
  labels = none;
  stop_signal = [];
  shell = [];
}

abbrev pub state : Docker.ContainerState
state = record {
  status = str "running";
  running = true;
  paused = false;
  dead = false;
  pid = pos 7;
  exit_code = pos 0;
  error = [];
  started_at = [];
  finished_at = [];
}

abbrev pub container : Str → ContainerJson
container id = record {
  id = id;
  created = [];
  path = str "sh";
  args = [];
  state = some state;
  image = str "sha256:1";
  resolv_conf_path = [];
  hostname_path = [];
  hosts_path = [];
  log_path = str "/log";
  name = str "/web";
  restart_count = pos 0;
  driver = str "overlay2";
  mount_label = [];
  process_label = [];
  app_armor_profile = [];
  host_config = some host_config;
  graph_data = (str "UpperDir", str "/old") ∷ [];
  size_rw = none;
  size_root_fs = none;
  mounts = [];
  config = some config;
  network_settings = none;
}

abbrev inspected : Trace → Result ContainerJson
inspected (docker_container_inspect id ∷ t) = ok (container id)
inspected _ = ok (container (str "x"))

abbrev pub listed : List ContainerSummary
listed =
    record { id = str "c1"; state = str "running" }
    ∷ record { id = str "c2"; state = str "exited" }
    ∷ []

abbrev pub volume : Docker.Volume
volume = record {
  name = str "v";
  driver = str "local";
  mountpoint = str "/v";
  status = [];
  labels = [];
}

-- An image whose manifest is of schema 1, with one empty layer above another.
abbrev pub old_image : Descriptor
old_image = record {
  media_type = media_schema1_manifest;
  digest = str "sha256:m";
  size = pos 9;
  platform = none;
}

abbrev pub image_config : Descriptor
image_config = record {
  media_type = media_image_config;
  digest = str "sha256:c";
  size = pos 2;
  platform = none;
}

abbrev pub schema1 : Manifest
schema1 = record {
  fs_layers = record { blob_sum = str "sha256:e" } ∷ record { blob_sum = str "sha256:b" } ∷ [];
  history = record { v1_compatibility = str "top" } ∷ record { v1_compatibility = str "base" } ∷ [];
}

abbrev pub v1_history : Str → Result V1History
v1_history s = ok (record {
  author = [];
  created = str "2018";
  comment = s;
  throw_away = some (s == str "top");
  size = none;
  cmd = str "sh" ∷ str "-c" ∷ [];
})

-- A walk of a handler over descriptors and their children.
abbrev pub walk :
    ℕ
    → (Descriptor → Exec Converter (List Descriptor))
    → List Descriptor
    → Exec Converter (Unit {0})
walk zero handler ds = io (pure tt)
walk (suc n) handler [] = io (pure tt)
walk (suc n) handler (d ∷ ds) = do below ← handler d; walk n handler (below ++ ds)

abbrev pub host : Host
host = record {
  docker_new_client = λ _. ok tt;
  docker_info =
      λ _. ok (record { docker_root_dir = str "/var/lib/docker"; driver = str "overlay2" });
  docker_container_list = λ _. ok listed;
  docker_volume_list = λ _. ok [];
  docker_container_inspect = inspected;
  docker_image_inspect = λ _. ok (record { repo_tags = str "busybox:1" ∷ []; repo_digests = [] });
  docker_volume_inspect = λ _. ok volume;
  docker_container_stop = λ _. ok tt;
  docker_container_start = λ _. ok tt;
  ctrd_new = λ _. ok tt;
  ctrd_list_leases = λ _. ok [];
  ctrd_create_lease = λ _. ok (str "lease");
  image_service_get = λ _. ok (str "image");
  image_root_fs = λ _. ok (str "parent");
  ctrd_get_image = λ _. ok (str "image");
  snapshot_prepare = λ _. ok tt;
  snapshot_stat = λ _. ok tt;
  snapshot_mounts = λ _. ok ((str "workdir=/work" ∷ str "upperdir=/upper" ∷ []) ∷ []);
  snapshot_remove = λ _. ok tt;
  generate_spec = λ _. ok tt;
  container_get = λ _. ok tt;
  container_delete = λ _. ok tt;
  container_new = λ _. ok tt;
  ctrd_pull = λ _. ok tt;
  ctrd_with_lease = λ _. ok tt;
  lease_done = λ _. ok tt;
  resolver_resolve = λ _. ok (str "nginx", old_image);
  resolver_fetcher = λ _. ok tt;
  fetch = λ _. ok (str "{...}");
  read_blob = λ _. ok (str "{}");
  fetch_content = λ _. ok tt;
  write_blob = λ _. ok tt;
  image_create = λ _. ok tt;
  image_update = λ _. ok tt;
  pouch_new_client = λ _. ok tt;
  pouch_container_remove = λ _. ok tt;
  pouch_container_start = λ _. ok tt;
  net_dial = λ _. ok tt;
  os_stat = λ _. ok tt;
  os_remove_all = λ _. ok tt;
  os_remove = λ _. ok tt;
  os_read_file = λ _. ok [];
  os_open = λ _. ok tt;
  os_open_file = λ _. ok tt;
  os_read_dir_names = λ _. ok tt;
  os_write = λ _. ok tt;
  io_copy = λ _. ok tt;
  os_mkdir_all = λ _. ok tt;
  exec_command = λ _. ok tt;
  look_path = λ _. ok (str "/usr/bin/d2p-containerd");
  start_process = λ _. ok (pos 42);
  kill = λ _. ok tt;
  walk = λ _. ok [];
  quota_start_driver = λ _. ok tt;
  quota_set_subtree = λ _. ok 5;
  quota_set_disk_quota = λ _. ok tt;
  quota_set_file_attr = λ _. ok tt;
  store_new = λ _. ok tt;
  store_shutdown = λ _. ok tt;
  store_put_volume = λ _. ok tt;
  store_put_sandbox = λ _. ok tt;
  now = λ _. ok (str "now");
  new_uuid = λ _. ok (str "uuid");
  marshal = λ _. ok (str "{}");
  to_utc = λ _. none;
  parse_reference = λ s. ok s;
  decode_manifest = λ _. ok (record { config = image_config; layers = [] });
  decode_index = λ _. ok (record { manifests = old_image ∷ [] });
  decode_schema1 = λ _. ok schema1;
  decode_v1_history = v1_history;
  decode_image = λ s. ok s;
  decode_signatures = λ _. ok (str "e30" ∷ []);
  decode_protected = λ _. ok (record { length = pos 4; tail = str "fQ" });
  marshal_image = λ image. ok image.base;
  marshal_manifest = λ m. ok m.config.digest;
  digest_of = λ s. s;
  make_ref_key = λ d. d.digest;
  default_platform = str "linux/amd64";
  parse_platform = λ _. ok (λ p. p == str "linux/amd64");
  dispatch = λ handler desc. walk 10 handler (desc ∷ []);
  environ = [];
  dial_rounds = λ _. 3;
}

-- A host on which a signature has a negative length.
abbrev pub forged : Host
forged = record host { decode_protected = λ _. ok (record { length = negsuc 0; tail = str "fQ" }) }

-- A host on which containers cannot be stopped.
abbrev pub stuck : Host
stuck = record host {
  docker_container_stop = λ _. err (record { class = Class.plain; text = str "timeout" });
}

abbrev pub pouch_state : Pouch.ContainerState
pouch_state = record {
  dead = false;
  error = [];
  exit_code = pos 0;
  finished_at = [];
  oom_killed = false;
  paused = false;
  pid = pos 7;
  restarting = false;
  running = true;
  started_at = [];
  status = Pouch.Status.running;
}

abbrev pub pouch_container : Pouch.Container
pouch_container = record {
  app_armor_profile = [];
  seccomp_profile = [];
  no_new_privileges = false;
  args = [];
  config = none;
  created = [];
  driver = str "overlay2";
  exec_ids = [];
  snapshotter = none;
  graph_driver = none;
  host_config = none;
  hostname_path = [];
  hosts_path = [];
  id = str "c1";
  image = str "sha256:1";
  log_path = [];
  mount_label = [];
  mounts = [];
  name = str "web";
  network_settings = none;
  path = [];
  process_label = [];
  resolv_conf_path = [];
  restart_count = pos 0;
  size_root_fs = pos 0;
  size_rw = pos 0;
  state = some pouch_state;
  base_fs = [];
  detach_keys = [];
  root_fs_provided = true;
}
