-- ===== src/Convertor/HostConfig.antt =====
-- pouch/convertor/core.go: the host configuration and the resources of a container.
pub mod Caps
pub mod Lists
use d2p_migrator.Prelude.{false, List, [], ◌∷◌, ◌++◌, Option, none, some, Str, if◌then◌else◌, str}
use d2p_migrator.Prelude.Result.{Result, ok, ◌>>=◌, wrap, deref}
use d2p_migrator.Utils.{string_in_slice}
use d2p_migrator.Docker
use d2p_migrator.Pouch

-- The loops append one record for each record. A nil slice stays nil, and a nil pointer in it panics.
throttle_loop :
    List (Option Docker.ThrottleDevice)
    → List Pouch.ThrottleDevice
    → Result (List Pouch.ThrottleDevice)
throttle_loop [] out = ok out
throttle_loop (dev ∷ devs) out = do
  d ← deref dev
  throttle_loop devs (out ++ record { path = d.path; rate = d.rate } ∷ [])

unfoldable pub to_throttle_devices :
    Option (List (Option Docker.ThrottleDevice)) → Result (Option (List Pouch.ThrottleDevice))
unfolding throttle_loop
to_throttle_devices none = ok none
to_throttle_devices (some devs) = do out ← throttle_loop devs []; ok (some out)

weight_loop :
    List (Option Docker.WeightDevice) → List Pouch.WeightDevice → Result (List Pouch.WeightDevice)
weight_loop [] out = ok out
weight_loop (dev ∷ devs) out = do
  d ← deref dev
  weight_loop devs (out ++ record { path = d.path; weight = d.weight } ∷ [])

unfoldable pub to_weight_device :
    Option (List (Option Docker.WeightDevice)) → Result (Option (List Pouch.WeightDevice))
unfolding weight_loop
to_weight_device none = ok none
to_weight_device (some devs) = do out ← weight_loop devs []; ok (some out)

device_loop : List Docker.DeviceMapping → List Pouch.DeviceMapping → List Pouch.DeviceMapping
device_loop [] out = out
device_loop (d ∷ devs) out = device_loop devs (
    out
    ++ record {
      cgroup_permissions = d.cgroup_permissions;
      path_in_container = d.path_in_container;
      path_on_host = d.path_on_host;
    }
      ∷ [])

-- A nil slice becomes one that is empty and not nil; the model keeps no nil for docker's.
unfoldable pub to_devices : List Docker.DeviceMapping → Result (Option (List Pouch.DeviceMapping))
unfolding device_loop
to_devices devs = ok (some (device_loop devs []))

-- `append`, to a slice that may be nil.
abbrev pub append_to {ℓ} : {A : Type ℓ} → Option (List A) → A → Option (List A)
append_to none x = some (x ∷ [])
append_to (some xs) x = some (xs ++ x ∷ [])

-- The loop starts with a nil slice, which stays nil if docker's is empty.
ulimit_loop :
    List (Option Docker.Ulimit) → Option (List Pouch.Ulimit) → Result (Option (List Pouch.Ulimit))
ulimit_loop [] out = ok out
ulimit_loop (ulimit ∷ us) out = do
  u ← deref ulimit
  ulimit_loop us (append_to out (record { hard = u.hard; name = u.name; soft = u.soft }))

unfoldable pub to_ulimits :
    Option (List (Option Docker.Ulimit)) → Result (Option (List Pouch.Ulimit))
unfolding ulimit_loop
to_ulimits none = ok none
to_ulimits (some us) = ulimit_loop us none

-- The four lists of throttle devices are converted in one loop, in the order of the source.
unfoldable pub to_resources : Docker.Resources → Result Pouch.Resources
to_resources r = do
  weights ← wrap (str "failed to convert WeightDevices: ") (to_weight_device r.blkio_weight_device)
  read_bps ←
      wrap (str "failed to convert ThrottleDevices: ") (to_throttle_devices r.blkio_device_read_bps)
  read_iops ←
      wrap (str "failed to convert ThrottleDevices: ")
        (to_throttle_devices r.blkio_device_read_iops)
  write_bps ←
      wrap (str "failed to convert ThrottleDevices: ")
        (to_throttle_devices r.blkio_device_write_bps)
  write_iops ←
      wrap (str "failed to convert ThrottleDevices: ")
        (to_throttle_devices r.blkio_device_write_iops)
  devices ← wrap (str "failed to convert Devices: ") (to_devices r.devices)
  ulimits ← to_ulimits r.ulimits
  ok (record {
    blkio_device_read_bps = read_bps;
    blkio_device_read_iops = read_iops;
    blkio_device_write_bps = write_bps;
    blkio_device_write_iops = write_iops;
    blkio_weight = r.blkio_weight;
    blkio_weight_device = weights;
    cgroup_parent = r.cgroup_parent;
    cpu_count = r.cpu_count;
    cpu_percent = r.cpu_percent;
    cpu_period = r.cpu_period;
    cpu_quota = r.cpu_quota;
    cpu_shares = r.cpu_shares;
    cpuset_cpus = r.cpuset_cpus;
    cpuset_mems = r.cpuset_mems;
    devices = devices;
    io_maximum_iops = r.io_maximum_iops;
    io_maximum_bandwidth = r.io_maximum_bandwidth;
    kernel_memory = r.kernel_memory;
    memory = r.memory;
    memory_reservation = r.memory_reservation;
    memory_swap = r.memory_swap;
    memory_swappiness = r.memory_swappiness;
    oom_kill_disable = r.oom_kill_disable;
    pids_limit = r.pids_limit;
    ulimits = ulimits;
  })

abbrev pub required_caps : List Str
required_caps =
    str "SYS_RESOURCE"
    ∷ str "SYS_MODULE"
    ∷ str "SYS_PTRACE"
    ∷ str "SYS_PACCT"
    ∷ str "NET_ADMIN"
    ∷ str "SYS_ADMIN"
    ∷ []

-- The loop that adds capabilities.
unfoldable pub add_caps : List Str → List Str → List Str
add_caps [] cap_add = cap_add
add_caps (cap ∷ caps) cap_add =
    add_caps caps (if string_in_slice cap_add cap then cap_add else cap_add ++ cap ∷ [])

unfoldable pub to_host_config : Option Docker.HostConfig → Result (Option Pouch.HostConfig)
to_host_config none = ok none
to_host_config (some h) = do
  resources ← to_resources h.resources
  ok (
      some (record {
        auto_remove = h.auto_remove;
        cap_add = add_caps required_caps h.cap_add;
        cap_drop = h.cap_drop;
        cgroup = h.cgroup;
        container_id_file = h.container_id_file;
        dns = h.dns;
        dns_options = h.dns_options;
        dns_search = h.dns_search;
        enable_lxcfs = false;
        extra_hosts = h.extra_hosts;
        group_add = h.group_add;
        ipc_mode = h.ipc_mode;
        isolation = h.isolation;
        links = h.links;
        log_config = record { log_driver = h.log_config.type; log_opts = h.log_config.config };
        network_mode = h.network_mode;
        oom_score_adj = h.oom_score_adj;
        pid_mode = h.pid_mode;
        privileged = h.privileged;
        publish_all_ports = h.publish_all_ports;
        readonly_rootfs = h.readonly_rootfs;
        runtime = str "runc";
        security_opt = h.security_opt;
        shm_size = some h.shm_size;
        storage_opt = h.storage_opt;
        sysctls = h.sysctls;
        tmpfs = h.tmpfs;
        uts_mode = h.uts_mode;
        volume_driver = h.volume_driver;
        volumes_from = [];
        binds = h.binds;
        restart_policy = record {
          name = h.restart_policy.name;
          maximum_retry_count = h.restart_policy.maximum_retry_count;
        };
        resources = resources;
      }))
