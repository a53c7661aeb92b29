-- ===== src/Docker/Types.antt =====
-- The records of docker's engine API, with the fields that the migration reads. A pointer that may
-- be nil is an `Option`, and so is a slice or a map where the code tells nil from empty.
use d2p_migrator.Prelude.{ℕ, Bool, List, [], ◌∷◌, Option, Str}
use d2p_migrator.Prelude.Dict.{Dict}
use d2p_migrator.Prelude.Int.{ℤ}

pub record WeightDevice : Type 0 where
  pub path : Str
  pub weight : ℕ

pub record ThrottleDevice : Type 0 where
  pub path : Str
  pub rate : ℕ

pub record DeviceMapping : Type 0 where
  pub path_on_host : Str
  pub path_in_container : Str
  pub cgroup_permissions : Str

pub record Ulimit : Type 0 where
  pub name : Str
  pub hard : ℤ
  pub soft : ℤ

pub record Resources : Type 0 where
  pub cpu_shares : ℤ
  pub memory : ℤ
  pub cgroup_parent : Str
  pub blkio_weight : ℕ
  pub blkio_weight_device : Option (List (Option WeightDevice))
  pub blkio_device_read_bps : Option (List (Option ThrottleDevice))
  pub blkio_device_write_bps : Option (List (Option ThrottleDevice))
  pub blkio_device_read_iops : Option (List (Option ThrottleDevice))
  pub blkio_device_write_iops : Option (List (Option ThrottleDevice))
  pub cpu_period : ℤ
  pub cpu_quota : ℤ
  pub cpuset_cpus : Str
  pub cpuset_mems : Str
  pub devices : List DeviceMapping
  pub kernel_memory : ℤ
  pub memory_reservation : ℤ
  pub memory_swap : ℤ
  pub memory_swappiness : Option ℤ
  pub oom_kill_disable : Option Bool
  pub pids_limit : ℤ
  pub ulimits : Option (List (Option Ulimit))
  pub cpu_count : ℤ
  pub cpu_percent : ℤ
  pub io_maximum_iops : ℕ
  pub io_maximum_bandwidth : ℕ

pub record LogConfig : Type 0 where
  pub type : Str
  pub config : Dict Str

pub record RestartPolicy : Type 0 where
  pub name : Str
  pub maximum_retry_count : ℤ

pub record HostConfig : Type 0 where
  pub binds : List Str
  pub container_id_file : Str
  pub log_config : LogConfig
  pub network_mode : Str
  pub restart_policy : RestartPolicy
  pub auto_remove : Bool
  pub volume_driver : Str
  pub cap_add : List Str
  pub cap_drop : List Str
  pub dns : List Str
  pub dns_options : List Str
  pub dns_search : List Str
  pub extra_hosts : List Str
  pub group_add : List Str
  pub ipc_mode : Str
  pub cgroup : Str
  pub links : List Str
  pub oom_score_adj : ℤ
  pub pid_mode : Str
  pub privileged : Bool
  pub publish_all_ports : Bool
  pub readonly_rootfs : Bool
  pub security_opt : List Str
  pub storage_opt : Dict Str
  pub tmpfs : Dict Str
  pub uts_mode : Str
  pub shm_size : ℤ
  pub sysctls : Dict Str
  pub isolation : Str
  pub resources : Resources

pub record Config : Type 0 where
  pub hostname : Str
  pub domainname : Str
  pub user : Str
  pub attach_stdin : Bool
  pub attach_stdout : Bool
  pub attach_stderr : Bool
  pub tty : Bool
  pub open_stdin : Bool
  pub env : List Str
  pub cmd : List Str
  pub image : Str
  pub volumes : List Str
  pub working_dir : Str
  pub entrypoint : List Str
  pub network_disabled : Bool
  pub mac_address : Str
  pub on_build : List Str
  pub labels : Option (Dict Str)
  pub stop_signal : Str
  pub shell : List Str

pub record ContainerState : Type 0 where
  pub status : Str
  pub running : Bool
  pub paused : Bool
  pub dead : Bool
  pub pid : ℤ
  pub exit_code : ℤ
  pub error : Str
  pub started_at : Str
  pub finished_at : Str

pub record MountPoint : Type 0 where
  pub name : Str
  pub source : Str
  pub destination : Str
  pub driver : Str
  pub mode : Str
  pub rw : Bool
  pub propagation : Str

pub record IpamConfig : Type 0 where
  pub ipv4_address : Str
  pub ipv6_address : Str
  pub link_local_ips : List Str

pub record EndpointSettings : Type 0 where
  pub ipam_config : Option IpamConfig
  pub links : List Str
  pub network_id : Str
  pub endpoint_id : Str
  pub gateway : Str
  pub ip_address : Str
  pub ip_prefix_len : ℤ
  pub ipv6_gateway : Str
  pub global_ipv6_address : Str
  pub global_ipv6_prefix_len : ℤ
  pub mac_address : Str

pub record PortBinding : Type 0 where
  pub host_ip : Str
  pub host_port : Str

pub record NetworkSettings : Type 0 where
  pub bridge : Str
  pub sandbox_id : Str
  pub hairpin_mode : Bool
  pub link_local_ipv6_address : Str
  pub link_local_ipv6_prefix_len : ℤ
  pub sandbox_key : Str
  pub ports : Option (Dict (List PortBinding))
  pub networks : Option (Dict (Option EndpointSettings))

-- What `ContainerInspect` returns. `graph_data` is `GraphDriver.Data`.
pub record ContainerJson : Type 0 where
  pub id : Str
  pub created : Str
  pub path : Str
  pub args : List Str
  pub state : Option ContainerState
  pub image : Str
  pub resolv_conf_path : Str
  pub hostname_path : Str
  pub hosts_path : Str
  pub log_path : Str
  pub name : Str
  pub restart_count : ℤ
  pub driver : Str
  pub mount_label : Str
  pub process_label : Str
  pub app_armor_profile : Str
  pub host_config : Option HostConfig
  pub graph_data : Dict Str
  pub size_rw : Option ℤ
  pub size_root_fs : Option ℤ
  pub mounts : List MountPoint
  pub config : Option Config
  pub network_settings : Option NetworkSettings

-- One line of `ContainerList`.
pub record ContainerSummary : Type 0 where
  pub id : Str
  pub state : Str

-- The ids in `ContainerList`, in order.
abbrev pub ids : List ContainerSummary → List Str
ids [] = []
ids (c ∷ cs) = c.id ∷ ids cs

pub record ImageInspect : Type 0 where
  pub repo_tags : List Str
  pub repo_digests : List Str

pub record Info : Type 0 where
  pub docker_root_dir : Str
  pub driver : Str

-- A value of the status map, which is of any type: here a text or something else.
pub data StatusValue : Type 0 where
  text : Str → StatusValue
  other : StatusValue

pub record Volume : Type 0 where
  pub name : Str
  pub driver : Str
  pub mountpoint : Str
  pub status : Dict StatusValue
  pub labels : Dict Str
