-- ===== src/Pouch/Types.antt =====
-- pouch/types/types.go, and the records of pouch's API that it refers to. `Node`, an untyped field
-- that the code never sets, is left out.
use d2p_migrator.Prelude.{ℕ, Bool, List, Option, Str}
use d2p_migrator.Prelude.Dict.{Dict}
use d2p_migrator.Prelude.Int.{ℤ}

-- The values of `Status`; `unset` is the empty string.
pub data Status : Type 0 where
  unset created running stopped paused dead : Status

pub record WeightDevice : Type 0 where
  pub path : Str
  pub weight : ℕ

pub record ThrottleDevice : Type 0 where
  pub path : Str
  pub rate : ℕ

pub record DeviceMapping : Type 0 where
  pub cgroup_permissions : Str
  pub path_in_container : Str
  pub path_on_host : Str

pub record Ulimit : Type 0 where
  pub hard : ℤ
  pub name : Str
  pub soft : ℤ

pub record Resources : Type 0 where
  pub blkio_device_read_bps : Option (List ThrottleDevice)
  pub blkio_device_read_iops : Option (List ThrottleDevice)
  pub blkio_device_write_bps : Option (List ThrottleDevice)
  pub blkio_device_write_iops : Option (List ThrottleDevice)
  pub blkio_weight : ℕ
  pub blkio_weight_device : Option (List WeightDevice)
  pub cgroup_parent : Str
  pub cpu_count : ℤ
  pub cpu_percent : ℤ
  pub cpu_period : ℤ
  pub cpu_quota : ℤ
  pub cpu_shares : ℤ
  pub cpuset_cpus : Str
  pub cpuset_mems : Str
  pub devices : Option (List DeviceMapping)
  pub io_maximum_iops : ℕ
  pub io_maximum_bandwidth : ℕ
  pub kernel_memory : ℤ
  pub memory : ℤ
  pub memory_reservation : ℤ
  pub memory_swap : ℤ
  pub memory_swappiness : Option ℤ
  pub oom_kill_disable : Option Bool
  pub pids_limit : ℤ
  pub ulimits : Option (List Ulimit)

pub record LogConfig : Type 0 where
  pub log_driver : Str
  pub log_opts : Dict Str

pub record RestartPolicy : Type 0 where
  pub name : Str
  pub maximum_retry_count : ℤ

pub record HostConfig : Type 0 where
  pub auto_remove : Bool
  pub cap_add : List Str
  pub cap_drop : List Str
  pub cgroup : Str
  pub container_id_file : Str
  pub dns : List Str
  pub dns_options : List Str
  pub dns_search : List Str
  pub enable_lxcfs : Bool
  pub extra_hosts : List Str
  pub group_add : List Str
  pub ipc_mode : Str
  pub isolation : Str
  pub links : List Str
  pub log_config : LogConfig
  pub network_mode : Str
  pub oom_score_adj : ℤ
  pub pid_mode : Str
  pub privileged : Bool
  pub publish_all_ports : Bool
  pub readonly_rootfs : Bool
  pub runtime : Str
  pub security_opt : List Str
  pub shm_size : Option ℤ
  pub storage_opt : Dict Str
  pub sysctls : Dict Str
  pub tmpfs : Dict Str
  pub uts_mode : Str
  pub volume_driver : Str
  pub volumes_from : List Str
  pub binds : List Str
  pub restart_policy : RestartPolicy
  pub resources : Resources

pub record ContainerConfig : Type 0 where
  pub hostname : Str
  pub domainname : Str
  pub user : Str
  pub attach_stdin : Bool
  pub attach_stdout : Bool
  pub attach_stderr : Bool
  pub tty : Bool
  pub cmd : List Str
  pub entrypoint : List Str
  pub env : List Str
  pub image : Str
  pub labels : Dict Str
  pub mac_address : Str
  pub network_disabled : Bool
  pub on_build : List Str
  pub open_stdin : Bool
  pub shell : List Str
  pub stop_signal : Str
  pub working_dir : Str
  pub volumes : List Str
  pub quota_id : Str
  pub spec_annotation : Option (Dict Str)

pub record ContainerState : Type 0 where
  pub dead : Bool
  pub error : Str
  pub exit_code : ℤ
  pub finished_at : Str
  pub oom_killed : Bool
  pub paused : Bool
  pub pid : ℤ
  pub restarting : Bool
  pub running : Bool
  pub started_at : Str
  pub status : Status

pub record SnapshotterData : Type 0 where
  pub name : Str
  pub entries : Dict Str

pub record MountPoint : Type 0 where
  pub name : Str
  pub source : Str
  pub destination : Str
  pub driver : Str
  pub mode : Str
  pub rw : Bool
  pub propagation : Str
  pub named : Bool

pub record IpamConfig : Type 0 where
  pub ipv4_address : Str
  pub ipv6_address : Str
  pub link_local_ips : List Str

pub record EndpointSettings : Type 0 where
  pub endpoint_id : Str
  pub gateway : Str
  pub global_ipv6_address : Str
  pub global_ipv6_prefix_len : ℤ
  pub ip_address : Str
  pub ip_prefix_len : ℤ
  pub ipv6_gateway : Str
  pub links : List Str
  pub mac_address : Str
  pub network_id : Str
  pub ipam_config : Option IpamConfig

pub record PortBinding : Type 0 where
  pub host_ip : Str
  pub host_port : Str

pub record NetworkSettings : Type 0 where
  pub bridge : Str
  pub hairpin_mode : Bool
  pub link_local_ipv6_address : Str
  pub link_local_ipv6_prefix_len : ℤ
  pub sandbox_id : Str
  pub sandbox_key : Str
  pub networks : Option (Dict EndpointSettings)
  pub ports : Option (Dict (List PortBinding))

-- `Container` of types.go.
pub record Container : Type 0 where
  pub app_armor_profile : Str
  pub seccomp_profile : Str
  pub no_new_privileges : Bool
  pub args : List Str
  pub config : Option ContainerConfig
  pub created : Str
  pub driver : Str
  pub exec_ids : Str
  pub snapshotter : Option SnapshotterData
  pub graph_driver : Option SnapshotterData
  pub host_config : Option HostConfig
  pub hostname_path : Str
  pub hosts_path : Str
  pub id : Str
  pub image : Str
  pub log_path : Str
  pub mount_label : Str
  pub mounts : List MountPoint
  pub name : Str
  pub network_settings : Option NetworkSettings
  pub path : Str
  pub process_label : Str
  pub resolv_conf_path : Str
  pub restart_count : ℤ
  pub size_root_fs : ℤ
  pub size_rw : ℤ
  pub state : Option ContainerState
  pub base_fs : Str
  pub detach_keys : Str
  pub root_fs_provided : Bool
