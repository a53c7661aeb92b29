-- ===== src/Pouch/Stores.antt =====
-- What is put into pouch's stores: volumes, and pouch/types/types.go's `SandboxMeta` with the CRI
-- records that it refers to.
use d2p_migrator.Prelude.{ℕ, Bool, List, Option, Str}
use d2p_migrator.Prelude.Dict.{Dict}

-- A volume, with the fields of its metadata, specification and status that the code sets.
pub record Volume : Type 0 where
  pub name : Str
  pub claimer : Str
  pub namespace : Str
  pub uid : Str
  pub labels : Dict Str
  pub creation_timestamp : Str
  pub modify_timestamp : Str
  pub backend : Str
  pub extra : Dict Str
  pub size : Str
  pub mount_point : Str

pub record PodSandboxMetadata : Type 0 where
  pub name : Str
  pub uid : Str
  pub namespace : Str
  pub attempt : ℕ

pub record DnsConfig : Type 0 where
  pub servers : List Str
  pub searches : List Str
  pub options : List Str

-- `POD` is the zero value of the namespace modes.
pub data NamespaceMode : Type 0 where
  pod container node : NamespaceMode

pub record NamespaceOption : Type 0 where
  pub network : NamespaceMode
  pub pid : NamespaceMode
  pub ipc : NamespaceMode

-- `security_context` is its one field that is set, the namespace options.
pub record LinuxPodSandboxConfig : Type 0 where
  pub cgroup_parent : Str
  pub security_context : NamespaceOption
  pub sysctls : Dict Str

pub record PodSandboxConfig : Type 0 where
  pub metadata : PodSandboxMetadata
  pub hostname : Str
  pub log_directory : Str
  pub dns_config : Option DnsConfig
  pub labels : Dict Str
  pub annotations : Option (Dict Str)
  pub linux : LinuxPodSandboxConfig

pub record SandboxMeta : Type 0 where
  pub id : Str
  pub config : PodSandboxConfig
  pub runtime : Str
  pub lxcfs_enabled : Bool
  pub net_ns : Str
