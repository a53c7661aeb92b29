-- ===== src/Convertor/Sandbox.antt =====
-- pouch/convertor/cri.go: the CRI metadata of a sandbox container.
pub mod Labels
pub mod Annotations
use d2p_migrator.Prelude.{
  Bool, false, List, [], ◌∷◌, ◌++◌, Option, none, some, Str, ◌==◌, if◌then◌else◌, str, has_prefix,
  trim_prefix, split, trim_space, not, ◌&&◌, zero, suc,
}
use d2p_migrator.Prelude.Dict.{Dict, insert, has}
use d2p_migrator.Prelude.Int.{pos, negsuc, print_nat}
use d2p_migrator.Utils.{string_in_slice, slice_trim_space}
use d2p_migrator.Pouch
use d2p_migrator.Pouch.{
  PodSandboxConfig, PodSandboxMetadata, LinuxPodSandboxConfig, NamespaceOption, SandboxMeta,
  DnsConfig, container, node, pod,
}
use d2p_migrator.World.{Host, Io, call, pure, lift, ◌>>=◌, ◌>>◌, os_stat, os_read_file}
use d2p_migrator.Convertor.SandboxName.{get_pod_sandbox_metadata_by_sandbox_name}
use d2p_migrator.Convertor.Container.{
  pouch_container_type_label_key, docker_container_type_label_key,
}

-- The lines of a resolver's configuration, by their first word.
record Resolv : Type 0 where
  pub servers : List Str
  pub searches : List Str
  pub options : List Str

-- One round of the loop over the lines.
add_line : List Str → Resolv → Resolv
add_line (kind ∷ first ∷ rest) r =
    if kind == str "search"
    then record r { searches = r.searches ++ first ∷ rest }
    else if kind == str "nameserver"
    then record r { servers = r.servers ++ first ∷ rest }
    else if kind == str "options"
    then record r { options = r.options ++ first ∷ rest }
    else r
add_line _ r = r

add_lines : List Str → Resolv → Resolv
unfolding add_line
add_lines [] r = r
add_lines (line ∷ lines) r = add_lines lines (add_line (split b' ' (trim_space line)) r)

-- The body of `toDNSConfig`, at the text of the file.
unfoldable pub parse_resolv_conf : Str → DnsConfig
unfolding add_lines
parse_resolv_conf raw =
    let r = add_lines (split b'\n' raw) (record { servers = []; searches = []; options = [] }) in
    record {
      servers = slice_trim_space r.servers;
      searches = slice_trim_space r.searches;
      options = slice_trim_space r.options;
    }

abbrev pub annotation_prefix : Str
annotation_prefix = str "annotation."

-- One round of the loop over the labels. The annotations' map is made when it is first written.
unfoldable pub annotations_or_empty : Option (Dict Str) → Dict Str
annotations_or_empty none = []
annotations_or_empty (some m) = m

abbrev pub label_key_type : List Str
label_key_type = pouch_container_type_label_key ∷ docker_container_type_label_key ∷ []

unfoldable pub split_labels : Dict Str → Dict Str → Option (Dict Str) → Dict Str × Option (Dict Str)
unfolding annotations_or_empty
split_labels [] labels annotations = (labels, annotations)
split_labels ((k, v) ∷ rest) labels annotations =
    split_labels rest
      (if not (has_prefix k annotation_prefix) && not (string_in_slice label_key_type k)
        then insert k v labels
        else labels)
      (if has_prefix k annotation_prefix
        then some (insert (trim_prefix k annotation_prefix) v (annotations_or_empty annotations))
        else annotations)

on_host_network : Option Pouch.NetworkSettings → Bool
on_host_network none = false
on_host_network (some n) = elim n.networks [ none ↦ false | some m ↦ has (str "host") m ]

-- `toLinuxSandboxSecurityContext`
unfoldable pub to_linux_sandbox_security_context : Pouch.Container → NamespaceOption
unfolding on_host_network
to_linux_sandbox_security_context c =
    if on_host_network c.network_settings
    then record { network = node; pid = node; ipc = node }
    else record { network = pod; pid = container; ipc = pod }

-- `toLinuxPodSandboxConfig`, which never fails.
unfoldable pub to_linux_pod_sandbox_config : Pouch.Container → LinuxPodSandboxConfig
to_linux_pod_sandbox_config c = record {
  cgroup_parent = elim c.host_config [ none ↦ [] | some h ↦ h.resources.cgroup_parent ];
  security_context = to_linux_sandbox_security_context c;
  sysctls = elim c.host_config [ none ↦ [] | some h ↦ h.sysctls ];
}

-- The path of a network namespace, if the process is alive.
net_ns : Option Pouch.ContainerState → Str
net_ns none = []
net_ns (some s) = elim s.pid [
  | pos n ↦ elim n [ zero ↦ [] | suc k ↦ str "/proc/" ++ print_nat (suc k) ++ str "/ns/net" ]
  | negsuc _ ↦ []
]

-- The labels and the annotations. The source writes these into the map of the container's own specification, which
-- nothing reads later.
abbrev labels_of : Option Pouch.ContainerConfig → Dict Str × Option (Dict Str)
labels_of none = ([], none)
labels_of (some config) = split_labels config.labels [] config.spec_annotation

module _ (host : Host) where
  unfoldable pub to_dns_config : Str → Io (Option DnsConfig)
  to_dns_config [] = pure none
  to_dns_config (c ∷ path) = do
    call (os_stat (c ∷ path)) host.os_stat
    raw ← call (os_read_file (c ∷ path)) host.os_read_file
    pure (some (parse_resolv_conf raw))

  unfoldable pub to_pod_sandbox_config : Pouch.Container → Io PodSandboxConfig
  to_pod_sandbox_config c = do
    meta ← lift (get_pod_sandbox_metadata_by_sandbox_name c.name)
    dns ← to_dns_config c.resolv_conf_path
    pure (record {
      metadata = meta;
      hostname = elim c.config [ none ↦ [] | some config ↦ config.hostname ];
      log_directory = str "/var/log/pods/" ++ meta.uid;
      dns_config = dns;
      labels = (labels_of c.config).0;
      annotations = (labels_of c.config).1;
      linux = to_linux_pod_sandbox_config c;
    })

  -- `ToCRIMetaJSON`, at a container that is not nil.
  unfoldable pub to_cri_meta_json : Pouch.Container → Io SandboxMeta
  unfolding net_ns
  to_cri_meta_json c = do
    config ← to_pod_sandbox_config c
    pure (record {
      id = c.id;
      config = config;
      runtime = elim c.host_config [ none ↦ [] | some h ↦ h.runtime ];
      lxcfs_enabled = elim c.host_config [ none ↦ false | some h ↦ h.enable_lxcfs ];
      net_ns = net_ns c.state;
    })
