-- ===== src/Convertor/Network.antt =====
-- pouch/convertor/core.go: the mounts and the network settings of a container.
use d2p_migrator.Prelude.{
  true, false, List, [], ◌∷◌, ◌++◌, Option, none, some, Str, if◌then◌else◌, str,
}
use d2p_migrator.Prelude.Dict.{Dict, insert}
use d2p_migrator.Prelude.Result.{Result, ok, ◌>>=◌, deref}
use d2p_migrator.Utils.{string_in_slice}
use d2p_migrator.Docker
use d2p_migrator.Pouch

abbrev pub named_drivers : List Str
named_drivers = str "alilocal" ∷ str "ultron" ∷ []

to_mount_point : Docker.MountPoint → Pouch.MountPoint
to_mount_point m = record {
  name = m.name;
  source = m.source;
  destination = m.destination;
  driver = m.driver;
  mode = m.mode;
  rw = m.rw;
  propagation = m.propagation;
  named = if string_in_slice named_drivers m.driver then true else false;
}

mount_loop : List Docker.MountPoint → List Pouch.MountPoint → List Pouch.MountPoint
unfolding to_mount_point
mount_loop [] out = out
mount_loop (m ∷ mounts) out = mount_loop mounts (out ++ to_mount_point m ∷ [])

unfoldable pub to_mount_points : List Docker.MountPoint → Result (List Pouch.MountPoint)
unfolding mount_loop
to_mount_points mounts = ok (mount_loop mounts [])

to_ipam_config : Option Docker.IpamConfig → Option Pouch.IpamConfig
to_ipam_config none = none
to_ipam_config (some c) = some (record {
  ipv4_address = c.ipv4_address;
  ipv6_address = c.ipv6_address;
  link_local_ips = c.link_local_ips;
})

unfoldable pub to_endpoint : Docker.EndpointSettings → Pouch.EndpointSettings
unfolding to_ipam_config
to_endpoint v = record {
  endpoint_id = v.endpoint_id;
  gateway = v.gateway;
  global_ipv6_address = v.global_ipv6_address;
  global_ipv6_prefix_len = v.global_ipv6_prefix_len;
  ip_address = v.ip_address;
  ip_prefix_len = v.ip_prefix_len;
  ipv6_gateway = v.ipv6_gateway;
  links = v.links;
  mac_address = v.mac_address;
  network_id = v.network_id;
  ipam_config = to_ipam_config v.ipam_config;
}

-- A nil pointer panics.
unfoldable pub endpoint_loop :
    Dict (Option Docker.EndpointSettings)
    → Dict Pouch.EndpointSettings
    → Result (Dict Pouch.EndpointSettings)
unfolding to_endpoint
endpoint_loop [] out = ok out
endpoint_loop ((k, endpoint) ∷ networks) out = do
  v ← deref endpoint
  endpoint_loop networks (insert k (to_endpoint v) out)

unfoldable pub to_endpoint_settings :
    Option (Dict (Option Docker.EndpointSettings)) → Result (Option (Dict Pouch.EndpointSettings))
unfolding endpoint_loop
to_endpoint_settings none = ok none
to_endpoint_settings (some networks) = do out ← endpoint_loop networks []; ok (some out)

binding_loop : List Docker.PortBinding → List Pouch.PortBinding → List Pouch.PortBinding
binding_loop [] out = out
binding_loop (b ∷ bindings) out =
    binding_loop bindings (out ++ record { host_ip = b.host_ip; host_port = b.host_port } ∷ [])

port_loop :
    Dict (List Docker.PortBinding) → Dict (List Pouch.PortBinding) → Dict (List Pouch.PortBinding)
unfolding binding_loop
port_loop [] out = out
port_loop ((k, v) ∷ ports) out = port_loop ports (insert k (binding_loop v []) out)

unfoldable pub to_port_map :
    Option (Dict (List Docker.PortBinding)) → Result (Option (Dict (List Pouch.PortBinding)))
unfolding port_loop
to_port_map none = ok none
to_port_map (some ports) = ok (some (port_loop ports []))

unfoldable pub to_network_settings :
    Option Docker.NetworkSettings → Result (Option Pouch.NetworkSettings)
to_network_settings none = ok none
to_network_settings (some n) = do
  networks ← to_endpoint_settings n.networks
  ports ← to_port_map n.ports
  ok (
      some (record {
        bridge = n.bridge;
        hairpin_mode = n.hairpin_mode;
        link_local_ipv6_address = n.link_local_ipv6_address;
        link_local_ipv6_prefix_len = n.link_local_ipv6_prefix_len;
        sandbox_id = n.sandbox_id;
        sandbox_key = n.sandbox_key;
        networks = networks;
        ports = ports;
      }))
