-- ===== src/Convertor/Container/Fields.antt =====
-- pouch/convertor/core.go: the conversions that do not fail, and what `ToPouchContainerMeta` makes of
-- each part of a container.
use d2p_migrator.Prelude.{
  Bool, true, false, inl, inr, List, [], ◌∷◌, ◌≡◌, refl, Option, none, some, Str, ◌==◌, str,
  if◌then◌else◌, trim_prefix, arith,
}
use d2p_migrator.Prelude.Dict.{Dict, insert, lookup, get_str}
use d2p_migrator.Prelude.Result.{ok, panic}
use d2p_migrator.Docker
use d2p_migrator.Pouch
use d2p_migrator.Convertor.Config.{
  to_container_config, parse_env, to_container_status, labels_or_empty,
}
use d2p_migrator.Convertor.HostConfig.{to_host_config, add_caps, required_caps}
use d2p_migrator.Convertor.HostConfig.Lists.{Devices, filled, to_resources-Devices}
use d2p_migrator.Convertor.Network.{
  to_mount_points, to_network_settings, to_endpoint, endpoint_loop, to_endpoint_settings,
  to_port_map,
}
use d2p_migrator.Convertor.Container.{
  set_run_mode, run_mode, pouch_container_type_label_key, set_log_driver,
}
use d2p_migrator.Convertor.Container.Labels.{type_label}

-- What `toHostConfig` fills in.
pub record HostConverted (h : Docker.HostConfig) (p : Pouch.HostConfig) : Type 0 where
  pub caps : p.cap_add ≡ add_caps required_caps h.cap_add
  pub runtime : p.runtime ≡ str "runc"
  pub network_mode : p.network_mode ≡ h.network_mode
  pub log_driver : p.log_config.log_driver ≡ h.log_config.type
  pub binds : p.binds ≡ h.binds
  pub resources : Devices h.resources p.resources

pub to_host_config-some :
    (h : Docker.HostConfig)
    → filled h.resources ≡ true
    → (p : Pouch.HostConfig) × (to_host_config (some h) ≡ ok (some p)) × HostConverted h p
unfolding to_host_config
to_host_config-some h all = elim (to_resources-Devices h.resources) [
  | inl (r, e, _, devices) ↦ rw e (
    _,
    refl,
    record {
      caps = refl;
      runtime = refl;
      network_mode = refl;
      log_driver = refl;
      binds = refl;
      resources = devices;
    },
  )
  | inr (_, missing) ↦ absurd (ground (arith, all, missing))
]

pub to_host_config-panic :
    (h : Docker.HostConfig) → filled h.resources ≡ false → to_host_config (some h) ≡ panic
unfolding to_host_config
to_host_config-panic h missing = elim (to_resources-Devices h.resources) [
  | inl (_, _, all, _) ↦ absurd (ground (arith, all, missing))
  | inr (e, _) ↦ rw e refl
]

-- Whether each of docker's networks has its settings.
abbrev pub all_joined : Dict (Option Docker.EndpointSettings) → Bool
all_joined [] = true
all_joined ((_, none) ∷ networks) = false
all_joined ((_, some _) ∷ networks) = all_joined networks

abbrev pub networks_joined : Option (Dict (Option Docker.EndpointSettings)) → Bool
networks_joined none = true
networks_joined (some networks) = all_joined networks

abbrev pub joined : Option Docker.NetworkSettings → Bool
joined none = true
joined (some n) = networks_joined n.networks

endpoint_loop-joined :
    (ns : Dict (Option Docker.EndpointSettings)) (out : Dict Pouch.EndpointSettings)
    → (p : Dict Pouch.EndpointSettings) × (endpoint_loop ns out
        ≡ (if all_joined ns then ok p else panic))
unfolding endpoint_loop
endpoint_loop-joined [] out = (out, refl)
endpoint_loop-joined ((k, none) ∷ ns) out = (out, refl)
endpoint_loop-joined ((k, some v) ∷ ns) out = endpoint_loop-joined ns (insert k (to_endpoint v) out)

to_endpoint_settings-joined :
    (ns : Option (Dict (Option Docker.EndpointSettings)))
    → (p : Option (Dict Pouch.EndpointSettings)) × (to_endpoint_settings ns
        ≡ (if networks_joined ns then ok p else panic))
unfolding to_endpoint_settings
to_endpoint_settings-joined none = (none, refl)
to_endpoint_settings-joined (some ns) =
    let (p, e) = endpoint_loop-joined ns [] in (some p, ground (arith, e))

to_port_map-ok :
    (n : Option (Dict (List Docker.PortBinding)))
    → (p : Option (Dict (List Pouch.PortBinding))) × (to_port_map n ≡ ok p)
unfolding to_port_map
to_port_map-ok none = (none, refl)
to_port_map-ok (some n) = (_, refl)

pub to_network_settings-ok :
    (n : Option Docker.NetworkSettings)
    → joined n ≡ true
    → (p : Option Pouch.NetworkSettings) × (to_network_settings n ≡ ok p)
unfolding to_network_settings
to_network_settings-ok none h = (none, refl)
to_network_settings-ok (some n) h =
    let (p, e) = to_endpoint_settings-joined n.networks in
    let e' : to_endpoint_settings n.networks ≡ ok p = ground (arith, e, h) in
    let (_, e'') = to_port_map-ok n.ports in rw (e', e'') (_, refl)

pub to_network_settings-panic :
    (n : Option Docker.NetworkSettings) → joined n ≡ false → to_network_settings n ≡ panic
unfolding to_network_settings
to_network_settings-panic none h = absurd (ground (arith, h))
to_network_settings-panic (some n) h =
    let (p, e) = to_endpoint_settings-joined n.networks in
    let e' : to_endpoint_settings n.networks ≡ panic = ground (arith, e, h) in rw e' refl

-- What `toContainerConfig` fills in.
pub record ConfigConverted (config : Docker.Config) (p : Pouch.ContainerConfig) : Type 0 where
  pub image : p.image ≡ config.image
  pub env : p.env ≡ config.env
  pub labels : p.labels ≡ labels_or_empty config.labels
  pub quota_id : p.quota_id ≡ get_str (str "QuotaId") (labels_or_empty config.labels)

pub to_container_config-some :
    (c : Docker.Config)
    → (p : Pouch.ContainerConfig) × (to_container_config (some c) ≡ ok (some p))
      × ConfigConverted c p
unfolding to_container_config
to_container_config-some c =
    (_, refl, record { image = refl; env = refl; labels = refl; quota_id = refl })

pub to_container_config-none : to_container_config none ≡ ok none
unfolding to_container_config
to_container_config-none = refl

pub parse_env-ok : (env : List Str) → (envs : Dict Str) × (parse_env env ≡ ok envs)
unfolding parse_env
parse_env-ok env = (_, refl)

pub to_mount_points-ok :
    (ms : List Docker.MountPoint) → (ps : List Pouch.MountPoint) × (to_mount_points ms ≡ ok ps)
unfolding to_mount_points
to_mount_points-ok ms = (_, refl)

pub to_host_config-none : to_host_config none ≡ ok none
unfolding to_host_config
to_host_config-none = refl

-- What a conversion gives, by docker's record, its state, configuration and host configuration.
pub record Converted (to_utc : Str → Option Str) (meta : Docker.ContainerJson)
    (s : Docker.ContainerState) (config : Docker.Config) (h : Docker.HostConfig)
    (c : Pouch.Container) : Type 0 where
  pub id : c.id ≡ meta.id
  pub name : c.name ≡ trim_prefix meta.name (b'/' ∷ [])
  pub driver : c.driver ≡ meta.driver
  pub snapshotter :
      c.snapshotter ≡ some (record { name = str "overlayfs"; entries = meta.graph_data })
  pub base_fs : c.base_fs ≡ get_str (str "MergedDir") meta.graph_data
  pub provided : c.root_fs_provided ≡ true
  pub state :
      (cs : Pouch.ContainerState) × (c.state ≡ some cs)
      × (cs.status ≡ to_container_status s.status)
      × (cs.running ≡ s.running)
      × (cs.pid ≡ s.pid)
  pub labels :
      (cc : Pouch.ContainerConfig) × (c.config ≡ some cc)
      × (cc.image ≡ config.image)
      × (cc.quota_id ≡ get_str (str "QuotaId") (labels_or_empty config.labels))
      × ((k : Str)
          → lookup k cc.labels ≡ (
              if pouch_container_type_label_key == k
              then type_label c.name (labels_or_empty config.labels)
              else lookup k (labels_or_empty config.labels)))
      × ((envs : Dict Str) × (parse_env config.env ≡ ok envs)
          × (cc.env ≡ set_run_mode (lookup run_mode envs) config.env))
  pub host :
      (hc : Pouch.HostConfig) × (c.host_config ≡ some hc)
      × (hc.cap_add ≡ add_caps required_caps h.cap_add)
      × (hc.runtime ≡ str "runc")
      × (hc.network_mode ≡ h.network_mode)
      × Devices h.resources hc.resources
      × (hc.log_config.log_driver ≡ (
          if h.log_config.type == []
          then (if meta.log_path == [] then [] else str "json-file")
          else h.log_config.type))

pub log_driver-set_log_driver :
    (path : Str) (p : Pouch.HostConfig)
    → ((set_log_driver path p).log_config.log_driver ≡ (
        if p.log_config.log_driver == []
        then (if path == [] then [] else str "json-file")
        else p.log_config.log_driver))
      × ((set_log_driver path p).cap_add ≡ p.cap_add)
      × ((set_log_driver path p).runtime ≡ p.runtime)
      × ((set_log_driver path p).network_mode ≡ p.network_mode)
      × ((set_log_driver path p).resources ≡ p.resources)
unfolding set_log_driver
log_driver-set_log_driver path p =
    (ground arith, ground arith, ground arith, ground arith, ground arith)
