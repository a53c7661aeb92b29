-- ===== src/World/Requests.antt =====
-- The calls that the program makes of code outside this repository.
use d2p_migrator.Prelude.{ℕ, Bool, List, Option, Str}
use d2p_migrator.Prelude.Int.{ℤ}
use d2p_migrator.Prelude.Result.{Result, Error}
use d2p_migrator.Prelude.Dict.{Dict}
use d2p_migrator.Ctrd.Types.{
  Descriptor, OciManifest, Index, Manifest, V1History, OciImage, ProtectedBlock, Converter,
}
use d2p_migrator.Docker
use d2p_migrator.Pouch
use d2p_migrator.Docker.{ContainerSummary, ContainerJson, ImageInspect, Info}

pub data Request : Type 0 where
  -- docker's client
  docker_new_client docker_info docker_container_list docker_volume_list : Request
  docker_container_inspect docker_image_inspect docker_volume_inspect : Str → Request
  docker_container_stop : Str → ℕ → Request
  docker_container_start : Str → Request
  -- containerd's client
  ctrd_new ctrd_list_leases ctrd_create_lease : Request
  image_service_get image_root_fs ctrd_get_image : Str → Request
  snapshot_prepare : Str → Str → Str → Request
  snapshot_stat snapshot_mounts snapshot_remove : Str → Str → Request
  generate_spec container_get container_delete : Str → Request
  container_new : Str → Str → Request
  ctrd_pull : Str → Str → Bool → Request
  -- an image's registry, containerd's content store and image service
  ctrd_with_lease lease_done : Request
  resolver_resolve resolver_fetcher : Str → Request
  fetch read_blob fetch_content : Descriptor → Request
  write_blob : Str → Str → ℤ → Str → Dict Str → Request
  image_create image_update : Str → Descriptor → Dict Str → Request
  -- pouch's client
  pouch_new_client : Request
  pouch_container_remove : Str → Bool → Request
  pouch_container_start : Str → Request
  net_dial : Str → Request
  -- files and processes
  os_stat os_remove_all os_remove os_read_file os_open os_read_dir_names : Str → Request
  os_mkdir_all : Str → ℕ → Request
  os_open_file : Str → ℕ → Request
  os_write : Str → Str → Request
  io_copy : Str → Str → Request
  exec_command : Str → List Str → Request
  look_path : Str → Request
  start_process : Str → List Str → List Str → Request
  kill : ℤ → Request
  walk : Str → Request
  -- disk quotas
  quota_start_driver : Str → Request
  quota_set_subtree : Str → ℕ → Request
  quota_set_disk_quota : Str → Str → ℕ → Request
  quota_set_file_attr : Str → ℕ → Request
  -- pouch's metadata stores, by driver and directory
  store_new store_shutdown : Str → Str → Request
  store_put_volume : Str → Pouch.Volume → Request
  store_put_sandbox : Str → Pouch.SandboxMeta → Request
  -- the clock and random numbers
  now new_uuid : Request

-- The newest request stands in front.
abbrev pub Trace : Type 0
Trace = List Request

-- One mount of a snapshot, by its options.
abbrev pub Mount : Type 0
Mount = List Str

-- The answer to the request in front of a trace. `marshal` is `json.Marshal`, `to_utc` the parse and
-- print of a time, `decode_` a `json.Unmarshal` into one type, `digest_of` the canonical digest of
-- a text, `dispatch` the walk of containerd's package `images`, `parse_reference` what pouch's package `reference` makes of an image's name,
-- `environ` the environment and `dial_rounds` how many dials of a
-- wait return before its 120 seconds are over and its `select` takes the end of the time.
pub record Host : Type 0 where
  pub docker_new_client : Trace → Result (Unit {0})
  pub docker_info : Trace → Result Info
  pub docker_container_list : Trace → Result (List ContainerSummary)
  pub docker_volume_list : Trace → Result (List Docker.Volume)
  pub docker_container_inspect : Trace → Result ContainerJson
  pub docker_image_inspect : Trace → Result ImageInspect
  pub docker_volume_inspect : Trace → Result Docker.Volume
  pub docker_container_stop : Trace → Result (Unit {0})
  pub docker_container_start : Trace → Result (Unit {0})
  pub ctrd_new : Trace → Result (Unit {0})
  pub ctrd_list_leases : Trace → Result (List Str)
  pub ctrd_create_lease : Trace → Result Str
  pub image_service_get : Trace → Result Str
  pub image_root_fs : Trace → Result Str
  pub ctrd_get_image : Trace → Result Str
  pub snapshot_prepare : Trace → Result (Unit {0})
  pub snapshot_stat : Trace → Result (Unit {0})
  pub snapshot_mounts : Trace → Result (List Mount)
  pub snapshot_remove : Trace → Result (Unit {0})
  pub generate_spec : Trace → Result (Unit {0})
  pub container_get : Trace → Result (Unit {0})
  pub container_delete : Trace → Result (Unit {0})
  pub container_new : Trace → Result (Unit {0})
  pub ctrd_pull : Trace → Result (Unit {0})
  pub ctrd_with_lease : Trace → Result (Unit {0})
  pub lease_done : Trace → Result (Unit {0})
  pub resolver_resolve : Trace → Result (Str × Descriptor)
  pub resolver_fetcher : Trace → Result (Unit {0})
  pub fetch : Trace → Result Str
  pub read_blob : Trace → Result Str
  pub fetch_content : Trace → Result (Unit {0})
  pub write_blob : Trace → Result (Unit {0})
  pub image_create : Trace → Result (Unit {0})
  pub image_update : Trace → Result (Unit {0})
  pub pouch_new_client : Trace → Result (Unit {0})
  pub pouch_container_remove : Trace → Result (Unit {0})
  pub pouch_container_start : Trace → Result (Unit {0})
  pub net_dial : Trace → Result (Unit {0})
  pub os_stat : Trace → Result (Unit {0})
  pub os_remove_all : Trace → Result (Unit {0})
  pub os_remove : Trace → Result (Unit {0})
  pub os_read_file : Trace → Result Str
  pub os_mkdir_all : Trace → Result (Unit {0})
  pub os_open : Trace → Result (Unit {0})
  pub os_open_file : Trace → Result (Unit {0})
  pub os_read_dir_names : Trace → Result (Unit {0})
  pub os_write : Trace → Result (Unit {0})
  pub io_copy : Trace → Result (Unit {0})
  pub exec_command : Trace → Result (Unit {0})
  pub look_path : Trace → Result Str
  pub start_process : Trace → Result ℤ
  pub kill : Trace → Result (Unit {0})
  pub walk : Trace → Result (List (Str × Option Error))
  pub quota_start_driver : Trace → Result (Unit {0})
  pub quota_set_subtree : Trace → Result ℕ
  pub quota_set_disk_quota : Trace → Result (Unit {0})
  pub quota_set_file_attr : Trace → Result (Unit {0})
  pub store_new : Trace → Result (Unit {0})
  pub store_shutdown : Trace → Result (Unit {0})
  pub store_put_volume : Trace → Result (Unit {0})
  pub store_put_sandbox : Trace → Result (Unit {0})
  pub now : Trace → Result Str
  pub new_uuid : Trace → Result Str
  pub marshal : Pouch.Container → Result Str
  pub to_utc : Str → Option Str
  pub parse_reference : Str → Result Str
  pub decode_manifest : Str → Result OciManifest
  pub decode_index : Str → Result Index
  pub decode_schema1 : Str → Result Manifest
  pub decode_v1_history : Str → Result V1History
  pub decode_image : Str → Result Str
  pub decode_signatures : Str → Result (List Str)
  pub decode_protected : Str → Result ProtectedBlock
  pub marshal_image : OciImage → Result Str
  pub marshal_manifest : OciManifest → Result Str
  pub digest_of : Str → Str
  pub make_ref_key : Descriptor → Str
  pub default_platform : Str
  pub parse_platform : Str → Result (Str → Bool)
  pub dispatch :
      (Descriptor → Converter → Trace → Result (List Descriptor) × Converter × Trace)
      → Descriptor
      → Converter
      → Trace
      → Result (Unit {0}) × Converter × Trace
  pub environ : List Str
  pub dial_rounds : Trace → ℕ
