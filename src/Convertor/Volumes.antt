-- ===== src/Convertor/Volumes.antt =====
-- pouch/convertor/volumes.go: docker's volumes become pouch's.
pub mod Kept
use d2p_migrator.Prelude.{List, [], ◌∷◌, ◌++◌, Str, ◌==◌, if◌then◌else◌, str, not}
use d2p_migrator.Utils.{string_in_slice}
use d2p_migrator.Docker
use d2p_migrator.Pouch
use d2p_migrator.World.{Host, Io, call, pure, failf, wrap_io, ◌>>=◌, now, new_uuid}

abbrev pub support_volume_drivers : List Str
support_volume_drivers = str "ultron" ∷ str "local" ∷ str "alilocal" ∷ []

module _ (host : Host) where
  -- `ToVolume`. One reading of the clock serves both timestamps.
  unfoldable pub to_volume : Docker.Volume → Io Pouch.Volume
  to_volume vol = do
    time ← call now host.now
    uuid ← call new_uuid host.new_uuid
    pure (record {
      name = vol.name;
      claimer = str "pouch";
      namespace = str "pouch";
      uid = uuid;
      labels = vol.labels;
      creation_timestamp = time;
      modify_timestamp = time;
      backend = vol.driver;
      extra = (str "mount", vol.mountpoint) ∷ [];
      size = [];
      mount_point = vol.mountpoint;
    })

  -- The loop, with the volumes converted so far.
  unfoldable pub volumes_loop : List Docker.Volume → List Pouch.Volume → Io (List Pouch.Volume)
  volumes_loop [] out = pure out
  volumes_loop (vol ∷ vols) out =
      let skip = volumes_loop vols out in
      let convert : Io (List Pouch.Volume) = (do
        new_vol ← wrap_io (str "failed to convert volume " ++ vol.name ++ str ": ") (to_volume vol)
        volumes_loop vols (out ++ new_vol ∷ [])) in
      if not (string_in_slice support_volume_drivers vol.driver)
      then failf (str "not support volume driver " ++ vol.driver)
      else if vol.driver == str "ultron"
      then skip
      else convert

  -- `ToVolumes`
  unfoldable pub to_volumes : List Docker.Volume → Io (List Pouch.Volume)
  to_volumes volumes = volumes_loop volumes []
