-- ===== src/Docker/Client.antt =====
-- docker/docker.go: the client of docker's daemon. Every call is passed on.
use d2p_migrator.Prelude.{ℕ, List, Str}
use d2p_migrator.Docker.Types.{ContainerSummary, ContainerJson, ImageInspect, Info, Volume}
use d2p_migrator.World.{
  Host, Io, call, docker_new_client, docker_info, docker_container_list, docker_volume_list,
  docker_container_inspect, docker_image_inspect, docker_volume_inspect, docker_container_stop,
  docker_container_start,
}

module _ (host : Host) where
  abbrev pub new_dockerd : Io (Unit {0})
  new_dockerd = call docker_new_client host.docker_new_client

  -- `ContainerList`, of all containers.
  abbrev pub container_list : Io (List ContainerSummary)
  container_list = call docker_container_list host.docker_container_list

  abbrev pub container_inspect : Str → Io ContainerJson
  container_inspect id = call (docker_container_inspect id) host.docker_container_inspect

  abbrev pub image_inspect : Str → Io ImageInspect
  image_inspect id = call (docker_image_inspect id) host.docker_image_inspect

  abbrev pub info : Io Info
  info = call docker_info host.docker_info

  abbrev pub volume_list : Io (List Volume)
  volume_list = call docker_volume_list host.docker_volume_list

  abbrev pub volume_inspect : Str → Io Volume
  volume_inspect id = call (docker_volume_inspect id) host.docker_volume_inspect

  -- The timeout is in seconds.
  abbrev pub container_stop : Str → ℕ → Io (Unit {0})
  container_stop id timeout = call (docker_container_stop id timeout) host.docker_container_stop

  abbrev pub container_start : Str → Io (Unit {0})
  container_start id = call (docker_container_start id) host.docker_container_start
