-- ===== src/Hookplugins.antt =====
-- hookplugins: the plugin that may change a converted container, and its registration.
use d2p_migrator.Prelude.{Option, none, some, Str}
use d2p_migrator.Pouch
use d2p_migrator.World.{Io, pure}

-- `ContainerPlugin`: its method gets docker's home and a pointer to the container, which it may
-- change.
pub record ContainerPlugin : Type 0 where
  pub post_convert : Str → Pouch.Container → Io Pouch.Container

-- `RegisterContainerPlugin`, on the package's variable.
unfoldable pub register_container_plugin :
    ContainerPlugin → Option ContainerPlugin → Option ContainerPlugin
register_container_plugin plugin registered = some plugin

-- `GetContainerPlugin`
abbrev pub get_container_plugin : Option ContainerPlugin → Option ContainerPlugin
get_container_plugin registered = registered

-- `contPlugin` of hookplugins/containerplugin, which does nothing.
abbrev pub cont_plugin : ContainerPlugin
cont_plugin = record { post_convert = λ docker_home_dir cont. pure cont }

-- The variable behind the `init` function of hookplugins/containerplugin.
unfoldable pub registered_plugin : Option ContainerPlugin
unfolding register_container_plugin
registered_plugin = register_container_plugin cont_plugin none
