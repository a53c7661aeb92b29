-- ===== src/Convertor/Container/Laws.antt =====
-- pouch/convertor/core.go: when `ToPouchContainerMeta` gives a container, and which one.
use d2p_migrator.Prelude.{
  Bool, true, false, not, ◌&&◌, ◌||◌, [], ◌∷◌, ◌≡◌, refl, sym, ap, ◌∙◌, Option, none, some, Str,
  str, trim_prefix, Option-cases, Bool-cases, inl, inr,
}
use d2p_migrator.Prelude.Result.{Result, ok, panic, is_ok, errorf}
use d2p_migrator.Docker
use d2p_migrator.Pouch
use d2p_migrator.Convertor.Config.{parse_env}
use d2p_migrator.Convertor.Container.{to_pouch_container_meta, mark_container, mark_sandbox}
use d2p_migrator.Convertor.Container.Fields.{
  Converted, to_host_config-some, to_network_settings-ok, to_container_config-some,
  to_container_config-none, parse_env-ok, to_mount_points-ok, to_host_config-none,
  log_driver-set_log_driver, joined, to_host_config-panic, to_network_settings-panic,
}
use d2p_migrator.Convertor.HostConfig.Lists.{filled}
use d2p_migrator.Convertor.Container.Labels.{lookup-mark, mark-env}

abbrev pub is_some {ℓ} : {A : Type ℓ} → Option A → Bool
is_some none = false
is_some (some _) = true

abbrev pub is_panic {ℓ} : {A : Type ℓ} → Result A → Bool
is_panic panic = true
is_panic _ = false

abbrev pub hosted : Option Docker.HostConfig → Bool
hosted none = false
hosted (some h) = filled h.resources

-- Whether the host configuration is there, and neither it nor the networks have a nil pointer that is read.
abbrev pub readable : Docker.ContainerJson → Bool
readable meta = hosted meta.host_config && joined meta.network_settings

module _ (to_utc : Str → Option Str) where
  without_state :
      (meta : Docker.ContainerJson)
      → meta.state ≡ none
      → to_pouch_container_meta to_utc meta ≡ panic
  unfolding to_pouch_container_meta
  without_state meta no_state = rw no_state refl

  without_config :
      (meta : Docker.ContainerJson) (state : Docker.ContainerState)
      → meta.state ≡ some state
      → meta.config ≡ none
      → to_pouch_container_meta to_utc meta ≡ errorf (str "got an empty ContainerConfig")
  unfolding to_pouch_container_meta
  without_config meta state has_state no_config =
      rw (has_state, no_config, to_container_config-none) refl

  without_resources :
      (meta : Docker.ContainerJson) (state : Docker.ContainerState) (config : Docker.Config)
      (h : Docker.HostConfig)
      → meta.state ≡ some state
      → meta.config ≡ some config
      → meta.host_config ≡ some h
      → filled h.resources ≡ false
      → to_pouch_container_meta to_utc meta ≡ panic
  unfolding to_pouch_container_meta
  without_resources meta state config h has_state has_config has_host missing =
      let (p, e, _) = to_container_config-some config in
      let marked = mark_container (mark_sandbox (trim_prefix meta.name (b'/' ∷ [])) p) in
      let (_, read) = parse_env-ok marked.env in
      rw (has_state, has_config, e, has_host, to_host_config-panic h missing, read) refl

  without_network :
      (meta : Docker.ContainerJson) (state : Docker.ContainerState) (config : Docker.Config)
      (h : Docker.HostConfig)
      → meta.state ≡ some state
      → meta.config ≡ some config
      → meta.host_config ≡ some h
      → filled h.resources ≡ true
      → joined meta.network_settings ≡ false
      → to_pouch_container_meta to_utc meta ≡ panic
  unfolding to_pouch_container_meta
  without_network meta state config h has_state has_config has_host all missing =
      let (p, e, _) = to_container_config-some config in
      let (_, e', _) = to_host_config-some h all in
      let marked = mark_container (mark_sandbox (trim_prefix meta.name (b'/' ∷ [])) p) in
      let (_, read) = parse_env-ok marked.env in
      let (_, mounted) = to_mount_points-ok meta.mounts in
      rw
        (
          has_state,
          has_config,
          e,
          has_host,
          e',
          read,
          mounted,
          to_network_settings-panic meta.network_settings missing,
        )
        refl

  without_host :
      (meta : Docker.ContainerJson) (state : Docker.ContainerState) (config : Docker.Config)
      → meta.state ≡ some state
      → meta.config ≡ some config
      → meta.host_config ≡ none
      → to_pouch_container_meta to_utc meta ≡ panic
  unfolding to_pouch_container_meta
  without_host meta state config has_state has_config no_host =
      let (p, e, _) = to_container_config-some config in
      let marked = mark_container (mark_sandbox (trim_prefix meta.name (b'/' ∷ [])) p) in
      let (_, read) = parse_env-ok marked.env in
      rw (has_state, has_config, e, no_host, to_host_config-none, read) refl

  -- Where docker gives a container's state, configuration and host configuration, and no pointer in the lists of
  -- its resources or in its networks is nil, the conversion
  -- gives a container, with docker's id, driver, status and process id, the name without its leading
  -- slash, the snapshotter `overlayfs` with the data of docker's graph driver, the image and quota id
  -- of the configuration, its labels but for pouch's type, its environment but for the run mode, the
  -- capabilities of docker and the required ones, the runtime `runc`, docker's network mode and
  -- devices, and the log driver `json-file` where there is a log path and no driver.
  pub to_pouch_container_meta-Converted :
      (meta : Docker.ContainerJson) (state : Docker.ContainerState) (config : Docker.Config)
      (h : Docker.HostConfig)
      → meta.state ≡ some state
      → meta.config ≡ some config
      → meta.host_config ≡ some h
      → filled h.resources ≡ true
      → joined meta.network_settings ≡ true
      → (c : Pouch.Container) × (to_pouch_container_meta to_utc meta ≡ ok c)
        × Converted to_utc meta state config h c
  unfolding to_pouch_container_meta
  to_pouch_container_meta-Converted meta state config h has_state has_config has_host all reached =
      let name = trim_prefix meta.name (b'/' ∷ []) in
      let (p, e, made) = to_container_config-some config in
      let (hc, e', host_made) = to_host_config-some h all in
      let marked = mark_container (mark_sandbox name p) in
      let (envs, read) = parse_env-ok marked.env in
      let (mounts, mounted) = to_mount_points-ok meta.mounts in
      let (networks, connected) = to_network_settings-ok meta.network_settings reached in
      let (same_env, same_quota, same_image) = mark-env name p in
      let env = same_env ∙ made.env in
      let (driver, caps, runtime, mode, resources) = log_driver-set_log_driver meta.log_path hc in
      rw (has_state, has_config, e, read, has_host, e', mounted, connected)
        (
          _,
          refl,
          record {
            id = refl;
            name = refl;
            driver = refl;
            snapshotter = refl;
            base_fs = refl;
            provided = refl;
            state = (_, refl, refl, refl, refl);
            labels = (
              _,
              refl,
              same_image ∙ made.image,
              same_quota ∙ made.quota_id,
              λ k. rw (sym made.labels) (lookup-mark name p k),
              (envs, ap parse_env (sym env) ∙ read, rw env refl),
            );
            host = (
              _,
              refl,
              caps ∙ host_made.caps,
              runtime ∙ host_made.runtime,
              mode ∙ host_made.network_mode,
              rw resources host_made.resources,
              rw host_made.log_driver at driver,
            );
          },
        )

  -- The conversion gives a container exactly if docker gives its state, its configuration and its
  -- host configuration, and no pointer in the lists of its resources or in its networks is nil. It panics exactly if the
  -- state is missing, or if the configuration is there and the host configuration is missing or one of these pointers is
  -- nil; so it returns an error exactly if the state is there and the configuration is missing. The base that docker's
  -- record embeds is taken to be there.
  pub to_pouch_container_meta-outcome :
      (meta : Docker.ContainerJson)
      → (is_ok (to_pouch_container_meta to_utc meta)
          ≡ (is_some meta.state && (is_some meta.config && readable meta)))
        × (is_panic (to_pouch_container_meta to_utc meta)
            ≡ (not (is_some meta.state) || (is_some meta.config && not (readable meta))))
  to_pouch_container_meta-outcome meta = elim (Option-cases meta.state) [
    | inl no_state ↦ rw (without_state meta no_state, no_state) (refl, refl)
    | inr (state, has_state) ↦ elim (Option-cases meta.config) [
      | inl no_config ↦
          rw (without_config meta state has_state no_config, has_state, no_config) (refl, refl)
      | inr (config, has_config) ↦ elim (Option-cases meta.host_config) [
        | inl no_host ↦
            let e = without_host meta state config has_state has_config no_host in
            rw (e, has_state, has_config, no_host) (refl, refl)
        | inr (h, has_host) ↦ elim (Bool-cases (filled h.resources)) [
          | inl all ↦ elim (Bool-cases (joined meta.network_settings)) [
            | inl reached ↦
                let (c, e, _) =
                  to_pouch_container_meta-Converted meta state config h has_state has_config
                    has_host all reached in
                rw (e, has_state, has_config, has_host, all, reached) (refl, refl)
            | inr missing ↦
                let e =
                  without_network meta state config h has_state has_config has_host all missing in
                rw (e, has_state, has_config, has_host, all, missing) (refl, refl)
          ]
          | inr missing ↦
              let e = without_resources meta state config h has_state has_config has_host missing in
              rw (e, has_state, has_config, has_host, missing) (refl, refl)
        ]
      ]
    ]
  ]
