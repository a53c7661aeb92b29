-- ===== src/Tests/Everything.antt =====
-- A name for the definitions that a run on concrete input computes with.
unfoldable pub everything : Unit {0}
unfolding d2p_migrator.Command.main d2p_migrator.Command.migrator_config
    d2p_migrator.Command.run_cmd d2p_migrator.Command.run_migrator d2p_migrator.Command.set_registry
    d2p_migrator.Convertor.Config.labels_or_empty d2p_migrator.Convertor.Config.parse_env
    d2p_migrator.Convertor.Config.to_container_config
    d2p_migrator.Convertor.Config.to_container_status d2p_migrator.Convertor.Container.add_ld_bind
    d2p_migrator.Convertor.Container.convert_time d2p_migrator.Convertor.Container.mark_container
    d2p_migrator.Convertor.Container.mark_sandbox d2p_migrator.Convertor.Container.replace_first
    d2p_migrator.Convertor.Container.set_log_driver d2p_migrator.Convertor.Container.set_run_mode
    d2p_migrator.Convertor.Container.to_pouch_container_meta
    d2p_migrator.Convertor.Container.to_pouch_container_meta_ptr
    d2p_migrator.Convertor.HostConfig.add_caps d2p_migrator.Convertor.HostConfig.to_devices
    d2p_migrator.Convertor.HostConfig.to_host_config d2p_migrator.Convertor.HostConfig.to_resources
    d2p_migrator.Convertor.HostConfig.to_throttle_devices
    d2p_migrator.Convertor.HostConfig.to_ulimits d2p_migrator.Convertor.HostConfig.to_weight_device
    d2p_migrator.Convertor.Network.endpoint_loop d2p_migrator.Convertor.Network.to_endpoint
    d2p_migrator.Convertor.Network.to_endpoint_settings
    d2p_migrator.Convertor.Network.to_mount_points
    d2p_migrator.Convertor.Network.to_network_settings d2p_migrator.Convertor.Network.to_port_map
    d2p_migrator.Convertor.Sandbox.annotations_or_empty
    d2p_migrator.Convertor.Sandbox.parse_resolv_conf d2p_migrator.Convertor.Sandbox.split_labels
    d2p_migrator.Convertor.Sandbox.to_cri_meta_json d2p_migrator.Convertor.Sandbox.to_dns_config
    d2p_migrator.Convertor.Sandbox.to_linux_pod_sandbox_config
    d2p_migrator.Convertor.Sandbox.to_linux_sandbox_security_context
    d2p_migrator.Convertor.Sandbox.to_pod_sandbox_config
    d2p_migrator.Convertor.SandboxName.get_pod_sandbox_metadata_by_sandbox_name
    d2p_migrator.Convertor.SandboxName.match_groups
    d2p_migrator.Convertor.SandboxName.sandbox_name_match d2p_migrator.Convertor.Volumes.to_volume
    d2p_migrator.Convertor.Volumes.to_volumes d2p_migrator.Convertor.Volumes.volumes_loop
    d2p_migrator.Ctrd.Client.create_snapshot d2p_migrator.Ctrd.Client.new_container
    d2p_migrator.Ctrd.Client.new_ctrd_client d2p_migrator.Ctrd.Client.pull_image
    d2p_migrator.Ctrd.Converter.Convert.Image.converted_image
    d2p_migrator.Ctrd.Converter.Convert.Image.histories
    d2p_migrator.Ctrd.Converter.Convert.Image.marshalled d2p_migrator.Ctrd.Converter.Convert.convert
    d2p_migrator.Ctrd.Converter.Convert.write_blobs
    d2p_migrator.Ctrd.Converter.Handle.fetch_manifest d2p_migrator.Ctrd.Converter.Handle.handle
    d2p_migrator.Ctrd.Converter.Handle.note_blob d2p_migrator.Ctrd.Converter.Handle.note_blobs
    d2p_migrator.Ctrd.Converter.Handle.note_manifest d2p_migrator.Ctrd.Converter.converted
    d2p_migrator.Ctrd.Converter.empty_layers d2p_migrator.Ctrd.Converter.gc_labels
    d2p_migrator.Ctrd.Converter.history_loop d2p_migrator.Ctrd.Converter.is_empty_history
    d2p_migrator.Ctrd.Converter.is_empty_layer d2p_migrator.Ctrd.Converter.layer_labels
    d2p_migrator.Ctrd.Converter.limited d2p_migrator.Ctrd.Converter.schema1_manifest_history
    d2p_migrator.Ctrd.Converter.state_of d2p_migrator.Ctrd.Jose.decode_blocks
    d2p_migrator.Ctrd.Jose.decode_string d2p_migrator.Ctrd.Jose.jose_base64_url_decode
    d2p_migrator.Ctrd.Jose.padded d2p_migrator.Ctrd.Jose.slice_to
    d2p_migrator.Ctrd.Jose.strip_signature d2p_migrator.Ctrd.Jose.value_of
    d2p_migrator.Ctrd.Manifest.apply_opts d2p_migrator.Ctrd.Manifest.children
    d2p_migrator.Ctrd.Manifest.fetch_handler d2p_migrator.Ctrd.Manifest.pull_content
    d2p_migrator.Ctrd.Manifest.pull_leased d2p_migrator.Ctrd.Manifest.pull_manifest
    d2p_migrator.Ctrd.Manifest.store_image d2p_migrator.Ctrd.Process.cleanup
    d2p_migrator.Ctrd.Process.containerd_args d2p_migrator.Ctrd.Process.start_containerd
    d2p_migrator.Ctrd.Proxy.Environment.first_value d2p_migrator.Ctrd.Proxy.Environment.get_env_once
    d2p_migrator.Ctrd.Proxy.Environment.getenv d2p_migrator.Ctrd.Proxy.HostPort.canonical_addr
    d2p_migrator.Ctrd.Proxy.HostPort.cut_port d2p_migrator.Ctrd.Proxy.HostPort.has_port
    d2p_migrator.Ctrd.Proxy.HostPort.join_host_port d2p_migrator.Ctrd.Proxy.HostPort.split_host_port
    d2p_migrator.Ctrd.Proxy.choose d2p_migrator.Ctrd.Proxy.entries_loop
    d2p_migrator.Ctrd.Proxy.exempts d2p_migrator.Ctrd.Proxy.proxy_from_environment
    d2p_migrator.Ctrd.Proxy.proxy_url d2p_migrator.Ctrd.Proxy.resolver
    d2p_migrator.Ctrd.Proxy.set_credential d2p_migrator.Ctrd.Proxy.set_image_proxy
    d2p_migrator.Ctrd.Proxy.use_proxy d2p_migrator.Ctrd.Proxy.use_proxy_list
    d2p_migrator.Ctrd.Reference.add_default_registry_if_missing
    d2p_migrator.Ctrd.Reference.contains_char d2p_migrator.Ctrd.Reference.cut
    d2p_migrator.Docker.Service.stop_docker_service d2p_migrator.Docker.Service.stop_rounds
    d2p_migrator.Docker.Service.uninstall_docker_service
    d2p_migrator.Hookplugins.register_container_plugin d2p_migrator.Hookplugins.registered_plugin
    d2p_migrator.Migrator.Cold.Migrate.migrate d2p_migrator.Migrator.Cold.Migrate.move_all
    d2p_migrator.Migrator.Cold.Migrate.move_back d2p_migrator.Migrator.Cold.Migrate.revert_migration
    d2p_migrator.Migrator.Cold.Migrate.start_all d2p_migrator.Migrator.Cold.Migrate.stop_all
    d2p_migrator.Migrator.Cold.PostMigrate.post_migrate
    d2p_migrator.Migrator.Cold.PostMigrate.start_running
    d2p_migrator.Migrator.Cold.PreMigrate.migrate_container
    d2p_migrator.Migrator.Cold.PreMigrate.migrate_containers
    d2p_migrator.Migrator.Cold.PreMigrate.note_container
    d2p_migrator.Migrator.Cold.PreMigrate.note_mapping
    d2p_migrator.Migrator.Cold.PreMigrate.pre_migrate
    d2p_migrator.Migrator.Cold.PreMigrate.pre_migrate_containers
    d2p_migrator.Migrator.Cold.PreMigrate.pre_migrate_list d2p_migrator.Migrator.Cold.do_prepare
    d2p_migrator.Migrator.Cold.prepare_image d2p_migrator.Migrator.D2p.Images.image_name
    d2p_migrator.Migrator.D2p.Images.prepare_images d2p_migrator.Migrator.D2p.cleanup_migrator
    d2p_migrator.Migrator.D2p.init_pouch_env d2p_migrator.Migrator.D2p.load_plugin
    d2p_migrator.Migrator.D2p.migrate d2p_migrator.Migrator.D2p.migrator_factory
    d2p_migrator.Migrator.D2p.new_d2p_migrator d2p_migrator.Migrator.D2p.post_migrate
    d2p_migrator.Migrator.D2p.pre_migrate d2p_migrator.Migrator.D2p.register
    d2p_migrator.Migrator.D2p.revert_migration d2p_migrator.Migrator.D2p.with_defaults
    d2p_migrator.Migrator.Disk.ensure_dir d2p_migrator.Migrator.Disk.get_pouch_home_dir
    d2p_migrator.Migrator.Disk.migrate_network_file
    d2p_migrator.Migrator.Disk.prepare_config_for_pouch d2p_migrator.Migrator.Disk.save_to_disk
    d2p_migrator.Migrator.Disk.validate_docker d2p_migrator.Migrator.Live.is_running
    d2p_migrator.Migrator.Live.migrate d2p_migrator.Migrator.Live.migrate_container
    d2p_migrator.Migrator.Live.migrate_containers d2p_migrator.Migrator.Live.post_migrate
    d2p_migrator.Migrator.Live.pre_migrate d2p_migrator.Migrator.Live.prepare_ctrd_containers
    d2p_migrator.Migrator.Quota.quota_walk d2p_migrator.Migrator.Quota.set_dir_disk_quota
    d2p_migrator.Migrator.Quota.set_quota d2p_migrator.Migrator.Quota.set_quota_id
    d2p_migrator.Migrator.Removal.deleted_of d2p_migrator.Migrator.Removal.mark_existing
    d2p_migrator.Migrator.Removal.remove_all d2p_migrator.Migrator.Removal.replace_docker
    d2p_migrator.Migrator.Sandboxes.create_sandboxes
    d2p_migrator.Migrator.Sandboxes.generate_sandbox_meta_json
    d2p_migrator.Migrator.Sandboxes.new_cri_store
    d2p_migrator.Migrator.Sandboxes.setup_sandbox_files
    d2p_migrator.Migrator.Snapshot.dirs_of_mounts d2p_migrator.Migrator.Snapshot.finish_snapshot
    d2p_migrator.Migrator.Snapshot.get_overlay_fs_dir d2p_migrator.Migrator.Snapshot.overlay_dirs
    d2p_migrator.Migrator.Snapshot.prepare_snapshot d2p_migrator.Migrator.Snapshot.remove_found
    d2p_migrator.Migrator.Volumes.container_volume_refs_count
    d2p_migrator.Migrator.Volumes.create_volumes d2p_migrator.Migrator.Volumes.first_size
    d2p_migrator.Migrator.Volumes.get_volume_size d2p_migrator.Migrator.Volumes.new_volume_store
    d2p_migrator.Migrator.Volumes.prepare_volumes d2p_migrator.Migrator.Volumes.update_volumes
    d2p_migrator.Pouch.Service.change_home_dir d2p_migrator.Pouch.Service.install_pouch_service
    d2p_migrator.Pouch.Service.wait_pouch_alive d2p_migrator.Pouch.Service.wait_rounds
    d2p_migrator.Prelude.Dict.get_str d2p_migrator.Prelude.Dict.has d2p_migrator.Prelude.Dict.insert
    d2p_migrator.Prelude.Dict.lookup d2p_migrator.Prelude.FilePath.clean
    d2p_migrator.Prelude.FilePath.path_join d2p_migrator.Prelude.Int.print_int
    d2p_migrator.Prelude.Int.print_nat d2p_migrator.Prelude.Numbers.atoi
    d2p_migrator.Prelude.Numbers.is_digit d2p_migrator.Prelude.Numbers.parse_digits
    d2p_migrator.Prelude.Numbers.parse_uint32 d2p_migrator.Prelude.Result.is_class
    d2p_migrator.Prelude.Result.quoted d2p_migrator.Prelude.Strings.index_byte
    d2p_migrator.Prelude.Strings.last_index d2p_migrator.Prelude.contains
    d2p_migrator.Prelude.dec_str d2p_migrator.Prelude.has_prefix d2p_migrator.Prelude.has_suffix
    d2p_migrator.Prelude.is_space d2p_migrator.Prelude.join d2p_migrator.Prelude.split
    d2p_migrator.Prelude.str d2p_migrator.Prelude.strip_prefix d2p_migrator.Prelude.trim_left
    d2p_migrator.Prelude.trim_prefix d2p_migrator.Prelude.trim_space
    d2p_migrator.Prelude.trim_suffix d2p_migrator.Utils.Files.copy_file
    d2p_migrator.Utils.Files.is_dir_empty d2p_migrator.Utils.Files.move_dir
    d2p_migrator.Utils.contains d2p_migrator.Utils.count_down d2p_migrator.Utils.count_up
    d2p_migrator.Utils.if_then_else d2p_migrator.Utils.remove_duplicate_element
    d2p_migrator.Utils.slice_trim_space d2p_migrator.Utils.string_in_slice
    d2p_migrator.Utils.string_slice_equal d2p_migrator.Utils.type_of
    d2p_migrator.World.Calls.number_of d2p_migrator.World.Calls.onto
everything = tt
