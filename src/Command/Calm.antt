-- ===== src/Command/Calm.antt =====
-- main.go: a run that only prepares.
use d2p_migrator.Prelude.{false, ◌≡◌, refl, arith, inl, inr, Bool-cases}
use d2p_migrator.Prelude.Result.{Result-cases}
use d2p_migrator.Hookplugins.{registered_plugin}
use d2p_migrator.Ctrd.Manifest.Quiet.{Walks}
use d2p_migrator.Command.{Flags, migrator_config, run_migrator, after_pre_migrate, run_cmd}
use d2p_migrator.Migrator.D2p.{D2pMigrator, new_d2p_migrator, pre_migrate, cleanup_migrator}
use d2p_migrator.Migrator.D2p.Quiet.{
  MigratorQuiet, outages-new_d2p_migrator, new_d2p_migrator-MigratorQuiet, outages-pre_migrate,
}
use d2p_migrator.Migrator.D2p.Images.Quiet.{outages-prepare_images}
use d2p_migrator.Migrator.Live.Quiet.{PluginQuiet}
use d2p_migrator.Migrator.Quiet.Outage.{is_outage}
use d2p_migrator.World.{Host, Trace}
use d2p_migrator.World.Calls.{number_of}

plugin-quiet : PluginQuiet is_outage registered_plugin
unfolding registered_plugin
plugin-quiet home meta t = refl

module _ (host : Host) (walks : Walks host is_outage) (flags : Flags)
    (prepares : flags.migrate_all ≡ false) where
  outages-run_migrator :
      (d : D2pMigrator) (t : Trace)
      → MigratorQuiet d.migrator
      → number_of is_outage (run_migrator host flags d t).1 ≡ number_of is_outage t
  unfolding run_migrator after_pre_migrate
  outages-run_migrator d t h = elim (Bool-cases flags.prepare_image) [
    | inl pulls ↦ rw pulls (outages-prepare_images host walks flags.image_manifest_only t)
    | inr all ↦ elim (Result-cases (pre_migrate host d t).0) [
      | inl (_, e) ↦ ground (arith, all, prepares, e, outages-pre_migrate host d t h)
      | inr (inl (_, e)) ↦ ground (arith, all, prepares, e, outages-pre_migrate host d t h)
      | inr (inr e) ↦ ground (arith, all, prepares, e, outages-pre_migrate host d t h)
    ]
  ]

  outages-cleanup_migrator : (d : D2pMigrator) (t : Trace) → (cleanup_migrator host d t).1 ≡ t
  unfolding cleanup_migrator
  outages-cleanup_migrator d t = grind arith

  -- A run without `migrate-all`, for a cold or a live migration or for its images alone, however it ends, stops and starts
  -- no container of docker, removes and starts none of pouch, and passes no command to `ExecCommand` but the `sed`
  -- that edits pouch's configuration. It does start a containerd of its own, may delete and make containers there, and may
  -- set disk quotas, which are not counted. The walk over an image is assumed to ask for nothing that is counted by itself.
  pub run_cmd-calm :
      (t : Trace) → number_of is_outage (run_cmd host flags t).1 ≡ number_of is_outage t
  unfolding run_cmd
  run_cmd-calm t = elim (Bool-cases flags.print_version) [
    | inl prints ↦ rw prints refl
    | inr runs ↦
        elim (Result-cases (new_d2p_migrator host registered_plugin (migrator_config flags) t).0) [
          | inl (d, e) ↦
              let made =
                outages-new_d2p_migrator host registered_plugin (migrator_config flags) t in
              let (_, t') = new_d2p_migrator host registered_plugin (migrator_config flags) t in
              let h =
                new_d2p_migrator-MigratorQuiet host registered_plugin (migrator_config flags) t d
                  plugin-quiet e in
              ground (
                arith,
                runs,
                e,
                made,
                outages-run_migrator d t' h,
                outages-cleanup_migrator d (run_migrator host flags d t').1,
              )
          | inr (inl (_, e)) ↦ ground (
            arith,
            runs,
            e,
            outages-new_d2p_migrator host registered_plugin (migrator_config flags) t,
          )
          | inr (inr e) ↦ ground (
            arith,
            runs,
            e,
            outages-new_d2p_migrator host registered_plugin (migrator_config flags) t,
          )
        ]
  ]
