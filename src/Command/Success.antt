-- ===== src/Command/Success.antt =====
-- main.go: when the command succeeds.
use d2p_migrator.Prelude.{
  Bool, false, not, ◌&&◌, ◌||◌, ◌≡◌, refl, ◌∙◌, arith, eqb, if◌then◌else◌, Bool-cases, inl, inr,
}
use d2p_migrator.Prelude.Result.{Result, ok, err, panic, is_ok, Result-cases}
use d2p_migrator.Hookplugins.{registered_plugin}
use d2p_migrator.Command.{
  Flags, migrator_config, after_migrate, after_pre_migrate, revert, run_migrator, run_cmd,
  exit_code, main,
}
use d2p_migrator.Migrator.D2p.{D2pMigrator, new_d2p_migrator, pre_migrate, migrate, post_migrate}
use d2p_migrator.Migrator.D2p.Images.{prepare_images}
use d2p_migrator.World.{Host, Trace}

module _ (host : Host) (flags : Flags) where
  -- Whether the last two phases succeed.
  abbrev pub migrates : D2pMigrator → Trace → Bool
  migrates d t = is_ok (migrate host d t).0 && is_ok (post_migrate host d (migrate host d t).1).0

  -- Whether all the phases succeed that the flags ask for.
  abbrev pub succeeds : D2pMigrator → Trace → Bool
  succeeds d t =
      if flags.prepare_image
      then is_ok (prepare_images host flags.image_manifest_only t).0
      else is_ok (pre_migrate host d t).0
        && (not flags.migrate_all || migrates (pre_migrate host d t).1 (pre_migrate host d t).2)

  abbrev pub started : Result D2pMigrator → Trace → Bool
  started (ok d) t = succeeds d t
  started (err _) t = false
  started panic t = false

  after_migrate-migrates :
      (d : D2pMigrator) (out : Result (Unit {0}) × Trace)
      → is_ok (after_migrate host d out).0 ≡ (is_ok out.0 && is_ok (post_migrate host d out.1).0)
  unfolding after_migrate revert
  after_migrate-migrates d (ok _, t) = refl
  after_migrate-migrates d (err e, t) = ground arith
  after_migrate-migrates d (panic, t) = refl

  after_pre_migrate-succeeds :
      (out : Result (Unit {0}) × D2pMigrator × Trace)
      → is_ok (after_pre_migrate host flags out).0
        ≡ (is_ok out.0 && (not flags.migrate_all || migrates out.1 out.2))
  unfolding after_pre_migrate
  after_pre_migrate-succeeds (ok _, d, t) =
      ground (arith, after_migrate-migrates d (migrate host d t))
  after_pre_migrate-succeeds (err e, d, t) = refl
  after_pre_migrate-succeeds (panic, d, t) = refl

  run_migrator-succeeds :
      (d : D2pMigrator) (t : Trace) → is_ok (run_migrator host flags d t).0 ≡ succeeds d t
  unfolding run_migrator
  run_migrator-succeeds d t = ground (arith, after_pre_migrate-succeeds (pre_migrate host d t))

  run_cmd-started :
      (t : Trace)
      → is_ok (run_cmd host flags t).0 ≡ (
          flags.print_version
          || started
              (new_d2p_migrator host registered_plugin (migrator_config flags) t).0
              (new_d2p_migrator host registered_plugin (migrator_config flags) t).1)
  unfolding run_cmd
  run_cmd-started t = elim (Bool-cases flags.print_version) [
    | inl prints ↦ rw prints refl
    | inr runs ↦
        elim (Result-cases (new_d2p_migrator host registered_plugin (migrator_config flags) t).0) [
          | inl (d, e) ↦
              let (_, t') = new_d2p_migrator host registered_plugin (migrator_config flags) t in
              ground (arith, runs, e, run_migrator-succeeds d t')
          | inr (inl (_, e)) ↦ ground (arith, runs, e)
          | inr (inr e) ↦ ground (arith, runs, e)
        ]
  ]

  exit_code-is_ok : (r : Result (Unit {0})) → eqb (exit_code host r) 0 ≡ is_ok r
  unfolding exit_code
  exit_code-is_ok (ok _) = refl
  exit_code-is_ok (err _) = refl
  exit_code-is_ok panic = refl

  -- A process that docker's `reexec` has not started, and whose flags can be parsed, exits with 0 exactly if it only prints its version, or if a migrator can be made and every phase that the
  -- flags ask for succeeds: the images alone, or the preparation, and with `migrate-all` also the migration and the
  -- last phase. In particular a failed migration is a failed command, also if its reversal succeeds.
  pub main-success :
      (t : Trace)
      → eqb (main host false flags t).0 0 ≡ (
          flags.print_version
          || started
              (new_d2p_migrator host registered_plugin (migrator_config flags) t).0
              (new_d2p_migrator host registered_plugin (migrator_config flags) t).1)
  unfolding main
  main-success t = exit_code-is_ok (run_cmd host flags t).0 ∙ run_cmd-started t
