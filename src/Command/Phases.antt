-- ===== src/Command/Phases.antt =====
-- main.go: which phases `runCmd` runs, in which order.
use d2p_migrator.Prelude.{List, [], ◌∷◌, ◌≡◌, refl, arith, if◌then◌else◌, Bool-cases, inl, inr}
use d2p_migrator.Prelude.Result.{Result, ok, err, panic}
use d2p_migrator.Command.{Flags, run_migrator, after_pre_migrate, after_migrate}
use d2p_migrator.Migrator.D2p.{D2pMigrator, pre_migrate, migrate, post_migrate, revert_migration}
use d2p_migrator.Migrator.D2p.Images.{prepare_images}
use d2p_migrator.World.{Host, Trace}

pub data Phase : Type 0 where
  images : Phase
  pre : Phase
  main : Phase
  post : Phase
  revert : Phase

-- What follows a migration, by how it ended.
abbrev pub behind_main : Result (Unit {0}) → List Phase
behind_main (ok _) = post ∷ []
behind_main (err _) = revert ∷ []
behind_main panic = []

-- The phases that follow the preparation.
abbrev pub behind_pre : Flags → Result (Unit {0}) → Result (Unit {0}) → List Phase
behind_pre flags (ok _) migrated = if flags.migrate_all then main ∷ behind_main migrated else []
behind_pre flags (err _) migrated = []
behind_pre flags panic migrated = []

-- The phases of a run, by the flags, the outcome of the preparation and that of the migration.
abbrev pub plan : Flags → Result (Unit {0}) → Result (Unit {0}) → List Phase
plan flags prepared migrated =
    if flags.prepare_image then images ∷ [] else pre ∷ behind_pre flags prepared migrated

-- The error that a run ends with, if it does: that of the first phase that fails.
abbrev pub verdict : Result (Unit {0}) → Result (Unit {0}) → Result (Unit {0})
verdict (ok _) next = next
verdict (err e) next = err e
verdict panic next = panic

-- How a run ends by the outcome of the migration, of its reversal and of the last phase.
abbrev pub ended : Result (Unit {0}) → Result (Unit {0}) → Result (Unit {0}) → Result (Unit {0})
ended (ok _) reverted last = last
ended (err e) (ok _) last = err e
ended (err e) (err _) last = err e
ended (err e) panic last = panic
ended panic reverted last = panic

module _ (host : Host) (flags : Flags) where
  -- One phase, with the state and the trace behind it.
  abbrev pub phase : Phase → D2pMigrator × Trace → D2pMigrator × Trace
  phase images (d, t) = (d, (prepare_images host flags.image_manifest_only t).1)
  phase pre (d, t) = let (_, d', t') = pre_migrate host d t in (d', t')
  phase main (d, t) = (d, (migrate host d t).1)
  phase post (d, t) = let (_, d', t') = post_migrate host d t in (d', t')
  phase revert (d, t) = (d, (revert_migration host d t).1)

  abbrev pub perform : List Phase → D2pMigrator × Trace → D2pMigrator × Trace
  perform [] s = s
  perform (x ∷ xs) s = perform xs (phase x s)

  abbrev pub prepared : D2pMigrator → Trace → Result (Unit {0}) × D2pMigrator × Trace
  prepared d t = pre_migrate host d t

  abbrev pub migrated : D2pMigrator → Trace → Result (Unit {0}) × Trace
  migrated d t = let (_, d', t') = prepared d t in migrate host d' t'

  after_migrate-plan :
      (d : D2pMigrator) (out : Result (Unit {0}) × Trace)
      → (after_migrate host d out).1 ≡ (perform (behind_main out.0) (d, out.1)).1
  unfolding after_migrate
  after_migrate-plan d (ok _, t) = refl
  after_migrate-plan d (err e, t) = ground arith
  after_migrate-plan d (panic, t) = refl

  after_pre_migrate-plan :
      (out : Result (Unit {0}) × D2pMigrator × Trace)
      → (after_pre_migrate host flags out).1
        ≡ (perform (behind_pre flags out.0 (migrate host out.1 out.2).0) (out.1, out.2)).1
  unfolding after_pre_migrate
  after_pre_migrate-plan (ok _, d, t) = elim (Bool-cases flags.migrate_all) [
    | inl everything ↦ rw everything (after_migrate-plan d (migrate host d t))
    | inr only_prepare ↦ rw only_prepare refl
  ]
  after_pre_migrate-plan (err e, d, t) = refl
  after_pre_migrate-plan (panic, d, t) = refl

  after_migrate-ended :
      (d : D2pMigrator) (out : Result (Unit {0}) × Trace)
      → (after_migrate host d out).0
        ≡ ended out.0 (revert_migration host d out.1).0 (post_migrate host d out.1).0
  unfolding after_migrate
  after_migrate-ended d (ok _, t) = refl
  after_migrate-ended d (err e, t) = ground arith
  after_migrate-ended d (panic, t) = refl

  after_pre_migrate-verdict :
      (out : Result (Unit {0}) × D2pMigrator × Trace)
      → (after_pre_migrate host flags out).0
        ≡ verdict out.0 (
            if flags.migrate_all
            then ended
                (migrate host out.1 out.2).0
                (revert_migration host out.1 (migrate host out.1 out.2).1).0
                (post_migrate host out.1 (migrate host out.1 out.2).1).0
            else ok tt)
  unfolding after_pre_migrate
  after_pre_migrate-verdict (ok _, d, t) = elim (Bool-cases flags.migrate_all) [
    | inl everything ↦ rw everything (after_migrate-ended d (migrate host d t))
    | inr only_prepare ↦ rw only_prepare refl
  ]
  after_pre_migrate-verdict (err e, d, t) = refl
  after_pre_migrate-verdict (panic, d, t) = refl

  -- A run asks for exactly what its phases ask for, one behind the other: only the images, or the
  -- preparation, behind that the migration, if everything is to be migrated and the preparation has
  -- not failed, and behind that the last phase if the migration succeeded, or the reversal if it
  -- returned an error.
  pub run_migrator-plan :
      (d : D2pMigrator) (t : Trace)
      → (run_migrator host flags d t).1
        ≡ (perform (plan flags (prepared d t).0 (migrated d t).0) (d, t)).1
  unfolding run_migrator
  run_migrator-plan d t = elim (Bool-cases flags.prepare_image) [
    | inl only_images ↦ rw only_images refl
    | inr all ↦ rw all (after_pre_migrate-plan (pre_migrate host d t))
  ]

  -- The result of a run is that of the images, or of the first phase that fails; a run that is not to
  -- migrate everything ends well behind its preparation. Behind a migration that returned an error
  -- the result is this error, also if the reversal returns one, unless the reversal panics.
  pub run_migrator-verdict :
      (d : D2pMigrator) (t : Trace)
      → (run_migrator host flags d t).0 ≡ (
          if flags.prepare_image
          then (prepare_images host flags.image_manifest_only t).0
          else verdict (prepared d t).0 (
              if flags.migrate_all
              then ended
                  (migrated d t).0
                  (revert_migration host (prepared d t).1 (migrated d t).1).0
                  (post_migrate host (prepared d t).1 (migrated d t).1).0
              else ok tt))
  unfolding run_migrator
  run_migrator-verdict d t = elim (Bool-cases flags.prepare_image) [
    | inl only_images ↦ rw only_images refl
    | inr all ↦ rw all (after_pre_migrate-verdict (pre_migrate host d t))
  ]
