-- ===== src/Migrator/Cold/PreMigrate/Pulls.antt =====
-- migrator/cold_migrate.go: the images that `PreMigrate` pulls.
use d2p_migrator.Prelude.{
  ℕ, ◌+◌, ◌≤◌, Bool, true, false, List, [], ◌∷◌, ◌≡◌, refl, sym, Str, arith, length, inl, inr,
}
use d2p_migrator.Prelude.Dict.{length-insert_new}
use d2p_migrator.Prelude.Result.{ok, Result-cases, is_ok}
use d2p_migrator.Docker.{ContainerSummary}
use d2p_migrator.Pouch
use d2p_migrator.Ctrd.Client.{pull_image}
use d2p_migrator.Migrator.Quiet.{is_storage}
use d2p_migrator.Migrator.Quiet.Storage.{number_of-prepare_snapshot, number_of-save_to_disk}
use d2p_migrator.Migrator.Disk.{save_to_disk}
use d2p_migrator.Migrator.Snapshot.{prepare_snapshot}
use d2p_migrator.Migrator.Cold.{ColdMigrator, do_prepare, prepare_image}
use d2p_migrator.Migrator.Cold.PreMigrate.{
  Locals, note_container, note_mapping, migrate_container, migrate_containers,
}
use d2p_migrator.World.{Host, Request, Trace, ctrd_pull}
use d2p_migrator.World.Calls.{number_of}

abbrev pub is_pull : Request → Bool
is_pull (ctrd_pull _ _ _) = true
is_pull _ = false

abbrev pub pulls : Trace → ℕ
pulls = number_of is_pull

-- A pull is no request of the storage.
not_pull : (r : Request) → is_storage r ≡ true → is_pull r ≡ false
not_pull (ctrd_pull _ _ _) h = sym h
not_pull _ h = refl

module _ (host : Host) where
  pulls-prepare_snapshot :
      (meta : Pouch.Container) (config : Pouch.ContainerConfig) (t : Trace)
      → pulls (prepare_snapshot host meta config t).1 ≡ pulls t
  pulls-prepare_snapshot = number_of-prepare_snapshot host is_pull not_pull

  pulls-save_to_disk :
      (dir : Str) (meta : Pouch.Container) (t : Trace)
      → pulls (save_to_disk host dir meta t).1 ≡ pulls t
  pulls-save_to_disk = number_of-save_to_disk host is_pull not_pull

  pulls-pull_image :
      (img snapshotter : Str) (t : Trace)
      → pulls (pull_image host img snapshotter false t).1 ≤ pulls t + 1
  unfolding pull_image number_of
  pulls-pull_image img snapshotter t = ground arith

  pulls-pull_image_ok :
      (img snapshotter : Str) (t : Trace)
      → (pull_image host img snapshotter false t).0 ≡ ok tt
      → pulls (pull_image host img snapshotter false t).1 ≡ pulls t + 1
  unfolding pull_image number_of
  pulls-pull_image_ok img snapshotter t h = ground arith

  -- The images noted and the pulls made, in one step of the preparation of a container.
  prepare_image-pulls :
      (img snapshotter : Str) (cm : ColdMigrator) (t : Trace)
      → pulls (prepare_image host img snapshotter cm t).2 + length cm.images
        ≤ pulls t + length (prepare_image host img snapshotter cm t).1.images
  unfolding prepare_image
  prepare_image-pulls img snapshotter cm t =
      ground (arith, pulls-pull_image img snapshotter t, length-insert_new img (tt {0}) cm.images)

  prepare_image-pulls_ok :
      (img snapshotter : Str) (cm : ColdMigrator) (t : Trace)
      → (prepare_image host img snapshotter cm t).0 ≡ ok tt
      → pulls (prepare_image host img snapshotter cm t).2 + length cm.images
        ≡ pulls t + length (prepare_image host img snapshotter cm t).1.images
  unfolding prepare_image
  prepare_image-pulls_ok img snapshotter cm t h =
      ground
        (arith, pulls-pull_image_ok img snapshotter t, length-insert_new img (tt {0}) cm.images)

  do_prepare-pulls :
      (meta : Pouch.Container) (cm : ColdMigrator) (t : Trace)
      → pulls (do_prepare host meta cm t).2 + length cm.images
        ≤ pulls t + length (do_prepare host meta cm t).1.images
  unfolding do_prepare
  do_prepare-pulls meta cm t = grind (arith, prepare_image-pulls, pulls-prepare_snapshot)

  do_prepare-pulls_ok :
      (meta : Pouch.Container) (cm : ColdMigrator) (t : Trace)
      → is_ok (do_prepare host meta cm t).0 ≡ true
      → pulls (do_prepare host meta cm t).2 + length cm.images
        ≡ pulls t + length (do_prepare host meta cm t).1.images
  unfolding do_prepare
  do_prepare-pulls_ok meta cm t h = grind (arith, prepare_image-pulls_ok, pulls-prepare_snapshot)

  migrate_container-pulls :
      (c : ContainerSummary) (locals : Locals) (cm : ColdMigrator) (t : Trace)
      → pulls (migrate_container host c locals cm t).2 + length cm.images
        ≤ pulls t + length (migrate_container host c locals cm t).1.images
  unfolding migrate_container note_container note_mapping number_of
  migrate_container-pulls c locals cm t = grind (arith, do_prepare-pulls, pulls-save_to_disk)

  migrate_container-pulls_ok :
      (c : ContainerSummary) (locals : Locals) (cm : ColdMigrator) (t : Trace) {locals' : Locals}
      → (migrate_container host c locals cm t).0 ≡ ok locals'
      → pulls (migrate_container host c locals cm t).2 + length cm.images
        ≡ pulls t + length (migrate_container host c locals cm t).1.images
  unfolding migrate_container note_container note_mapping number_of
  migrate_container-pulls_ok c locals cm t h =
      grind (arith, do_prepare-pulls_ok, pulls-save_to_disk)

  -- However the loop over the containers ends, it has pulled no more images than it has noted, each
  -- of which it notes once, whatever number of containers uses it.
  pub migrate_containers-pulls :
      (cs : List ContainerSummary) (locals : Locals) (cm : ColdMigrator) (t : Trace)
      → pulls (migrate_containers host cs locals cm t).2 + length cm.images
        ≤ pulls t + length (migrate_containers host cs locals cm t).1.images
  unfolding migrate_containers
  migrate_containers-pulls [] locals cm t = omega arith
  migrate_containers-pulls (c ∷ cs) locals cm t =
      let out = migrate_container host c locals cm t in
      elim (Result-cases out.0) [
        | inl (locals1, went_on) ↦ ground (
          arith,
          went_on,
          migrate_container-pulls c locals cm t,
          migrate_containers-pulls cs locals1 out.1 out.2,
        )
        | inr (inl (e, stopped)) ↦ ground (arith, stopped, migrate_container-pulls c locals cm t)
        | inr (inr stopped) ↦ ground (arith, stopped, migrate_container-pulls c locals cm t)
      ]

  -- Where it succeeds, it has pulled exactly one image for each that it has newly noted.
  pub migrate_containers-pulls_ok :
      (cs : List ContainerSummary) (locals : Locals) (cm : ColdMigrator) (t : Trace)
      → is_ok (migrate_containers host cs locals cm t).0 ≡ true
      → pulls (migrate_containers host cs locals cm t).2 + length cm.images
        ≡ pulls t + length (migrate_containers host cs locals cm t).1.images
  unfolding migrate_containers
  migrate_containers-pulls_ok [] locals cm t h = omega arith
  migrate_containers-pulls_ok (c ∷ cs) locals cm t h =
      let out = migrate_container host c locals cm t in
      elim (Result-cases out.0) [
        | inl (locals1, went_on) ↦ ground (
          arith,
          went_on,
          migrate_container-pulls_ok c locals cm t went_on,
          migrate_containers-pulls_ok cs locals1 out.1 out.2,
        )
        | inr (inl (e, stopped)) ↦ absurd (ground (arith, stopped))
        | inr (inr stopped) ↦ absurd (ground (arith, stopped))
      ]
