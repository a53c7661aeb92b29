-- ===== src/Migrator/Quiet/Storage.antt =====
-- migrator/cold_migrate.go and migrator/migrator_utils.go: snapshots, quotas and files.
use d2p_migrator.Prelude.{
  ℕ, zero, suc, Bool, true, false, List, [], ◌∷◌, ◌≡◌, refl, Option, none, some, Str, arith,
}
use d2p_migrator.Prelude.Int.{ℤ, pos, negsuc}
use d2p_migrator.Prelude.Result.{Error, Result}
use d2p_migrator.Pouch
use d2p_migrator.Ctrd.Client.{create_snapshot}
use d2p_migrator.Migrator.Disk.{save_to_disk, ensure_dir}
use d2p_migrator.Migrator.Quota.{quota_walk, set_quota, set_quota_id, set_dir_disk_quota}
use d2p_migrator.Migrator.Quiet.{is_storage}
use d2p_migrator.Migrator.Snapshot.{
  get_overlay_fs_dir, dirs_of_mounts, remove_found, finish_snapshot, prepare_snapshot,
}
use d2p_migrator.World.{Host, Request, Trace, Attempt, done, failed, quota_set_file_attr}
use d2p_migrator.World.Calls.{number_of}

module _ (host : Host) (p : Request → Bool)
    (quiet : (r : Request) → is_storage r ≡ true → p r ≡ false) where
  number_of-quota_walk :
      (qid : ℕ) (files : List (Str × Option Error)) (t : Trace)
      → number_of p (quota_walk host qid files t).1 ≡ number_of p t
  unfolding quota_walk number_of
  number_of-quota_walk qid [] t = refl
  number_of-quota_walk qid ((path, some e) ∷ files) t = refl
  number_of-quota_walk qid ((path, none) ∷ files) t =
      grind (arith, quiet, number_of-quota_walk qid files (quota_set_file_attr path qid ∷ t))

  number_of-set_quota :
      (size : Str) (qid : ℕ) (dir : Str) (t : Trace)
      → number_of p (set_quota host size qid dir t).1 ≡ number_of p t
  unfolding set_quota number_of
  number_of-set_quota size qid dir t = grind (arith, quiet, number_of-quota_walk)

  number_of-set_quota_id :
      (size : Str) (id : ℤ) (dir : Str) (t : Trace)
      → number_of p (set_quota_id host size id dir t).1 ≡ number_of p t
  unfolding set_quota_id
  number_of-set_quota_id size (negsuc n) dir t = refl
  number_of-set_quota_id size (pos zero) dir t = refl
  number_of-set_quota_id size (pos (suc n)) dir t = grind (arith, number_of-set_quota)

  number_of-set_dir_disk_quota :
      (size id dir : Str) (t : Trace)
      → number_of p (set_dir_disk_quota host size id dir t).1 ≡ number_of p t
  unfolding set_dir_disk_quota
  number_of-set_dir_disk_quota size id dir t = grind (arith, number_of-set_quota_id)

  -- A directory is made by a step that is quiet itself.
  pub number_of-ensure_dir :
      (dir text : Str) (make : Trace → Result (Unit {0}) × Trace) (t : Trace)
      → ((u : Trace) → number_of p (make u).1 ≡ number_of p u)
      → number_of p (ensure_dir host dir text make t).1 ≡ number_of p t
  unfolding ensure_dir number_of
  number_of-ensure_dir dir text make t h = grind (arith, quiet, h)

  pub number_of-save_to_disk :
      (dir : Str) (meta : Pouch.Container) (t : Trace)
      → number_of p (save_to_disk host dir meta t).1 ≡ number_of p t
  unfolding save_to_disk ensure_dir number_of
  number_of-save_to_disk dir meta t = grind (arith, quiet)

  number_of-create_snapshot :
      (id ref : Str) (t : Trace) → number_of p (create_snapshot host id ref t).1 ≡ number_of p t
  unfolding create_snapshot number_of
  number_of-create_snapshot id ref t = grind (arith, quiet)

  number_of-get_overlay_fs_dir :
      (id : Str) (t : Trace) → number_of p (get_overlay_fs_dir host id t).1 ≡ number_of p t
  unfolding get_overlay_fs_dir dirs_of_mounts number_of
  number_of-get_overlay_fs_dir id t = grind (arith, quiet)

  number_of-finish_snapshot :
      (meta : Pouch.Container) (config : Pouch.ContainerConfig) (upper work : Str) (t : Trace)
      → number_of p (finish_snapshot host meta config upper work t).1 ≡ number_of p t
  unfolding finish_snapshot
  number_of-finish_snapshot meta config upper work t = grind (arith, number_of-set_dir_disk_quota)

  number_of-remove_found :
      (id : Str) (found : Attempt (Unit {0})) (t : Trace)
      → number_of p (remove_found host id found t).1 ≡ number_of p t
  unfolding remove_found number_of
  number_of-remove_found id (done _) t = grind (arith, quiet)
  number_of-remove_found id (failed _) t = refl

  pub number_of-prepare_snapshot :
      (meta : Pouch.Container) (config : Pouch.ContainerConfig) (t : Trace)
      → number_of p (prepare_snapshot host meta config t).1 ≡ number_of p t
  unfolding prepare_snapshot number_of
  number_of-prepare_snapshot meta config t = grind (
    arith, quiet, number_of-remove_found, number_of-create_snapshot, number_of-get_overlay_fs_dir,
    number_of-finish_snapshot,
  )
