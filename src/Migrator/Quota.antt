-- ===== src/Migrator/Quota.antt =====
-- migrator/migrator_utils.go: `SetDirDiskQuota`.
use d2p_migrator.Prelude.{
  ℕ, zero, suc, ◌%◌, ◌^◌, ◌||◌, ◌&&◌, List, [], ◌∷◌, ◌++◌, Option, none, some, Str, ◌==◌, str, ltb,
  if◌then◌else◌,
}
use d2p_migrator.Prelude.Int.{ℤ, pos, negsuc}
use d2p_migrator.Prelude.Numbers.{atoi}
use d2p_migrator.Prelude.Result.{Error}
use d2p_migrator.World.{
  Host, Io, call, pure, failf, wrap_io, lift, attempt, done, failed, ◌>>=◌, ◌>>◌, walk,
  quota_start_driver, quota_set_subtree, quota_set_disk_quota, quota_set_file_attr,
}

module _ (host : Host) where
  -- The callback of `filepath.Walk`, over the files that it visits. The walk stops at an error.
  unfoldable pub quota_walk : ℕ → List (Str × Option Error) → Io (Unit {0})
  quota_walk qid [] = pure tt
  quota_walk qid ((path, some e) ∷ files) =
      failf (str "failed to set diskquota for walk dir " ++ path ++ str ": " ++ e.text)
  quota_walk qid ((path, none) ∷ files) = do
    _ ← attempt (call (quota_set_file_attr path qid) host.quota_set_file_attr)
    quota_walk qid files

  -- The part behind the tests, with the id as a `uint32`.
  unfoldable pub set_quota : Str → ℕ → Str → Io (Unit {0})
  set_quota default_quota qid dir = do
    wrap_io (str "failed to start quota driver: ")
        (call (quota_start_driver dir) host.quota_start_driver)
    new_qid ←
        wrap_io (str "failed to set subtree: ")
          (call (quota_set_subtree dir qid) host.quota_set_subtree)
    wrap_io (str "failed to set disk quota: ")
        (call (quota_set_disk_quota dir default_quota new_qid) host.quota_set_disk_quota)
    files ← call (walk dir) host.walk
    quota_walk new_qid files

  unfoldable pub set_quota_id : Str → ℤ → Str → Io (Unit {0})
  set_quota_id default_quota (negsuc _) dir = pure tt
  set_quota_id default_quota (pos zero) dir = pure tt
  set_quota_id default_quota (pos (suc n)) dir =
      if ltb 0 (suc n % 2 ^ 32) && (default_quota == [])
      then failf (str "set quota id but have no set default quota size")
      else set_quota default_quota (suc n % 2 ^ 32) dir

  unfoldable pub set_dir_disk_quota : Str → Str → Str → Io (Unit {0})
  set_dir_disk_quota default_quota quota_id dir =
      if (quota_id == []) || (default_quota == []) then pure tt else (do
        id ← attempt (lift (atoi quota_id))
        elim id [
          | failed _ ↦ failf (str "invalid argument, QuotaID: " ++ quota_id)
          | done n ↦ set_quota_id default_quota n dir
        ])
