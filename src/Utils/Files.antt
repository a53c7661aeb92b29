-- ===== src/Utils/Files.antt =====
-- utils/fileutils.go and utils/exec_utils.go. The files that are opened are closed on every path,
-- which no later call can tell.
use d2p_migrator.Prelude.{ℕ, Bool, false, ◌||◌, List, [], ◌∷◌, ◌++◌, Str, ◌==◌, if◌then◌else◌, str}
use d2p_migrator.Prelude.FilePath.{path_join}
use d2p_migrator.Prelude.Result.{eof, is_class}
use d2p_migrator.World.{
  Host, Io, call, pure, failf, attempt, done, failed, Attempt, ◌>>=◌, ◌>>◌, exec_command, os_stat,
  os_open, os_read_dir_names, os_open_file, io_copy,
}

-- The shell command of `MoveDir`.
abbrev pub move_command : Str → Str → Str
move_command src dst = str "mv " ++ path_join (src ∷ str "*" ∷ []) ++ str " " ++ dst

module _ (host : Host) where
  -- `ExecCommand`
  abbrev pub exec : Str → List Str → Io (Unit {0})
  exec name args = call (exec_command name args) host.exec_command

  unfoldable pub move_dir : Str → Str → Io (Unit {0})
  move_dir src dst =
      if (src == []) || (dst == [])
      then failf (str "mv: srcDir " ++ src ++ str " and dstDir " ++ dst ++ str " not correct")
      else exec (str "bash") (str "-c" ∷ move_command src dst ∷ [])

  is_end : Attempt (Unit {0}) → Bool
  unfolding is_class
  is_end (done _) = false
  is_end (failed e) = is_class e.class eof

  -- `IsDirEmpty`: only the end of the directory counts as empty.
  unfoldable pub is_dir_empty : Str → Io Bool
  unfolding is_end
  is_dir_empty dir = do
    call (os_stat dir) host.os_stat
    call (os_open dir) host.os_open
    names ← attempt (call (os_read_dir_names dir) host.os_read_dir_names)
    pure (is_end names)

  unfoldable pub copy_file : Str → Str → ℕ → Io (Unit {0})
  copy_file dst src perm = do
    call (os_open src) host.os_open
    call (os_open_file dst perm) host.os_open_file
    call (io_copy dst src) host.io_copy
