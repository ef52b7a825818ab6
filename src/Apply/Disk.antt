-- ===== src/Apply/Disk.antt =====
-- The disk of the runner of the upgrades (scripts/self_upgrade_runner.py): the repository that it
-- writes to, its backups, and the writes that the system refuses.
use agenelf.Base.{
  Bool, true, false, Option, none, some, Text, List, [], ◌∷◌, text_eq, if◌then◌else◌, Result, ok,
  err, Exec,
}
use agenelf.Upgrade.Paths.{bare_path}

-- The files beneath a directory, by the path that leads to each. Directories are no part of it.
abbrev pub Store : Type 0
Store = Text → Option Text

-- What a system call or a check of `apply_files` raises.
pub data WriteError : Type 0 where
  os_error target_escapes backup_exists post_write_mismatch : WriteError

-- `targets` is the repository below `TARGET_ROOT`, `backups` the names below the directory of the
-- backups. `faults` says of the next writes whether the system refuses each; after the last one all
-- writes succeed.
pub record Disk : Type 0 where
  pub targets : Store
  pub backups : List Text
  pub faults : List Bool

unfoldable pub put_target : Text → Text → Store → Store
put_target path body files = λ q. if text_eq q path then some body else files q

unfoldable pub drop_file : Text → Store → Store
drop_file path files = λ q. if text_eq q path then none else files q

-- Does the next write succeed?
unfoldable pub next_write : List Bool → Bool × List Bool
next_write [] = (true, [])
next_write (refused ∷ faults) = (if refused then false else true, faults)

unfoldable pub write_target : Text → Text → Bool × List Bool → Exec Disk WriteError (Unit {0})
unfolding put_target
write_target path body (false, faults) d = (err os_error, record d { faults = faults })
write_target path body (true, faults) d =
    (ok tt, record d { targets = put_target path body d.targets; faults = faults })

-- `atomic_copy`: the temporary file is renamed over the target at the end, and removed where
-- anything before that fails.
unfoldable pub copy_body : Option Text → Text → Exec Disk WriteError (Unit {0})
unfolding next_write write_target
copy_body none path d = (err os_error, d)
copy_body (some body) path d = write_target path body (next_write d.faults) d

unfoldable pub unlinked : Text → Bool × List Bool → Exec Disk WriteError (Unit {0})
unfolding drop_file
unlinked path (false, faults) d = (err os_error, record d { faults = faults })
unlinked path (true, faults) d =
    (ok tt, record d { targets = drop_file path d.targets; faults = faults })

-- `unlink`, which passes over a file that is missing.
unfoldable pub unlink_target : Text → Exec Disk WriteError (Unit {0})
unfolding next_write unlinked
unlink_target path d = unlinked path (next_write d.faults) d

-- `target_path`. How the system resolves a name below `TARGET_ROOT` is an argument: `none` is a
-- path outside it.
unfoldable pub found_target : Option Text → Result WriteError Text
found_target none = err target_escapes
found_target (some path) = ok path

unfoldable pub target_path : (Text → Option Text) → Text → Result WriteError Text
unfolding bare_path found_target
target_path resolve relative = found_target (resolve (bare_path relative))
