-- ===== src/Lock/Owned.antt =====
-- That no process removes the lock file of another, in src/ida/lock.rs.
use ida_mcp_rs.Base.{ℕ, ◌≡◌, ◌<◌, Option, none, some}
use ida_mcp_rs.Lock.{
  Progress, outside, acquiring, reclaiming, reclaim_locked, locked, path_owned, path_lost, removed,
  Host,
}

-- The file that a process has locked, the one that it has open, and the one that it is about to unlink.
abbrev pub locks : Progress → Option ℕ
locks outside = none
locks (acquiring file) = none
locks (reclaiming expected_pid file) = none
locks (reclaim_locked expected_pid file) = some file
locks (locked file) = some file
locks (path_owned file) = some file
locks (path_lost file) = some file
locks (removed file) = some file

abbrev pub opens : Progress → Option ℕ
opens outside = none
opens (acquiring file) = some file
opens (reclaiming expected_pid file) = some file
opens (reclaim_locked expected_pid file) = some file
opens (locked file) = some file
opens (path_owned file) = some file
opens (path_lost file) = some file
opens (removed file) = some file

abbrev pub unlinks : Progress → Option ℕ
unlinks (path_owned file) = some file
unlinks _ = none

-- What holds of a process: it holds the lock that it has taken, and the path names the file that it is
-- about to unlink.
record Process (p : ℕ) (h : Host) : Type 0 where
  held : (i : ℕ) → locks (h.progress p) ≡ some i → h.files.holder i ≡ some p
  below : (i : ℕ) → opens (h.progress p) ≡ some i → i < h.files.next_file
  path_below : (i : ℕ) → h.files.path ≡ some i → i < h.files.next_file
  named : (i : ℕ) → unlinks (h.progress p) ≡ some i → h.files.path ≡ some i
