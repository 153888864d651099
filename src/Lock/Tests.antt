-- ===== src/Lock/Tests.antt =====
-- Processes at the lock file, and the theorem about them at a concrete input.
use ida_mcp_rs.Base.{◌≡◌, refl}
use ida_mcp_rs.Lock.{
  Host, locked, acquires, proceeds, step, initial, open_lock_file, proceed, acquire_mcp_lock,
  try_lock_file, test_path, lock_path_names_file,
}

-- Process 3 has the lock and is about to remove it.
abbrev held : Host
held = step (proceeds 3) (step (acquires 3) initial)

abbrev removing : Host
removing = step (proceeds 3) held

-- Process 1 opens the file before process 3 removes it, and locks it afterwards. Process 2 makes a new
-- file and locks that.
abbrev raced : Host
raced = step (proceeds 2) (
    step (acquires 2) (
      step (proceeds 1)
        (step (proceeds 3) (step (proceeds 3) (step (proceeds 3) (step (acquires 1) held))))))

-- Both have an `McpLock` for the same database.
two_holders : (raced.progress 1 ≡ locked 0) × (raced.progress 2 ≡ locked 1)
unfolding step open_lock_file proceed acquire_mcp_lock try_lock_file test_path lock_path_names_file
two_holders = (refl, refl)
