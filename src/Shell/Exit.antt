-- ===== src/Shell/Exit.antt =====
-- Shells that end by themselves, src/handlers/shell.rs.
use nobase_agent.Prelude.{
  ℕ, String, ◌≡◌, ◌≢◌, ◌∙◌, sym, ap, true, false, none, some, List, [], ◌∷◌, arith, All,
}
use nobase_agent.Prelude.Dict.{get, insert, remove, get-insert, get-remove}
use nobase_agent.Proto.Wire.{Wire}
use nobase_agent.Shell.{
  ShellSession, Reader, Shells, created, Base64, mem_fd, end_reader, open_shell,
}
use nobase_agent.Shell.Reopened.{mem_fd_close, mem_fd_here, open_free, with_session}
use nobase_agent.Shell.Steps.{IsFresh, Reach}
use nobase_agent.Shell.Orphans.{Orphan, All-without_reader, Reach-Orphan}

-- The descriptors that are owned are open.
pub record Owned (s : Shells) : Type 0 where
  pub sessions :
      (k : String) (t : ShellSession)
      → get k s.sessions ≡ some t
      → mem_fd t.master_fd s.open_fds ≡ true
  pub readers : All (λ r. mem_fd r.read_fd s.open_fds ≡ true) s.readers

unowned_readers :
    (fd : ℕ) (fds : List ℕ) (readers : List Reader)
    → mem_fd fd fds ≡ false
    → All (λ r. mem_fd r.read_fd fds ≡ true) readers
    → All (λ r. r.read_fd ≢ fd) readers
unowned_readers fd fds [] out all = tt
unowned_readers fd fds (r ∷ readers) out all = (
  λ e. absurd (ground (arith, out, all.0, ap (λ x. mem_fd x fds) e)),
  unowned_readers fd fds readers out all.1,
)

module _ (wire : Wire) (base64 : Base64) where
  -- A shell is opened and ends by itself, which ends its read thread. From then on, whatever the
  -- handlers and the other read threads do, its master descriptor stays open, and neither a session
  -- nor a thread owns it. The descriptors that are owned before are open, and the kernel hands out
  -- two that are not.
  pub exited_leaks :
      (shell_id : String) (pid master read_fd flag : ℕ) (s u : Shells)
      → Owned s
      → get shell_id s.sessions ≡ none
      → IsFresh (created pid master read_fd flag) s
      → master ≢ read_fd
      → Reach wire base64
          (end_reader
            (record { shell_id = shell_id; read_fd = read_fd; shutdown = flag })
            (open_shell wire base64 (created pid master read_fd flag) shell_id s).1)
          u
      → Orphan master u
  unfolding end_reader
  exited_leaks shell_id pid master read_fd flag s u owned free (m, r) ne reach =
      Reach-Orphan wire base64 master reach orphan
    where
      first : Reader
      first = record { shell_id = shell_id; read_fd = read_fd; shutdown = flag }

      t : ShellSession
      t = record { master_fd = master; child_pid = pid; shutdown = flag }

      o : Shells
      o = with_session wire base64 shell_id pid master read_fd flag s

      no_session :
          (k : String) (v : ShellSession)
          → get k (remove shell_id (insert shell_id t s.sessions)) ≡ some v
          → v.master_fd ≢ master
      no_session k v h e =
          let there : get k s.sessions ≡ some v = ground (
            arith,
            get-remove shell_id k (insert shell_id t s.sessions),
            get-insert shell_id k t s.sessions,
            h,
          ) in
          absurd (ground (arith, owned.sessions k v there, m, ap (λ x. mem_fd x s.open_fds) e))

      readers : All (λ q. q.read_fd ≢ master) (first ∷ s.readers)
      readers = (λ e. ne (sym e), unowned_readers master s.open_fds s.readers m owned.readers)

      orphan :
          Orphan master (
            end_reader first
              (open_shell wire base64 (created pid master read_fd flag) shell_id s).1)
      orphan = rw (open_free wire base64 shell_id pid master read_fd flag s free) (record {
        is_open =
            mem_fd_close master read_fd o.open_fds ne ∙ mem_fd_here master (read_fd ∷ s.open_fds);
        no_session = no_session;
        no_reader = All-without_reader wire base64 master first o.readers readers;
      })
