-- ===== src/Shell/Reopened.antt =====
-- A shell that is closed and opened again while its first read thread still runs,
-- src/handlers/shell.rs.
use nobase_agent.Prelude.{
  ℕ, String, ◌≡◌, ◌≢◌, refl, ◌∙◌, ap, Bool, true, none, some, List, [], ◌∷◌, Result, ok, err, arith,
  eq_iff,
}
use nobase_agent.Prelude.Dict.{Dict, get, insert, remove, get-insert, get-remove}
use nobase_agent.Proto.Wire.{Wire}
use nobase_agent.Shell.{
  ShellSession, Reader, Shells, created, Base64, Poll, mem_fd, close_fd, shell_not_found,
  create_pty_session, end_reader, read_turn, open_shell, write_shell, close_shell,
}

pub get-insert_eq : {V : Type 0} (k : String) (v : V) (d : Dict V) → get k (insert k v d) ≡ some v
get-insert_eq k v d = ground (arith, get-insert k k v d, eq_iff k k)

pub get-remove_eq : {V : Type 0} (k : String) (d : Dict V) → get k (remove k d) ≡ none
get-remove_eq k d = ground (arith, get-remove k k d, eq_iff k k)

pub mem_fd_here : (fd : ℕ) (fds : List ℕ) → mem_fd fd (fd ∷ fds) ≡ true
unfolding mem_fd
mem_fd_here fd fds = ground arith

pub mem_fd_close :
    (fd other : ℕ) (fds : List ℕ) → fd ≢ other → mem_fd fd (close_fd other fds) ≡ mem_fd fd fds
unfolding mem_fd
mem_fd_close fd other [] ne = refl
mem_fd_close fd other (j ∷ fds) ne = ground (arith, mem_fd_close fd other fds ne, ne)

module _ (wire : Wire) (base64 : Base64) where
  -- What an opening with a free id leaves.
  abbrev pub with_session : String → ℕ → ℕ → ℕ → ℕ → Shells → Shells
  with_session shell_id child_pid master read_fd shutdown s = record s {
    sessions =
        insert shell_id (record { master_fd = master; child_pid = child_pid; shutdown = shutdown })
          s.sessions;
    readers = record { shell_id = shell_id; read_fd = read_fd; shutdown = shutdown } ∷ s.readers;
    open_fds = master ∷ read_fd ∷ s.open_fds;
  }

  pub open_free :
      (shell_id : String) (child_pid master read_fd shutdown : ℕ) (s : Shells)
      → get shell_id s.sessions ≡ none
      → open_shell wire base64 (created child_pid master read_fd shutdown) shell_id s ≡ (
        ok (wire.object (("shell_id", wire.string shell_id) ∷ ("ok", wire.boolean true) ∷ [])),
        with_session shell_id child_pid master read_fd shutdown s,
      )
  unfolding open_shell create_pty_session
  open_free shell_id child_pid master read_fd shutdown s free = rw (free, open_shell) refl

  close_there :
      (shell_id : String) (t : ShellSession) (s : Shells)
      → get shell_id s.sessions ≡ some t
      → ((close_shell wire base64 shell_id s).1.sessions ≡ remove shell_id s.sessions)
        × (mem_fd t.shutdown (close_shell wire base64 shell_id s).1.flags ≡ true)
  unfolding close_shell
  close_there shell_id t s there =
      (rw (there, close_shell) refl, rw (there, close_shell) (mem_fd_here t.shutdown s.flags))

  read_turn_stopped :
      (r : Reader) (flags : List ℕ) (p : Poll) (receiving : Bool)
      → mem_fd r.shutdown flags ≡ true
      → read_turn wire base64 r flags p receiving ≡ none
  unfolding read_turn
  read_turn_stopped r flags p receiving told = rw (told, read_turn) refl

  write_missing :
      (outcome : Result String ℕ) (shell_id payload : String) (s : Shells)
      → get shell_id s.sessions ≡ none
      → write_shell wire base64 outcome shell_id payload s ≡ (err (shell_not_found shell_id), s)
  unfolding write_shell
  write_missing outcome shell_id payload s missing = rw (missing, write_shell) refl

  -- A shell is opened, closed, and opened again under the same id, and all of it succeeds; the first
  -- read thread, which the close has told to stop, ends afterwards. Then the new session is gone,
  -- though nobody closed it and its descriptor is open: input for it is refused.
  pub reopened_lost :
      (shell_id payload : String) (outcome : Result String ℕ)
      (pid master read_fd flag pid' master' read_fd' flag' : ℕ) (s : Shells) (p : Poll)
      (receiving : Bool)
      → get shell_id s.sessions ≡ none
      → master' ≢ read_fd
      → let first : Reader = record { shell_id = shell_id; read_fd = read_fd; shutdown = flag } in
        let opened = (open_shell wire base64 (created pid master read_fd flag) shell_id s).1 in
        let closed = (close_shell wire base64 shell_id opened).1 in
        let (again, reopened) =
          open_shell wire base64 (created pid' master' read_fd' flag') shell_id closed in
        let after = end_reader first reopened in
        (again
          ≡ ok (wire.object (("shell_id", wire.string shell_id) ∷ ("ok", wire.boolean true) ∷ [])))
        × (read_turn wire base64 first reopened.flags p receiving ≡ none)
        × (mem_fd master' after.open_fds ≡ true)
        × (write_shell wire base64 outcome shell_id payload after
            ≡ (err (shell_not_found shell_id), after))
  unfolding end_reader
  reopened_lost shell_id payload outcome pid master read_fd flag pid' master' read_fd' flag' s p
        receiving free ne =
      let first : Reader = record { shell_id = shell_id; read_fd = read_fd; shutdown = flag } in
      let session : ShellSession = record {
        master_fd = master;
        child_pid = pid;
        shutdown = flag;
      } in
      let opened = with_session shell_id pid master read_fd flag s in
      let closed = (close_shell wire base64 shell_id opened).1 in
      let (sessions, told) =
        close_there shell_id session opened (get-insert_eq shell_id session s.sessions) in
      let free' : get shell_id closed.sessions ≡ none =
        ap (λ d. get shell_id d) sessions ∙ get-remove_eq shell_id opened.sessions in
      let reopened = with_session shell_id pid' master' read_fd' flag' closed in
      rw
        (
          open_free shell_id pid master read_fd flag s free,
          open_free shell_id pid' master' read_fd' flag' closed free',
        )
        (
          refl,
          read_turn_stopped first closed.flags p receiving told,
          mem_fd_close master' read_fd reopened.open_fds ne
              ∙ mem_fd_here master' (read_fd' ∷ closed.open_fds),
          write_missing outcome shell_id payload (end_reader first reopened)
              (get-remove_eq shell_id reopened.sessions),
        )
