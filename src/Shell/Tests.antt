-- ===== src/Shell/Tests.antt =====
-- Runs of the shell sessions of src/handlers/shell.rs, and the theorems at concrete sessions.
use nobase_agent.Prelude.{◌≡◌, refl, true, none, [], ◌∷◌, ok, err, arith}
use nobase_agent.Prelude.Dict.{get, insert}
use nobase_agent.Shell.{
  Reader, Shells, created, Base64, readable, mem_fd, shell_not_found, create_pty_session,
  end_reader, read_turn, open_shell, write_shell, close_shell, handle_shell_open, handle_shell_data,
}
use nobase_agent.Shell.Reopened.{reopened_lost}
use nobase_agent.Shell.Steps.{here, next, closes}
use nobase_agent.Shell.Orphans.{Orphan}
use nobase_agent.Shell.Exit.{Owned, exited_leaks}
use nobase_agent.Samples.{wire}

abbrev base64 : Base64
base64 = record { encode = λ bytes. "YQ=="; decode = λ s. ok (97 ∷ 98 ∷ []) }

abbrev none_open : Shells
none_open = record {
  sessions = [];
  readers = [];
  open_fds = 0 ∷ 1 ∷ 2 ∷ [];
  flags = [];
  terminated = [];
  input = [];
}

abbrev opened : Shells
opened = (handle_shell_open wire base64 (created 70 5 6 1) "1" "t" none_open).1

abbrev first : Reader
first = record { shell_id = "t"; read_fd = 6; shutdown = 1 }

-- `write` takes one of two bytes, and the response is a success.
short_write : (handle_shell_data wire base64 (ok 1) "2" "t" opened).1.input ≡ (5, 97 ∷ []) ∷ []
unfolding handle_shell_open open_shell create_pty_session get insert handle_shell_data write_shell
short_write = refl

reopened_lost_example :
    let closed =
      (close_shell wire base64 "t" (open_shell wire base64 (created 70 5 6 1) "t" none_open).1).1 in
    let (again, reopened) = open_shell wire base64 (created 71 7 8 2) "t" closed in
    let after = end_reader first reopened in
    (again ≡ ok (wire.object (("shell_id", "t") ∷ ("ok", "true") ∷ [])))
    × (read_turn wire base64 first reopened.flags (readable (97 ∷ [])) true ≡ none)
    × (mem_fd 7 after.open_fds ≡ true)
    × (write_shell wire base64 (ok 2) "t" "YWI=" after ≡ (err (shell_not_found "t"), after))
unfolding get
reopened_lost_example =
    reopened_lost wire base64 "t" "YWI=" (ok 2) 70 5 6 1 71 7 8 2 none_open (readable (97 ∷ []))
      true refl (omega arith)

none_open-Owned : Owned none_open
unfolding get
none_open-Owned = record { sessions = λ k t h. cc; readers = tt }

abbrev exited : Shells
exited = end_reader first (open_shell wire base64 (created 70 5 6 1) "t" none_open).1

-- Closing it then finds no session.
exited_leaks_example : Orphan 5 (close_shell wire base64 "t" exited).1
unfolding get mem_fd
exited_leaks_example =
    exited_leaks wire base64 "t" 70 5 6 1 none_open (close_shell wire base64 "t" exited).1
      none_open-Owned refl (refl, refl) (omega arith) (next here (closes "t" exited))
