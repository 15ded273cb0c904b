-- ===== src/Shell/Steps.antt =====
-- The steps of the handlers and read threads of src/handlers/shell.rs, in any order.
use nobase_agent.Prelude.{ℕ, String, ◌≡◌, false, Option, List, [], ◌∷◌, Result, ◌⊎◌}
use nobase_agent.Proto.Wire.{Wire}
use nobase_agent.Shell.{
  Reader, Shells, Creation, no_pty, no_child, no_dup, created, Base64, mem_fd, end_reader,
  open_shell, write_shell, resize_shell, close_shell,
}

-- The kernel hands out descriptors that are not open.
abbrev pub IsFresh : Creation → Shells → Type 0
IsFresh (no_pty e) s = Unit
IsFresh (no_child e master slave) s =
    (mem_fd master s.open_fds ≡ false) × (mem_fd slave s.open_fds ≡ false)
IsFresh (no_dup child_pid master) s = mem_fd master s.open_fds ≡ false
IsFresh (created child_pid master read_fd shutdown) s =
    (mem_fd master s.open_fds ≡ false) × (mem_fd read_fd s.open_fds ≡ false)

abbrev pub Has : Reader → List Reader → Type 0
Has r [] = ⊥
Has r (q ∷ readers) = (q ≡ r) ⊎ Has r readers

module _ (wire : Wire) (base64 : Base64) where
  -- What the handlers and the read threads do, one after the other in any order.
  pub data Step : Shells → Shells → Type 0 where
    opens :
        (c : Creation) (shell_id : String) (s : Shells)
        → IsFresh c s
        → Step s (open_shell wire base64 c shell_id s).1
    writes :
        (outcome : Result String ℕ) (shell_id payload : String) (s : Shells)
        → Step s (write_shell wire base64 outcome shell_id payload s).1
    resizes :
        (failure : Option String) (shell_id : String) (s : Shells)
        → Step s (resize_shell wire base64 failure shell_id s).1
    closes : (shell_id : String) (s : Shells) → Step s (close_shell wire base64 shell_id s).1
    ends : (r : Reader) (s : Shells) → Has r s.readers → Step s (end_reader r s)

  pub data Reach (s : Shells) : Shells → Type 0 where
    here : Reach s s
    next : {t u : Shells} → Reach s t → Step t u → Reach s u
