-- ===== src/Shell.antt =====
-- The shell sessions of src/handlers/shell.rs: the map `sessions()`, the read threads, and the file
-- descriptors that both use.
pub mod Reopened
pub mod Steps
pub mod Orphans
pub mod Exit
mod Tests
use nobase_agent.Prelude.{
  ℕ, ◌<◌, String, ◌<>◌, Bool, true, false, not, Option, none, some, List, [], ◌∷◌, ◌++◌, Result, ok,
  err, ltb, ◌==◌, if◌then◌else◌, select, take, map_err, ◌==ₛ◌, Action, lift, ◌>>=◌, ◌>>◌,
}
use nobase_agent.Prelude.Dict.{Dict, get, insert, remove}
use nobase_agent.Proto.Rpc.{
  RpcResponse, RpcRequest, notification, Failure, fault, respond, command_failed, invalid_params,
  agent_offline,
}
use nobase_agent.Proto.Methods.{
  ShellOpenRequest, ShellDataRequest, ShellResizeRequest, ShellCloseRequest,
}
use nobase_agent.Proto.Wire.{Wire}
use nobase_agent.FileSystem.{Bytes}

-- `shutdown` is the address of the flag that the session shares with its read thread.
pub record ShellSession : Type 0 where
  pub master_fd : ℕ
  pub child_pid : ℕ
  pub shutdown : ℕ

-- A read thread, in its loop.
pub record Reader : Type 0 where
  pub shell_id : String
  pub read_fd : ℕ
  pub shutdown : ℕ

-- The sessions and the threads, the descriptors that are open, the flags that are set, the
-- processes that got SIGTERM, and what was written to which terminal.
pub record Shells : Type 0 where
  pub sessions : Dict ShellSession
  pub readers : List Reader
  pub open_fds : List ℕ
  pub flags : List ℕ
  pub terminated : List ℕ
  pub input : List (ℕ × Bytes)

-- How the creation of a session goes: it fails at openpty, at the spawn or at the dup, or it
-- yields a child and a flag. The kernel picks the descriptors.
pub data Creation : Type 0 where
  no_pty : String → Creation
  no_child : String → (master slave : ℕ) → Creation
  no_dup : (child_pid master : ℕ) → Creation
  created : (child_pid master read_fd shutdown : ℕ) → Creation

-- The crate `base64`.
pub record Base64 : Type 0 where
  pub encode : Bytes → String
  pub decode : String → Result String Bytes

unfoldable pub mem_fd : ℕ → List ℕ → Bool
mem_fd fd [] = false
mem_fd fd (j ∷ fds) = let rest = mem_fd fd fds in if j == fd then true else rest

abbrev pub close_fd : ℕ → List ℕ → List ℕ
close_fd fd fds = select (λ j. not (j == fd)) fds

abbrev pub without_reader : Reader → List Reader → List Reader
without_reader r readers = select (λ q. not (q.read_fd == r.read_fd)) readers

abbrev pub shell_not_found : String → Failure
shell_not_found shell_id = fault agent_offline ("Shell not found: " <> shell_id)

-- `create_pty_session`. What fails before the dup leaves its descriptors open.
unfoldable pub create_pty_session : String → Creation → Action Shells String (Unit {0})
create_pty_session shell_id (no_pty e) s = (err e, s)
create_pty_session shell_id (no_child e master slave) s =
    (err e, record s { open_fds = master ∷ slave ∷ s.open_fds })
create_pty_session shell_id (no_dup child_pid master) s = (err "Failed to dup master fd", s)
create_pty_session shell_id (created child_pid master read_fd shutdown) s = (
  ok tt,
  record s {
    sessions =
        insert shell_id (record { master_fd = master; child_pid = child_pid; shutdown = shutdown })
          s.sessions;
    readers = record { shell_id = shell_id; read_fd = read_fd; shutdown = shutdown } ∷ s.readers;
    open_fds = master ∷ read_fd ∷ s.open_fds;
  },
)

-- What `poll` on the descriptor says, and the bytes that are read where it is readable.
pub data Poll : Type 0 where
  failed : Poll
  timeout : Poll
  hung_up : Poll
  readable : Bytes → Poll

-- The end of a read thread: it closes its descriptor, and removes the session of its shell id.
unfoldable pub end_reader : Reader → Shells → Shells
end_reader r s = record s {
  sessions = remove r.shell_id s.sessions;
  readers = without_reader r s.readers;
  open_fds = close_fd r.read_fd s.open_fds;
}

module _ (wire : Wire) (base64 : Base64) where
  open wire use {Value, string, object, boolean}

  abbrev done : Value
  done = object (("ok", boolean true) ∷ [])

  abbrev invalid : String → Failure
  invalid e = fault invalid_params ("Invalid params: " <> e)

  unfoldable pub shell_data_message : String → Bytes → RpcRequest Value
  unfolding notification
  shell_data_message shell_id bytes =
      notification "shell.data"
        (object (("shell_id", string shell_id) ∷ ("data", string (base64.encode bytes)) ∷ []))

  -- A turn of the read loop: nothing where it ends, or the text that it sends, if any. `receiving`
  -- says whether the channel takes a text.
  unfoldable pub read_turn : Reader → List ℕ → Poll → Bool → Option (Option String)
  unfolding shell_data_message mem_fd
  read_turn r flags p receiving = if mem_fd r.shutdown flags then none else turn p
    where
      turn : Poll → Option (Option String)
      turn failed = none
      turn timeout = some none
      turn hung_up = none
      turn (readable []) = none
      turn (readable (b ∷ bytes)) =
          elim (wire.print_request (shell_data_message r.shell_id (b ∷ bytes))) [
            | err e ↦ some none
            | ok msg ↦ if receiving then some (some msg) else none
          ]

  -- The opening of a shell whose id is free.
  unfoldable pub open_shell : Creation → String → Action Shells Failure Value
  unfolding create_pty_session
  open_shell c shell_id s = elim (get shell_id s.sessions) [
    | some session ↦ (err (fault agent_offline ("Shell already exists: " <> shell_id)), s)
    | none ↦
        let (r, s') = create_pty_session shell_id c s in
        elim r [
          | err e ↦ (err (fault command_failed ("Failed to create shell: " <> e)), s')
          | ok u ↦ (ok (object (("shell_id", string shell_id) ∷ ("ok", boolean true) ∷ [])), s')
        ]
  ]

  -- Input for a terminal; the outcome of `write` is an error or a number of bytes, which may be
  -- fewer than there are.
  unfoldable pub write_shell : Result String ℕ → String → String → Action Shells Failure Value
  write_shell outcome shell_id payload s = elim (get shell_id s.sessions) [
    | none ↦ (err (shell_not_found shell_id), s)
    | some session ↦ elim (base64.decode payload) [
      | err e ↦ (err (fault invalid_params ("Invalid base64: " <> e)), s)
      | ok bytes ↦ elim outcome [
        | err e ↦ (err (fault command_failed ("Write failed: " <> e)), s)
        | ok n ↦ (ok done, record s { input = s.input ++ (session.master_fd, take n bytes) ∷ [] })
      ]
    ]
  ]

  unfoldable pub resize_shell : Option String → String → Action Shells Failure Value
  resize_shell failure shell_id s = elim (get shell_id s.sessions) [
    | none ↦ (err (shell_not_found shell_id), s)
    | some session ↦ elim failure [
      | some e ↦ (err (fault command_failed ("Resize failed: " <> e)), s)
      | none ↦ (ok done, s)
    ]
  ]

  -- The session goes, its thread is told to stop, its child is terminated, its descriptor closed.
  unfoldable pub close_shell : String → Action Shells Failure Value
  close_shell shell_id s = elim (get shell_id s.sessions) [
    | none ↦ (err (shell_not_found shell_id), s)
    | some session ↦ (
      ok done,
      record s {
        sessions = remove shell_id s.sessions;
        flags = session.shutdown ∷ s.flags;
        terminated =
            if ltb 0 session.child_pid then session.child_pid ∷ s.terminated else s.terminated;
        open_fds = close_fd session.master_fd s.open_fds;
      },
    )
  ]

  abbrev answer : String → Action Shells Failure Value → Shells → RpcResponse Value × Shells
  answer id m s = let (r, s') = m s in (respond id r, s')

  unfoldable pub handle_shell_open : Creation → String → Value → Shells → RpcResponse Value × Shells
  unfolding open_shell
  handle_shell_open c id params =
      answer id
        (do req ← lift (map_err invalid (wire.shell_open params)); open_shell c req.shell_id)

  unfoldable pub handle_shell_data :
      Result String ℕ → String → Value → Shells → RpcResponse Value × Shells
  unfolding write_shell
  handle_shell_data outcome id params = answer id (do
    req ← lift (map_err invalid (wire.shell_data params))
    write_shell outcome req.shell_id req.payload)

  unfoldable pub handle_shell_resize :
      Option String → String → Value → Shells → RpcResponse Value × Shells
  unfolding resize_shell
  handle_shell_resize failure id params = answer id (do
    req ← lift (map_err invalid (wire.shell_resize params))
    resize_shell failure req.shell_id)

  unfoldable pub handle_shell_close : String → Value → Shells → RpcResponse Value × Shells
  unfolding close_shell
  handle_shell_close id params =
      answer id
        (do req ← lift (map_err invalid (wire.shell_close params)); close_shell req.shell_id)
