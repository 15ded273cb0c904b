-- ===== src/FileCalls.antt =====
-- fs.mkdir, fs.delete, fs.rename and fs.search of src/handlers/fs.rs: the call of the system that a
-- request leads to, and the answer for what that comes to.
pub mod Deletes
mod Tests
use nobase_agent.Prelude.{
  zero, String, ◌<>◌, Bool, true, false, not, List, [], ◌∷◌, ◌++◌, Option, none, some, Result, ok,
  err, ℕ, ℤ, pos, neg, if◌then◌else◌, ◌==ₛ◌, map, lines, select, unwrap_or, map_err,
}
use nobase_agent.Proto.Rpc.{
  RpcResponse, reply, Failure, fault, respond, command_failed, invalid_params,
}
use nobase_agent.Proto.Methods.{FsMkdirRequest, FsDeleteRequest, FsRenameRequest, FsSearchRequest}
use nobase_agent.Proto.Wire.{Wire}
use nobase_agent.Upload.{unwrap_or_false}
use nobase_agent.Streams.{Exit, exited, lost, exit_code}

-- A call of the system, or a command with its arguments.
pub data SystemCall : Type 0 where
  create_dir : String → SystemCall
  create_dir_all : String → SystemCall
  remove_dir : String → SystemCall
  remove_dir_all : String → SystemCall
  remove_file : String → SystemCall
  rename : String → String → SystemCall
  command : String → List String → SystemCall

-- What the system does with a call: an error or success, and how a command ends. And `is_dir` of
-- `symlink_metadata`.
pub record Paths : Type 0 where
  pub perform : SystemCall → Option String
  pub status : SystemCall → Exit
  pub is_dir : String → Result String Bool

unfoldable pub mkdir_call : FsMkdirRequest → SystemCall
mkdir_call req =
    if unwrap_or_false req.sudo
    then command "sudo"
        ("mkdir" ∷ ((if unwrap_or_false req.recursive then "-p" ∷ [] else []) ++ req.path ∷ []))
    else if unwrap_or_false req.recursive
    then create_dir_all req.path
    else create_dir req.path

-- The call for a path that is a directory or not.
unfoldable pub remove_call : Bool → Bool → String → SystemCall
remove_call true true path = remove_dir_all path
remove_call true false path = remove_dir path
remove_call false recursive path = remove_file path

unfoldable pub delete_command : FsDeleteRequest → SystemCall
delete_command req =
    command "sudo" ("rm" ∷ (if unwrap_or_false req.recursive then "-rf" else "-f") ∷ req.path ∷ [])

unfoldable pub rename_command : FsRenameRequest → SystemCall
rename_command req = command "sudo" ("mv" ∷ req.old_path ∷ req.new_path ∷ [])

unfoldable pub search_command : (ℕ → String) → FsSearchRequest → SystemCall
search_command print req = command "find" (
    req.path
    ∷ ((elim req.max_depth [ none ↦ [] | some depth ↦ "-maxdepth" ∷ print depth ∷ [] ])
        ++ "-name" ∷ req.pattern ∷ []))

-- How `find` ends: with success or not, with both outputs, or it does not run.
pub data Found : Type 0 where
  succeeded : String → Found
  refused : (out errors : String) → Found
  unrunnable : String → Found

abbrev pub is_filled : String → Bool
is_filled line = not (line ==ₛ "")

unfoldable pub matches : String → List String
matches out = select is_filled (lines out)

-- Matches count also where `find` failed for some directory.
unfoldable pub search : Found → Result Failure (List String)
unfolding matches
search (succeeded out) = ok (matches out)
search (refused out errors) = elim (matches out) [
  | [] ↦ err (fault command_failed ("find failed: " <> errors))
  | m ∷ more ↦ ok (m ∷ more)
]
search (unrunnable e) = err (fault command_failed ("exec failed: " <> e))

module _ (wire : Wire) (print : ℤ → String) where
  open wire use {Value, string, object, boolean, array}

  abbrev pub done : Value
  done = object (("ok", boolean true) ∷ [])

  -- The answer for the status of a command.
  unfoldable pub of_status : String → Exit → Result Failure Value
  unfolding exit_code
  of_status name (lost e) = err (fault command_failed ("exec failed: " <> e))
  of_status name (exited (some (pos zero))) = ok done
  of_status name (exited code) = err (
      fault command_failed (name <> (" failed (exit " <> (print (exit_code (exited code)) <> ")"))))

  unfoldable pub of_result : String → Option String → Result Failure Value
  of_result message none = ok done
  of_result message (some e) = err (fault command_failed (message <> e))

  unfoldable pub mkdir : Paths → FsMkdirRequest → Result Failure Value
  unfolding mkdir_call of_status of_result
  mkdir host req =
      if unwrap_or_false req.sudo
      then of_status "mkdir" (host.status (mkdir_call req))
      else of_result ("Cannot create '" <> (req.path <> "': ")) (host.perform (mkdir_call req))

  -- The outcome of a delete without sudo: the path is looked at first.
  unfoldable pub remove_result : Paths → FsDeleteRequest → Option String
  unfolding remove_call
  remove_result host req = elim (host.is_dir req.path) [
    | err e ↦ some e
    | ok is_dir ↦ host.perform (remove_call is_dir (unwrap_or_false req.recursive) req.path)
  ]

  unfoldable pub delete : Paths → FsDeleteRequest → Result Failure Value
  unfolding delete_command of_status of_result remove_result
  delete host req =
      if unwrap_or_false req.sudo
      then of_status "rm" (host.status (delete_command req))
      else of_result ("Cannot delete '" <> (req.path <> "': ")) (remove_result host req)

  unfoldable pub move : Paths → FsRenameRequest → Result Failure Value
  unfolding rename_command of_status of_result
  move host req =
      if unwrap_or_false req.sudo
      then of_status "mv" (host.status (rename_command req))
      else of_result ("Cannot rename '" <> (req.old_path <> ("' → '" <> (req.new_path <> "': "))))
          (host.perform (rename req.old_path req.new_path))

  unfoldable pub handle_fs_mkdir : Paths → String → Value → RpcResponse Value
  unfolding reply mkdir
  handle_fs_mkdir host id params = reply id (wire.fs_mkdir params) (mkdir host) (λ v. v)

  unfoldable pub handle_fs_delete : Paths → String → Value → RpcResponse Value
  unfolding reply delete
  handle_fs_delete host id params = reply id (wire.fs_delete params) (delete host) (λ v. v)

  unfoldable pub handle_fs_rename : Paths → String → Value → RpcResponse Value
  unfolding reply move
  handle_fs_rename host id params = reply id (wire.fs_rename params) (move host) (λ v. v)

  unfoldable pub matches_value : List String → Value
  matches_value found = object (("matches", array (map string found)) ∷ [])

  unfoldable pub handle_fs_search :
      (ℕ → String) → (SystemCall → Found) → String → Value → RpcResponse Value
  unfolding reply search search_command matches_value
  handle_fs_search show find id params =
      reply id (wire.fs_search params) (λ req. search (find (search_command show req)))
        matches_value
