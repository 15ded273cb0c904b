-- ===== src/Listing/Handlers.antt =====
-- The handlers of fs.list and fs.stat, src/handlers/fs.rs, with their responses.
use nobase_agent.Prelude.{String, List, [], ◌∷◌, Result, map, pos}
use nobase_agent.Proto.Rpc.{RpcResponse, reply}
use nobase_agent.Proto.Methods.{FsEntry, FsEntryType, file, directory, symlink, FsStatResponse}
use nobase_agent.Proto.Wire.{Wire}
use nobase_agent.Listing.{Names, Output, DirStep, Stat, list, stat}

module _ (wire : Wire) (names : Names) where
  open wire use {Value, string, number, boolean, array, object}

  abbrev type_name : FsEntryType → String
  type_name file = "file"
  type_name directory = "directory"
  type_name symlink = "symlink"

  unfoldable pub entry_value : FsEntry → Value
  entry_value e = object (
      ("name", string e.name)
      ∷ ("entry_type", string (type_name e.entry_type))
      ∷ ("size", number (pos e.size))
      ∷ ("permissions", string e.permissions)
      ∷ ("modified", string e.modified)
      ∷ ("owner", string e.owner)
      ∷ ("group", string e.group)
      ∷ [])

  abbrev pub entries_value : List FsEntry → Value
  entries_value entries = object (("entries", array (map entry_value entries)) ∷ [])

  abbrev pub stat_value : FsStatResponse → Value
  stat_value r = object (("entry", entry_value r.entry) ∷ ("exists", boolean r.exists) ∷ [])

  unfoldable pub handle_fs_list :
      Output → Result String (List DirStep) → String → Value → RpcResponse Value
  unfolding reply list entry_value
  handle_fs_list ls dir id params =
      reply id (wire.fs_list params) (λ req. list names req ls dir) entries_value

  unfoldable pub handle_fs_stat : Output → Stat → String → Value → RpcResponse Value
  unfolding reply stat entry_value
  handle_fs_stat output meta id params =
      reply id (wire.fs_stat params) (λ req. stat names req output meta) stat_value
