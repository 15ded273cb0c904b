-- ===== src/Streams.antt =====
-- The streams of data that handlers send beside their responses: `stream.data` and `stream.end` of
-- src/handlers/fs.rs (`handle_fs_download`), src/handlers/exec.rs and src/handlers/docker.rs.
pub mod Download
pub mod Prefix
pub mod Drain
pub mod Exec
pub mod Channels
pub mod Order
pub mod Runs
pub mod Finish
pub mod Logs
pub mod Follow
mod Tests
use nobase_agent.Prelude.{
  ℕ, suc, String, Bool, List, [], ◌∷◌, ◌++◌, Option, none, some, Result, ok, err, min, take, drop,
  ℤ, neg, unwrap_or,
}
use nobase_agent.Proto.Rpc.{RpcRequest, notification}
use nobase_agent.Proto.Methods.{StreamChannel, stdout, stderr}
use nobase_agent.Proto.Wire.{Wire}
use nobase_agent.FileSystem.{Bytes}

-- A turn of a read loop: the read fails, or may yield up to one more byte than the number, and the
-- channel takes a message or is closed.
pub record Turn : Type 0 where
  pub outcome : Result String ℕ
  pub receiving : Bool

-- How the wait for a process ends: it fails, or yields the code, which a killed process has not.
pub data Exit : Type 0 where
  exited : Option ℤ → Exit
  lost : String → Exit

-- `status.code().unwrap_or(-1)`, and -1 for a failed wait
unfoldable pub exit_code : Exit → ℤ
exit_code (exited code) = unwrap_or (neg 1) code
exit_code (lost e) = neg 1

-- `read` with a buffer of `size` bytes: nothing only at the end.
abbrev pub chunk : (size limit : ℕ) → Bytes → Bytes
chunk size limit rest = take (min size (suc limit)) rest

abbrev pub behind : (size limit : ℕ) → Bytes → Bytes
behind size limit rest = drop (min size (suc limit)) rest

abbrev pub channel_name : StreamChannel → String
channel_name stdout = "stdout"
channel_name stderr = "stderr"

-- The bytes of chunks, one after the other.
abbrev pub joined_chunks : List Bytes → Bytes
joined_chunks [] = []
joined_chunks (c ∷ chunks) = c ++ joined_chunks chunks

module _ (wire : Wire) (encode : Bytes → String) where
  open wire use {Value, string, object, number}

  -- `encode` is the crate `base64`.
  unfoldable pub data_message : String → StreamChannel → Bytes → RpcRequest Value
  unfolding notification
  data_message stream_id channel bytes = notification "stream.data" (
      object (
        ("stream_id", string stream_id)
        ∷ ("channel", string (channel_name channel))
        ∷ ("data", string (encode bytes))
        ∷ []))

  unfoldable pub end_message : String → ℤ → RpcRequest Value
  unfolding notification
  end_message stream_id code =
      notification "stream.end"
        (object (("stream_id", string stream_id) ∷ ("exit_code", number code) ∷ []))

  -- `serde_json::to_string(…).unwrap_or_default()`
  abbrev pub text_of : RpcRequest Value → String
  text_of request = elim (wire.print_request request) [ ok s ↦ s | err e ↦ "" ]
