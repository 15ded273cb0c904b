-- ===== src/Streams/Download.antt =====
-- fs.download of src/handlers/fs.rs (`handle_fs_download`, `stream_file_direct`, `stream_file_sudo`).
use nobase_agent.Prelude.{
  ℕ, zero, ◌*◌, String, ◌<>◌, Bool, true, false, List, [], ◌∷◌, ◌++◌, Option, none, some, Result,
  ok, err, if◌then◌else◌, ℤ, pos, neg, trim, parse_u64, unwrap_or, map_err,
}
use nobase_agent.Proto.Rpc.{RpcResponse, Failure, fault, respond, command_failed, invalid_params}
use nobase_agent.Proto.Methods.{stdout, FsDownloadRequest}
use nobase_agent.Proto.Wire.{Wire}
use nobase_agent.FileSystem.{Bytes}
use nobase_agent.Upload.{unwrap_or_false}
use nobase_agent.Listing.{Output, printed, refused, unrunnable}
use nobase_agent.Streams.{
  Turn, Exit, exited, lost, chunk, behind, data_message, end_message, text_of,
}

abbrev pub download_chunk_size : ℕ
download_chunk_size = 64 * 1024

-- What the loop has sent, and what it came to unless it still runs.
pub record Progress : Type 0 where
  pub sent : List String
  pub result : Option (Result String (Unit {0}))

abbrev stopped : Result String (Unit {0}) → Progress
stopped r = record { sent = []; result = some r }

-- What the machine does to a download: the size, the opening of the file or of the pipe of `sudo cat`
-- with the bytes that are there, the turns of the loop, the wait for `sudo cat`, and whether the
-- channel takes the end.
pub record Source : Type 0 where
  pub stat : Output
  pub metadata : Result String ℕ
  pub opening : Result String Bytes
  pub turns : List Turn
  pub waiting : Exit
  pub receiving : Bool

module _ (wire : Wire) (encode : Bytes → String) (print : ℤ → String) where
  open wire use {Value, string, object, boolean, number}

  -- The read loop that both forms of a download have.
  unfoldable pub stream_loop : String → List Turn → Bytes → Progress
  unfolding data_message
  stream_loop transfer_id [] rest = record { sent = []; result = none }
  stream_loop transfer_id (t ∷ turns) rest = elim t.outcome [
    | err e ↦ stopped (err e)
    | ok limit ↦
        let more = stream_loop transfer_id turns (behind download_chunk_size limit rest) in
        elim (chunk download_chunk_size limit rest) [
          | [] ↦ stopped (ok tt)
          | b ∷ bytes ↦
              elim (wire.print_request (data_message wire encode transfer_id stdout (b ∷ bytes))) [
                | err e ↦ stopped (err e)
                | ok msg ↦
                    if t.receiving
                    then record { sent = msg ∷ more.sent; result = more.result }
                    else stopped (err "Send error: channel closed")
              ]
        ]
  ]

  unfoldable pub stream_file_direct : String → Source → Progress
  unfolding stream_loop
  stream_file_direct transfer_id source = elim source.opening [
    | err e ↦ stopped (err e)
    | ok bytes ↦ stream_loop transfer_id source.turns bytes
  ]

  unfoldable pub cat_result : Exit → Result String (Unit {0})
  cat_result (lost e) = err e
  cat_result (exited none) = err ("sudo cat exited with code " <> print (neg 1))
  cat_result (exited (some (pos zero))) = ok tt
  cat_result (exited (some code)) = err ("sudo cat exited with code " <> print code)

  -- The status of `sudo cat` counts once its output was read to the end.
  unfoldable pub after_cat : Exit → Progress → Progress
  unfolding cat_result
  after_cat exit p = elim p.result [
    | none ↦ p
    | some (err e) ↦ p
    | some (ok u) ↦ record { sent = p.sent; result = some (cat_result exit) }
  ]

  unfoldable pub stream_file_sudo : String → Source → Progress
  unfolding stream_file_direct after_cat
  stream_file_sudo transfer_id source =
      after_cat source.waiting (stream_file_direct transfer_id source)

  unfoldable pub stream_file : Bool → String → Source → Progress
  unfolding stream_file_sudo
  stream_file sudo transfer_id source =
      if sudo then stream_file_sudo transfer_id source else stream_file_direct transfer_id source

  unfoldable pub download_code : Result String (Unit {0}) → ℤ
  download_code (ok u) = pos 0
  download_code (err e) = neg 1

  -- What the task sends behind the messages of the loop, once that has ended.
  unfoldable pub with_end : String → Bool → Progress → List String
  unfolding download_code end_message
  with_end transfer_id receiving p = elim p.result [
    | none ↦ p.sent
    | some r ↦
        if receiving
        then p.sent
          ++ text_of wire encode (end_message wire encode transfer_id (download_code r)) ∷ []
        else p.sent
  ]

  -- The background task: the messages that it puts into the channel.
  unfoldable pub download_task : Bool → String → Source → List String
  unfolding stream_file with_end
  download_task sudo transfer_id source =
      with_end transfer_id source.receiving (stream_file sudo transfer_id source)

  unfoldable pub file_size : Bool → Source → Result Failure ℕ
  file_size true source = elim source.stat [
    | printed text ↦ ok (unwrap_or 0 (parse_u64 (trim text)))
    | refused message ↦ err (fault command_failed ("stat failed: " <> message))
    | unrunnable e ↦ err (fault command_failed ("Failed to stat file: " <> e))
  ]
  file_size false source =
      map_err (λ e. fault command_failed ("File not found: " <> e)) source.metadata

  -- The payload of the response, and the messages of the task, which is started only then.
  unfoldable pub download : Source → FsDownloadRequest → Result Failure Value × List String
  unfolding file_size download_task
  download source req =
      let sudo = unwrap_or_false req.sudo in
      elim (file_size sudo source) [
        | err f ↦ (err f, [])
        | ok size ↦ (
          ok (
              object (
                ("streaming", boolean true)
                ∷ ("transfer_id", string req.transfer_id)
                ∷ ("size", number (pos size))
                ∷ [])),
          download_task sudo req.transfer_id source,
        )
      ]

  unfoldable pub handle_fs_download : Source → String → Value → RpcResponse Value × List String
  unfolding download
  handle_fs_download source id params = elim (wire.fs_download params) [
    | err e ↦ (respond id (err (fault invalid_params ("Invalid params: " <> e))), [])
    | ok req ↦ let (r, messages) = download source req in (respond id r, messages)
  ]
