-- ===== src/FileAccess.antt =====
-- fs.read and fs.write of src/handlers/fs.rs (`handle_fs_read`, `handle_fs_read_sudo`,
-- `handle_fs_write`).
pub mod RoundTrip
mod Tests
use nobase_agent.Prelude.{
  ℕ, zero, suc, ◌*◌, ◌+◌, String, ◌<>◌, Bool, true, false, Option, none, some, List, [], ◌∷◌, ◌++◌,
  Result, ok, err, length, ltb, if◌then◌else◌, map_err, pos,
}
use nobase_agent.Proto.Rpc.{
  RpcResponse, reply, Failure, fault, respond, command_failed, invalid_params,
}
use nobase_agent.Proto.Methods.{
  FsEncoding, utf8, base64, FsReadRequest, FsReadResponse, FsWriteRequest,
}
use nobase_agent.Proto.Wire.{Wire}
use nobase_agent.FileSystem.{Bytes, FileSystem, look, put}
use nobase_agent.Upload.{unwrap_or_false}

abbrev pub max_file_size : ℕ
max_file_size = 100 * 1024 * 1024

-- `String::from_utf8` and `into_bytes`, the crate `base64`, `u32::from_str_radix(_, 8)`, and the
-- print of a number.
pub record Text : Type 0 where
  pub from_utf8 : Bytes → Option String
  pub into_bytes : String → Bytes
  pub encode : Bytes → String
  pub decode : String → Result String Bytes
  pub from_octal : String → Option ℕ
  pub print : ℕ → String

-- The files, and the modes that were asked for, last first; `sudo chmod` gets the text.
pub record Disk : Type 0 where
  pub fs : FileSystem
  pub modes : List (String × ℕ)
  pub sudo_modes : List (String × String)

-- A failed write: the error, and what it leaves in the file, if that was opened.
pub record WriteFault : Type 0 where
  pub message : String
  pub left : Option Bytes

-- How `sudo cat` ends: with its output, with another status and a stderr, or it does not run.
pub data Cat : Type 0 where
  printed : Bytes → Cat
  refused : String → Cat
  unrunnable : String → Cat

-- How `sudo tee` ends: it does not run, its input breaks off, it is waited for in vain, it exits
-- with a code, or a signal kills it. What it leaves in the file.
pub data Tee : Type 0 where
  not_spawned : String → Tee
  broken_off : String → Option Bytes → Tee
  lost : Option Bytes → Tee
  exited : ℕ → Option Bytes → Tee
  killed : Option Bytes → Tee

abbrev pub left_in : String → Option Bytes → FileSystem → FileSystem
left_in path none fs = fs
left_in path (some bytes) fs = put path bytes fs

abbrev pub unwrap_or_default : Option FsEncoding → FsEncoding
unwrap_or_default none = utf8
unwrap_or_default (some encoding) = encoding

module _ (text : Text) where
  -- Bytes as the content of a response: a text that is not UTF-8 goes as base64.
  unfoldable pub render : FsEncoding → Bytes → String × FsEncoding
  render base64 bytes = (text.encode bytes, base64)
  render utf8 bytes = elim (text.from_utf8 bytes) [
    | some s ↦ (s, utf8)
    | none ↦ (text.encode bytes, base64)
  ]

  abbrev pub read_response : FsEncoding → Bytes → ℕ → FsReadResponse
  read_response encoding bytes size =
      let (content, used) = render encoding bytes in
      record { content = content; encoding = used; size = size }

  unfoldable pub read_sudo : FsEncoding → Cat → Result Failure FsReadResponse
  unfolding render
  read_sudo encoding (printed bytes) = ok (read_response encoding bytes (length bytes))
  read_sudo encoding (refused stderr) = err (fault command_failed ("sudo cat failed: " <> stderr))
  read_sudo encoding (unrunnable e) = err (fault command_failed ("exec failed: " <> e))

  -- The read of a file that is not too large. `bytes` is what is there now.
  unfoldable pub read_whole :
      Option String → FsReadRequest → ℕ → Option Bytes → Result Failure FsReadResponse
  unfolding render
  read_whole (some e) req size found =
      err (fault command_failed ("Cannot read '" <> (req.path <> ("': " <> e))))
  read_whole none req size none = err (
      fault command_failed
        ("Cannot read '" <> (req.path <> "': No such file or directory (os error 2)")))
  read_whole none req size (some bytes) =
      ok (read_response (unwrap_or_default req.encoding) bytes size)

  -- The size is asked for first; the file may change before it is read.
  unfoldable pub read_plain :
      (stat read : Option String)
      → FsReadRequest
      → Option Bytes
      → Option Bytes
      → Result Failure FsReadResponse
  unfolding read_whole
  read_plain (some e) read req before now =
      err (fault command_failed ("Cannot stat '" <> (req.path <> ("': " <> e))))
  read_plain none read req none now = err (
      fault command_failed
        ("Cannot stat '" <> (req.path <> "': No such file or directory (os error 2)")))
  read_plain none read req (some bytes) now =
      if ltb max_file_size (length bytes)
      then err (
          fault command_failed (
            "File too large: "
            <> (text.print (length bytes)
                <> (" bytes (max " <> (text.print max_file_size <> ")")))))
      else read_whole read req (length bytes) now

  -- `handle_fs_read`, from the parsed request on. The two disks are those of the two calls.
  unfoldable pub read_file :
      (stat read : Option String)
      → Cat
      → FsReadRequest
      → FileSystem
      → FileSystem
      → Result Failure FsReadResponse
  unfolding read_sudo read_plain
  read_file stat read cat req before now =
      if unwrap_or_false req.sudo
      then read_sudo (unwrap_or_default req.encoding) cat
      else read_plain stat read req (look req.path before) (look req.path now)

  unfoldable pub parse_content : FsEncoding → String → Result Failure Bytes
  parse_content utf8 content = ok (text.into_bytes content)
  parse_content base64 content =
      map_err (λ e. fault invalid_params ("Invalid base64: " <> e)) (text.decode content)

  -- `sudo tee`, and `sudo chmod` with the mode. A tee that was waited for in vain counts as done.
  unfoldable pub write_sudo : Tee → FsWriteRequest → Bytes → Disk → Result Failure ℕ × Disk
  write_sudo (not_spawned e) req bytes d =
      (err (fault command_failed ("Failed to spawn sudo tee: " <> e)), d)
  write_sudo (broken_off e rest) req bytes d = (
    err (fault command_failed ("Write failed: " <> e)),
    record d { fs = left_in req.path rest d.fs },
  )
  write_sudo (lost rest) req bytes d = (
    ok (length bytes),
    record d {
      fs = left_in req.path rest d.fs;
      sudo_modes = elim req.mode [ none ↦ d.sudo_modes | some m ↦ (req.path, m) ∷ d.sudo_modes ];
    },
  )
  write_sudo (exited zero rest) req bytes d = (
    ok (length bytes),
    record d {
      fs = left_in req.path rest d.fs;
      sudo_modes = elim req.mode [ none ↦ d.sudo_modes | some m ↦ (req.path, m) ∷ d.sudo_modes ];
    },
  )
  write_sudo (exited (suc n) rest) req bytes d = (
    err (fault command_failed ("sudo tee exited with code " <> text.print (suc n))),
    record d { fs = left_in req.path rest d.fs },
  )
  write_sudo (killed rest) req bytes d = (
    err (fault command_failed "sudo tee exited with code -1"),
    record d { fs = left_in req.path rest d.fs },
  )

  -- `fs::write`, and the mode where it parses.
  unfoldable pub write_plain :
      Option WriteFault → FsWriteRequest → Bytes → Disk → Result Failure ℕ × Disk
  write_plain (some f) req bytes d = (
    err (fault command_failed ("Cannot write '" <> (req.path <> ("': " <> f.message)))),
    record d { fs = left_in req.path f.left d.fs },
  )
  write_plain none req bytes d = (
    ok (length bytes),
    record d {
      fs = put req.path bytes d.fs;
      modes = elim req.mode [
        | none ↦ d.modes
        | some m ↦ elim (text.from_octal m) [ none ↦ d.modes | some n ↦ (req.path, n) ∷ d.modes ]
      ];
    },
  )

  -- `handle_fs_write`, from the parsed request on: the size that it answers with.
  unfoldable pub write_file :
      Option WriteFault → Tee → FsWriteRequest → Disk → Result Failure ℕ × Disk
  unfolding parse_content write_sudo write_plain
  write_file f tee req d = elim (parse_content (unwrap_or_default req.encoding) req.content) [
    | err e ↦ (err e, d)
    | ok bytes ↦
        if ltb max_file_size (length bytes)
        then (
          err (
              fault command_failed (
                "Data too large: "
                <> (text.print (length bytes)
                    <> (" bytes (max " <> (text.print max_file_size <> ")"))))),
          d,
        )
        else if unwrap_or_false req.sudo
        then write_sudo tee req bytes d
        else write_plain f req bytes d
  ]

module _ (wire : Wire) (text : Text) where
  open wire use {Value, number, string, object, boolean}

  abbrev encoding_name : FsEncoding → String
  encoding_name utf8 = "utf8"
  encoding_name base64 = "base64"

  unfoldable pub read_value : FsReadResponse → Value
  read_value r = object (
      ("content", string r.content)
      ∷ ("encoding", string (encoding_name r.encoding))
      ∷ ("size", number (pos r.size))
      ∷ [])

  abbrev invalid : String → Failure
  invalid e = fault invalid_params ("Invalid params: " <> e)

  unfoldable pub handle_fs_read :
      (stat read : Option String)
      → Cat
      → String
      → Value
      → FileSystem
      → FileSystem
      → RpcResponse Value
  unfolding reply read_file read_value
  handle_fs_read stat read cat id params before now =
      reply id (wire.fs_read params) (λ req. read_file text stat read cat req before now) read_value

  unfoldable pub written_value : ℕ → Value
  written_value size = object (("ok", boolean true) ∷ ("size", number (pos size)) ∷ [])

  unfoldable pub handle_fs_write :
      Option WriteFault → Tee → String → Value → Disk → RpcResponse Value × Disk
  unfolding write_file written_value
  handle_fs_write f tee id params d = elim (wire.fs_write params) [
    | err e ↦ (respond id (err (invalid e)), d)
    | ok req ↦
        let (r, d') = write_file text f tee req d in
        (elim r [ err e ↦ respond id (err e) | ok size ↦ respond id (ok (written_value size)) ], d')
  ]
