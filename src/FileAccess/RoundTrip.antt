-- ===== src/FileAccess/RoundTrip.antt =====
-- fs.write and then fs.read of a file, src/handlers/fs.rs.
use nobase_agent.Prelude.{
  ◌≤◌, ◌<◌, String, ◌<>◌, ◌≡◌, refl, ap, true, false, Option, none, some, Result, ok, err, length,
  ltb, arith, Option-cases, inl, inr,
}
use nobase_agent.Proto.Rpc.{Failure, fault, command_failed}
use nobase_agent.Proto.Methods.{
  FsEncoding, utf8, base64, FsReadRequest, FsReadResponse, FsWriteRequest,
}
use nobase_agent.FileSystem.{Bytes, FileSystem, look, put, look-put}
use nobase_agent.Upload.{unwrap_or_false}
use nobase_agent.FileAccess.{
  Text, Disk, WriteFault, Cat, Tee, max_file_size, unwrap_or_default, render, read_response,
  read_whole, read_plain, read_file, parse_content, write_plain, write_file,
}

-- The encodings give these bytes back.
pub record Restores (text : Text) (bytes : Bytes) : Type 0 where
  pub decode-encode : text.decode (text.encode bytes) ≡ ok bytes
  pub into_bytes-from_utf8 :
      (s : String) → text.from_utf8 bytes ≡ some s → text.into_bytes s ≡ bytes

module _ (text : Text) where
  parse_content-render :
      (encoding : FsEncoding) (bytes : Bytes)
      → Restores text bytes
      → let (content, used) = render text encoding bytes in
        parse_content text used content ≡ ok bytes
  unfolding render parse_content
  parse_content-render base64 bytes law = rw (law.decode-encode) refl
  parse_content-render utf8 bytes law = elim (Option-cases (text.from_utf8 bytes)) [
    | inl p ↦
        let shown : render text utf8 bytes ≡ (text.encode bytes, base64) = rw (p, render) refl in
        rw (shown, law.decode-encode) refl
    | inr (s, p) ↦
        let shown : render text utf8 bytes ≡ (s, utf8) = rw (p, render) refl in
        rw shown (ap (λ b. ok b) (law.into_bytes-from_utf8 s p))
  ]

  read_there :
      (req : FsReadRequest) (cat : Cat) (bytes : Bytes) (fs : FileSystem)
      → unwrap_or_false req.sudo ≡ false
      → look req.path fs ≡ some bytes
      → length bytes ≤ max_file_size
      → read_file text none none cat req fs fs
        ≡ ok (read_response text (unwrap_or_default req.encoding) bytes (length bytes))
  unfolding read_file read_plain read_whole
  read_there req cat bytes fs plain there small =
      let fits : ltb max_file_size (length bytes) ≡ false = ground arith in
      rw (plain, read_file, there, fits) refl

  write_there :
      (req : FsWriteRequest) (tee : Tee) (bytes : Bytes) (d : Disk)
      → unwrap_or_false req.sudo ≡ false
      → parse_content text (unwrap_or_default req.encoding) req.content ≡ ok bytes
      → length bytes ≤ max_file_size
      → write_file text none tee req d ≡ write_plain text none req bytes d
  unfolding write_file
  write_there req tee bytes d plain parsed small =
      let fits : ltb max_file_size (length bytes) ≡ false = ground arith in
      rw (parsed, write_file, fits, plain) refl

  -- A response that a client can turn back into the bytes.
  abbrev pub Carries : Bytes → Result Failure FsReadResponse → Type 0
  Carries bytes (ok response) =
      (parse_content text response.encoding response.content ≡ ok bytes)
      × (response.size ≡ length bytes)
  Carries bytes (err e) = ⊥

  -- Content that is written with nothing failing, and is no longer than 100 MB, is answered with its
  -- size, and a read of the path with nothing failing, in either encoding, answers with a content
  -- that parses back to the same bytes, and with their size. Neither is with sudo, and base64 and
  -- UTF-8 give the bytes back.
  pub read_file-write_file :
      (put_req : FsWriteRequest) (get_req : FsReadRequest) (tee : Tee) (cat : Cat) (bytes : Bytes)
      (d : Disk)
      → parse_content text (unwrap_or_default put_req.encoding) put_req.content ≡ ok bytes
      → length bytes ≤ max_file_size
      → unwrap_or_false put_req.sudo ≡ false
      → unwrap_or_false get_req.sudo ≡ false
      → get_req.path ≡ put_req.path
      → Restores text bytes
      → let (answer, after) = write_file text none tee put_req d in
        (answer ≡ ok (length bytes))
        × Carries bytes (read_file text none none cat get_req after.fs after.fs)
  unfolding write_plain
  read_file-write_file put_req get_req tee cat bytes d parsed small plain plain' same law =
      let there : look get_req.path (put put_req.path bytes d.fs) ≡ some bytes =
        rw same (look-put put_req.path bytes d.fs) in
      rw
        (
          write_there put_req tee bytes d plain parsed small,
          read_there get_req cat bytes (put put_req.path bytes d.fs) plain' there small,
        )
        (refl, (parse_content-render (unwrap_or_default get_req.encoding) bytes law, refl))

  -- Content longer than 100 MB is refused and nothing is touched, and a file that is longer when its
  -- size is asked for is not read, whatever fails otherwise.
  pub read_file-write_file_large :
      (f : Option WriteFault) (put_req : FsWriteRequest) (get_req : FsReadRequest) (tee : Tee)
      (cat : Cat) (failure : Option String) (bytes large : Bytes) (d : Disk) (now : FileSystem)
      → parse_content text (unwrap_or_default put_req.encoding) put_req.content ≡ ok bytes
      → max_file_size < length bytes
      → unwrap_or_false get_req.sudo ≡ false
      → look get_req.path d.fs ≡ some large
      → max_file_size < length large
      → (write_file text f tee put_req d ≡ (
        err (
            fault command_failed (
              "Data too large: "
              <> (text.print (length bytes)
                  <> (" bytes (max " <> (text.print max_file_size <> ")"))))),
        d,
      ))
        × (read_file text none failure cat get_req d.fs now
            ≡ err (
                fault command_failed (
                  "File too large: "
                  <> (text.print (length large)
                      <> (" bytes (max " <> (text.print max_file_size <> ")"))))))
  unfolding write_file read_file read_plain
  read_file-write_file_large f put_req get_req tee cat failure bytes large d now parsed long plain
        there long' =
      let over : ltb max_file_size (length bytes) ≡ true = ground arith in
      let over' : ltb max_file_size (length large) ≡ true = ground arith in
      (rw (parsed, write_file, over) refl, rw (plain, read_file, there, over') refl)
