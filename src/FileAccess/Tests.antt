-- ===== src/FileAccess/Tests.antt =====
-- Runs of fs.read and fs.write of src/handlers/fs.rs, and the theorems at concrete files.
use nobase_agent.Prelude.{◌≡◌, refl, none, some, [], ◌∷◌, ok, err, arith, if◌then◌else◌, ◌==ₛ◌}
use nobase_agent.Proto.Methods.{base64, FsReadRequest, FsWriteRequest}
use nobase_agent.FileAccess.{
  Text, Disk, printed, exited, parse_content, write_file, read_file, write_plain,
}
use nobase_agent.FileAccess.RoundTrip.{Restores, Carries, read_file-write_file}

abbrev text : Text
text = record {
  from_utf8 = λ bytes. none;
  into_bytes = λ s. if s ==ₛ "hi" then 104 ∷ 105 ∷ [] else [];
  encode = λ bytes. "aGk=";
  decode = λ s. if s ==ₛ "aGk=" then ok (104 ∷ 105 ∷ []) else err "Invalid byte";
  from_octal = λ s. some 420;
  print = λ n. "n";
}

abbrev disk : Disk
disk = record {
  fs = record { names = []; contents = λ i. []; next = 0 };
  modes = [];
  sudo_modes = [];
}

abbrev put_req : FsWriteRequest
put_req = record {
  path = "/a";
  content = "aGk=";
  encoding = some base64;
  sudo = none;
  mode = some "644";
}

abbrev get_req : FsReadRequest
get_req = record { path = "/a"; encoding = none; sudo = none }

mode_run : (write_file text none (exited 0 none) put_req disk).1.modes ≡ ("/a", 420) ∷ []
unfolding write_file parse_content write_plain
mode_run = refl

restores : Restores text (104 ∷ 105 ∷ [])
restores = record { decode-encode = refl; into_bytes-from_utf8 = λ s h. absurd (ground arith) }

read_file-write_file_example :
    let (answer, after) = write_file text none (exited 0 none) put_req disk in
    (answer ≡ ok 2)
    × Carries text
        (104 ∷ 105 ∷ [])
        (read_file text none none (printed []) get_req after.fs after.fs)
unfolding parse_content
read_file-write_file_example =
    read_file-write_file text put_req get_req (exited 0 none) (printed []) (104 ∷ 105 ∷ []) disk
      refl (omega arith) refl refl refl restores
