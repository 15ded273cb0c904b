-- ===== src/Streams/Exec.antt =====
-- src/handlers/exec.rs: `execute_command`, `handle_system_info`, and exec.stream
-- (`handle_exec_stream`), and the `handle_exec` of src/dispatcher.rs.
use nobase_agent.Prelude.{
  ℕ, String, ◌<>◌, Bool, true, false, List, [], ◌∷◌, ◌++◌, Option, none, some, Result, ok, err,
  if◌then◌else◌, ℤ, pos, neg, unwrap_or,
}
use nobase_agent.Prelude.Dict.{Dict}
use nobase_agent.Proto.Rpc.{
  RpcResponse, reply, Failure, fault, respond, command_failed, agent_timeout, invalid_params,
}
use nobase_agent.Proto.Methods.{
  StreamChannel, stdout, stderr, ExecRequest, ExecResponse, ExecStreamRequest, SystemInfoResponse,
}
use nobase_agent.Proto.Wire.{Wire}
use nobase_agent.FileSystem.{Bytes}
use nobase_agent.Upload.{unwrap_or_false}
use nobase_agent.Streams.{Turn, Exit, exit_code, chunk, behind, data_message, end_message, text_of}

-- What the process is started with: the program, its arguments, and what is added to its environment.
pub record Command : Type 0 where
  pub program : String
  pub arguments : List String
  pub environment : Dict String

unfoldable pub build : Option Bool → String → Dict String → Command
build sudo command environment =
    if unwrap_or_false sudo
    then record {
      program = "sudo";
      arguments = "-n" ∷ "sh" ∷ "-c" ∷ command ∷ [];
      environment = environment;
    }
    else record { program = "sh"; arguments = "-c" ∷ command ∷ []; environment = environment }

-- What `timeout(cmd.output())` comes to: the outputs and the code, which a killed process has not; an
-- error of the start or the wait; or nothing in time.
pub data Run : Type 0 where
  output : (out errors : Bytes) → Option ℤ → Run
  failed : String → Run
  elapsed : Run

-- `from_utf8_lossy`, the print of a number, and `base64`.
pub record Printer : Type 0 where
  pub from_utf8_lossy : Bytes → String
  pub print : ℕ → String
  pub encode : Bytes → String

-- `machine` says what becomes of a command within a number of milliseconds, and how long that takes.
unfoldable pub execute :
    Printer → (Command → ℕ → Run × ℕ) → ExecRequest → Result Failure ExecResponse
unfolding build
execute text machine req =
    let timeout_ms = unwrap_or 30000 req.timeout_ms in
    let (run, duration_ms) =
      machine (build req.sudo req.command (unwrap_or [] req.env)) timeout_ms in
    elim run [
      | output out errors code ↦ ok (record {
        stdout = text.from_utf8_lossy out;
        stderr = text.from_utf8_lossy errors;
        exit_code = unwrap_or (neg 1) code;
        duration_ms = duration_ms;
      })
      | failed e ↦ err (fault command_failed ("Command execution failed: " <> e))
      | elapsed ↦
          err (fault agent_timeout ("Command timed out after " <> (text.print timeout_ms <> "ms")))
    ]

-- What the calls of `hostname`, `sysinfo` and `std::env::consts` return.
pub record HostInfo : Type 0 where
  pub hostname : Result String String
  pub os_type : String
  pub os_version : Option String
  pub kernel_version : Option String
  pub arch : String
  pub uptime : ℕ

unfoldable pub system_info : HostInfo → SystemInfoResponse
system_info m = record {
  hostname = elim m.hostname [ ok h ↦ h | err e ↦ "unknown" ];
  os_type = m.os_type;
  os_version = unwrap_or "unknown" m.os_version;
  kernel = unwrap_or "unknown" m.kernel_version;
  arch = m.arch;
  uptime_secs = m.uptime;
}

-- A reader of one output of the child: the bytes that are to come, or those that it did not read when it ended.
pub data OutputReader : Type 0 where
  reading : Bytes → OutputReader
  ended : Bytes → OutputReader

-- The background task of exec.stream: its two readers, what is in the channel, and whether it is done.
pub record Task : Type 0 where
  pub out : OutputReader
  pub errors : OutputReader
  pub sent : List String
  pub is_done : Bool

-- What happens next to a task: a turn of one of its readers, or the exit of the child, after which the
-- channel takes the end or is closed.
pub data Event : Type 0 where
  turns : StreamChannel → Turn → Event
  exits : Exit → Bool → Event

abbrev pub reader_of : StreamChannel → Task → OutputReader
reader_of stdout s = s.out
reader_of stderr s = s.errors

abbrev pub with_reader : StreamChannel → OutputReader → List String → Task → Task
with_reader stdout r messages s = record s { out = r; sent = s.sent ++ messages }
with_reader stderr r messages s = record s { errors = r; sent = s.sent ++ messages }

abbrev pub buffer_size : ℕ
buffer_size = 4096

module _ (wire : Wire) (encode : Bytes → String) where
  open wire use {Value, string, object, boolean, number}

  -- A turn of a read loop: the reader after it and what it has sent.
  unfoldable pub output_turn : String → StreamChannel → Turn → Bytes → OutputReader × List String
  unfolding data_message
  output_turn stream_id channel t rest = elim t.outcome [
    | err e ↦ (ended rest, [])
    | ok limit ↦ elim (chunk buffer_size limit rest) [
      | [] ↦ (ended rest, [])
      | b ∷ bytes ↦
          if t.receiving
          then (
            reading (behind buffer_size limit rest),
            text_of wire encode (data_message wire encode stream_id channel (b ∷ bytes)) ∷ [],
          )
          else (ended rest, [])
    ]
  ]

  unfoldable pub reader_turn : String → StreamChannel → Turn → Task → Task
  unfolding output_turn
  reader_turn stream_id channel t s = elim (reader_of channel s) [
    | ended rest ↦ s
    | reading rest ↦
        let (r, messages) = output_turn stream_id channel t rest in with_reader channel r messages s
  ]

  -- The end is sent once both readers have ended and the child has exited.
  unfoldable pub end_task : String → Exit → Bool → Task → Task
  unfolding end_message exit_code
  end_task stream_id exit receiving s = elim s.out [
    | reading rest ↦ s
    | ended rest ↦ elim s.errors [
      | reading more ↦ s
      | ended more ↦ if s.is_done then s else record s {
        is_done = true;
        sent =
            if receiving
            then s.sent
              ++ text_of wire encode (end_message wire encode stream_id (exit_code exit)) ∷ []
            else s.sent;
      }
    ]
  ]

  unfoldable pub step : String → Event → Task → Task
  unfolding reader_turn end_task
  step stream_id (turns channel t) s = reader_turn stream_id channel t s
  step stream_id (exits exit receiving) s = end_task stream_id exit receiving s

  unfoldable pub run : String → List Event → Task → Task
  unfolding step
  run stream_id [] s = s
  run stream_id (e ∷ events) s = run stream_id events (step stream_id e s)

  -- A task whose child has just been started, and is to print two outputs.
  abbrev pub started : Bytes → Bytes → Task
  started out errors = record {
    out = reading out;
    errors = reading errors;
    sent = [];
    is_done = false;
  }

  -- The payload of the response, and the task that runs on.
  unfoldable pub exec_stream :
      (Command → Result String (Bytes × Bytes)) → ExecStreamRequest → Result Failure (Value × Task)
  unfolding build
  exec_stream spawn req = elim (spawn (build req.sudo req.command [])) [
    | err e ↦ err (fault (neg 1) ("Failed to spawn command: " <> e))
    | ok (out, errors) ↦ ok (
      object (("streaming", boolean true) ∷ ("stream_id", string req.stream_id) ∷ []),
      started out errors,
    )
  ]

  abbrev invalid : String → Failure
  invalid e = fault invalid_params ("Invalid params: " <> e)

  unfoldable pub handle_exec_stream :
      (Command → Result String (Bytes × Bytes)) → String → Value → RpcResponse Value × Option Task
  unfolding exec_stream
  handle_exec_stream spawn id params = elim (wire.exec_stream params) [
    | err e ↦ (respond id (err (invalid e)), none)
    | ok req ↦ elim (exec_stream spawn req) [
      | err f ↦ (respond id (err f), none)
      | ok (v, task) ↦ (respond id (ok v), some task)
    ]
  ]

  unfoldable pub exec_value : ExecResponse → Value
  exec_value r = object (
      ("stdout", string r.stdout)
      ∷ ("stderr", string r.stderr)
      ∷ ("exit_code", number r.exit_code)
      ∷ ("duration_ms", number (pos r.duration_ms))
      ∷ [])

  -- `handle_exec` of src/dispatcher.rs
  unfoldable pub handle_exec :
      Printer → (Command → ℕ → Run × ℕ) → String → Value → RpcResponse Value
  unfolding reply execute exec_value
  handle_exec text machine id params = reply id (wire.exec params) (execute text machine) exec_value

  unfoldable pub system_info_value : SystemInfoResponse → Value
  system_info_value r = object (
      ("hostname", string r.hostname)
      ∷ ("os_type", string r.os_type)
      ∷ ("os_version", string r.os_version)
      ∷ ("kernel", string r.kernel)
      ∷ ("arch", string r.arch)
      ∷ ("uptime_secs", number (pos r.uptime_secs))
      ∷ [])

  unfoldable pub handle_system_info : HostInfo → String → RpcResponse Value
  unfolding system_info system_info_value
  handle_system_info host id = respond id (ok (system_info_value (system_info host)))
