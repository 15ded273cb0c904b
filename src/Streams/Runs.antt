-- ===== src/Streams/Runs.antt =====
-- The messages of exec.stream in any order of what happens, src/handlers/exec.rs.
use nobase_agent.Prelude.{
  String, ◌≡◌, refl, ◌∙◌, ap, Bool, true, false, List, [], ◌∷◌, ◌++◌, inl, inr, map,
}
use nobase_agent.Proto.Methods.{StreamChannel}
use nobase_agent.Proto.Wire.{Wire}
use nobase_agent.FileSystem.{Bytes}
use nobase_agent.Streams.{Turn, Exit, exit_code}
use nobase_agent.Streams.Exec.{
  OutputReader, reading, ended, Task, Event, turns, exits, reader_of, with_reader, output_turn,
  reader_turn, end_task, step, run, started,
}
use nobase_agent.Streams.Channels.{text_nil}
use nobase_agent.Streams.Order.{
  chunk_text, end_text, Interleaved, Turned, no_tail, output_turn-Turned, sends, stops,
}

module _ (wire : Wire) (encode : Bytes → String) where
  reader_turn-Interleaved :
      (stream_id : String) (channel : StreamChannel) (t : Turn) (out errors : Bytes) (s : Task)
      → Interleaved wire encode stream_id out errors s
      → Interleaved wire encode stream_id out errors (reader_turn wire encode stream_id channel t s)
  unfolding reader_turn
  reader_turn-Interleaved stream_id channel t out errors s m = go (reader_of channel s) refl
    where
      turned :
          (rest : Bytes) (p : OutputReader × List String)
          → reader_of channel s ≡ reading rest
          → Turned wire encode stream_id channel rest p
          → Interleaved wire encode stream_id out errors (with_reader channel p.0 p.1 s)
      turned rest (r, messages) e (inl (n, w)) =
          rw n (stops wire encode stream_id channel out errors rest r s e w m)
      turned rest (r, messages) e (inr (c, n, w, z)) =
          rw n (sends wire encode stream_id channel out errors c rest r s e w z m)

      go :
          (r : OutputReader)
          → reader_of channel s ≡ r
          → Interleaved wire encode stream_id out errors
              (reader_turn wire encode stream_id channel t s)
      go (ended rest) e = rw (e, reader_turn) m
      go (reading rest) e =
          rw (e, reader_turn)
            (turned rest (output_turn wire encode stream_id channel t rest) e
              (output_turn-Turned wire encode stream_id channel t rest))

  finished :
      (stream_id : String) (exit : Exit) (receiving : Bool) (out errors a b : Bytes) (s : Task)
      → s.out ≡ ended a
      → s.errors ≡ ended b
      → s.is_done ≡ false
      → Interleaved wire encode stream_id out errors s
      → Interleaved wire encode stream_id out errors
          (end_task wire encode stream_id exit receiving s)
  unfolding end_task
  finished stream_id exit false out errors a b s o e d m =
      let empty = no_tail wire encode stream_id s.is_done m.tail d m.last in
      rw (o, end_task, e, d)
        (record {
          chunks = m.chunks;
          tail = m.tail;
          sent = m.sent;
          out_whole = m.out_whole;
          errors_whole = m.errors_whole;
          sized = m.sized;
          last = inl empty;
          after = inr (a, b, o, e);
        })
  finished stream_id exit true out errors a b s o e d m =
      let empty = no_tail wire encode stream_id s.is_done m.tail d m.last in
      let last = end_text wire encode stream_id (exit_code exit) ∷ [] in
      rw (o, end_task, e, d)
        (record {
          chunks = m.chunks;
          tail = last;
          sent =
              ap (λ x. x ++ last)
                (m.sent
                  ∙ ap (λ x. map (chunk_text wire encode stream_id) m.chunks ++ x) empty
                  ∙ text_nil (map (chunk_text wire encode stream_id) m.chunks));
          out_whole = m.out_whole;
          errors_whole = m.errors_whole;
          sized = m.sized;
          last = inr (exit_code exit, refl);
          after = inr (a, b, o, e);
        })

  end_task-Interleaved :
      (stream_id : String) (exit : Exit) (receiving : Bool) (out errors : Bytes) (s : Task)
      → Interleaved wire encode stream_id out errors s
      → Interleaved wire encode stream_id out errors
          (end_task wire encode stream_id exit receiving s)
  unfolding end_task
  end_task-Interleaved stream_id exit receiving out errors s m =
      go s.out s.errors s.is_done refl refl refl
    where
      go :
          (r q : OutputReader) (d : Bool)
          → s.out ≡ r
          → s.errors ≡ q
          → s.is_done ≡ d
          → Interleaved wire encode stream_id out errors
              (end_task wire encode stream_id exit receiving s)
      go (reading rest) q d o e f = rw (o, end_task) m
      go (ended a) (reading rest) d o e f = rw (o, end_task, e) m
      go (ended a) (ended b) true o e f = rw (o, end_task, e) (simp f m)
      go (ended a) (ended b) false o e f =
          finished stream_id exit receiving out errors a b s o e f m

  pub run-Interleaved :
      (stream_id : String) (events : List Event) (out errors : Bytes) (s : Task)
      → Interleaved wire encode stream_id out errors s
      → Interleaved wire encode stream_id out errors (run wire encode stream_id events s)
  unfolding run step
  run-Interleaved stream_id [] out errors s m = m
  run-Interleaved stream_id (turns channel t ∷ events) out errors s m =
      run-Interleaved stream_id events out errors (reader_turn wire encode stream_id channel t s)
        (reader_turn-Interleaved stream_id channel t out errors s m)
  run-Interleaved stream_id (exits exit receiving ∷ events) out errors s m =
      run-Interleaved stream_id events out errors (end_task wire encode stream_id exit receiving s)
        (end_task-Interleaved stream_id exit receiving out errors s m)

  pub started-Interleaved :
      (stream_id : String) (out errors : Bytes)
      → Interleaved wire encode stream_id out errors (started wire encode out errors)
  started-Interleaved stream_id out errors = record {
    chunks = [];
    tail = [];
    sent = refl;
    out_whole = refl;
    errors_whole = refl;
    sized = tt;
    last = refl;
    after = inl refl;
  }

  -- Whatever order the turns of the two readers and the exit of the child come in, and whatever fails,
  -- the channel of exec.stream holds chunks of 1 to 4096 bytes, of which each output's are its
  -- beginning in order, and behind them at most one end, not before both readers have ended.
  pub run_interleaves :
      (stream_id : String) (events : List Event) (out errors : Bytes)
      → Interleaved wire encode stream_id out errors
          (run wire encode stream_id events (started wire encode out errors))
  run_interleaves stream_id events out errors =
      run-Interleaved stream_id events out errors (started wire encode out errors)
        (started-Interleaved stream_id out errors)
