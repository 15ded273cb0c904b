-- ===== src/Dispatch/Answered.antt =====
-- The responses that a connection sends, src/connection.rs and src/dispatcher.rs, against the requests
-- that arrive.
use mathlib.Core.List.{Perm}
use nobase_agent.Prelude.{
  ℕ, ◌+◌, String, ◌≡◌, refl, sym, subst, true, false, List, [], ◌∷◌, ◌++◌, map, Result, ok, err,
  inl, inr, arith, Option-cases, All, if◌then◌else◌, length, length-append,
}
use nobase_agent.Proto.Rpc.{RpcResponse, RpcMessage, request, response}
use nobase_agent.Config.{SaveFaults}
use nobase_agent.Dispatch.{Libraries, AgentState}
use nobase_agent.Dispatch.Routes.{dispatch_request}
use nobase_agent.Dispatch.Merged.{Merged, length-pick}
use nobase_agent.Dispatch.Trace.{
  request_ids, reply_ids, open_ids, reply_text, parsed_request, brought, stays_open, arrived, noted,
  notes, IsReceived, Prints, connected,
}
use nobase_agent.Dispatch.Settling.{Settled, unchanged, Settled-trans, advance-Settled}
use nobase_agent.Dispatch.Receive.{
  text, closed, broken, other, pick, Session, SessionEvent, arrives, dispatches, replies, goes_on,
  puts, receive, receive_message, dispatch_task, send_reply, go_on_picked, advance, session,
}

module _ (libraries : Libraries) where
  open libraries use {wire}

  is_open-message :
      (m : Result String (RpcMessage wire.Value)) (f : SaveFaults) (s : Session libraries)
      → (receive_message libraries f m s).is_open ≡ s.is_open
  unfolding receive_message
  is_open-message (err e) f s = refl
  is_open-message (ok (request r)) f s = refl
  is_open-message (ok (response r)) f s = refl

  is_open-advance :
      (e : SessionEvent libraries) (s : Session libraries)
      → (advance libraries e s).is_open ≡ stays_open libraries e s.is_open
  unfolding advance receive dispatch_task send_reply go_on_picked
  is_open-advance (arrives (text t) f) s =
      let m = wire.parse_message t in
      elim s.is_open
        as (λ b. (if b then receive_message libraries f m s else s).is_open ≡ s.is_open) [
          | true ↦ is_open-message m f s
          | false ↦ refl
        ]
  is_open-advance (arrives closed f) s = refl
  is_open-advance (arrives (broken e) f) s = refl
  is_open-advance (arrives other f) s = refl
  is_open-advance (dispatches n o) s = elim (Option-cases (pick n s.pending)) [
    | inl p ↦ rw (p, dispatch_task) refl
    | inr (q, p) ↦ rw (p, dispatch_task) refl
  ]
  is_open-advance (replies n receiving) s = elim (Option-cases (pick n s.answered)) [
    | inl p ↦ rw (p, send_reply) refl
    | inr (q, p) ↦ rw (p, send_reply) refl
  ]
  is_open-advance (goes_on n progress) s = elim (Option-cases (pick n s.running)) [
    | inl p ↦ rw (p, go_on_picked) refl
    | inr (q, p) ↦ rw (p, go_on_picked) refl
  ]
  is_open-advance (puts msg) s = refl

  -- The tasks of requests, before and after their dispatch.
  abbrev tasks : Session libraries → ℕ
  tasks s = length s.running + length s.pending

  tasks-message :
      (m : Result String (RpcMessage wire.Value)) (f : SaveFaults) (s : Session libraries)
      → tasks (receive_message libraries f m s) ≡ tasks s + length (parsed_request libraries m)
  unfolding receive_message
  tasks-message (err e) f s = omega arith
  tasks-message (ok (response r)) f s = omega arith
  tasks-message (ok (request r)) f s = omega (arith, length-append s.pending (r ∷ []))

  tasks-advance :
      (e : SessionEvent libraries) (s : Session libraries)
      → tasks (advance libraries e s) ≡ tasks s + length (brought libraries e s.is_open)
  unfolding advance receive dispatch_task send_reply go_on_picked
  tasks-advance (arrives (text t) f) s =
      let m = wire.parse_message t in
      elim s.is_open
        as (λ b.
          tasks (if b then receive_message libraries f m s else s)
          ≡ tasks s + length (if b then parsed_request libraries m else [])) [
            | true ↦ tasks-message m f s
            | false ↦ omega arith
          ]
  tasks-advance (arrives closed f) s = omega arith
  tasks-advance (arrives (broken e) f) s = omega arith
  tasks-advance (arrives other f) s = omega arith
  tasks-advance (dispatches n o) s = elim (Option-cases (pick n s.pending)) [
    | inl p ↦ rw (p, dispatch_task) (omega arith)
    | inr ((r, rest), p) ↦
        let b = (dispatch_request libraries o r s.state).1.1 in
        rw (p, dispatch_task)
          (omega (arith, length-append s.running (b ∷ []), length-pick n s.pending (r, rest) p))
  ]
  tasks-advance (replies n receiving) s = elim (Option-cases (pick n s.answered)) [
    | inl p ↦ rw (p, send_reply) (omega arith)
    | inr (q, p) ↦ rw (p, send_reply) (omega arith)
  ]
  tasks-advance (goes_on n progress) s = elim (Option-cases (pick n s.running)) [
    | inl p ↦ rw (p, go_on_picked) (omega arith)
    | inr (q, p) ↦ rw (p, go_on_picked) (omega (arith, length-pick n s.running q p))
  ]
  tasks-advance (puts msg) s = omega arith

  tasks-session :
      (events : List (SessionEvent libraries)) (s : Session libraries)
      → tasks (session libraries events s) ≡ tasks s + length (arrived libraries s.is_open events)
  unfolding session
  tasks-session [] s = omega arith
  tasks-session (e ∷ events) s =
      let t = advance libraries e s in
      let rest =
        subst
          (λ b. tasks (session libraries events t) ≡ tasks t + length (arrived libraries b events))
          (is_open-advance e s) (tasks-session events t) in
      omega (
        arith,
        rest,
        tasks-advance e s,
        length-append (brought libraries e s.is_open)
            (arrived libraries (stays_open libraries e s.is_open) events),
      )

  session-Settled :
      (events : List (SessionEvent libraries)) (s : Session libraries)
      → Prints libraries
      → All (IsReceived libraries) events
      → Settled libraries s
          (arrived libraries s.is_open events)
          (notes libraries events s)
          (session libraries events s)
  unfolding session
  session-Settled [] s prints h = unchanged libraries s
  session-Settled (e ∷ events) s prints (h, all) =
      let t = advance libraries e s in
      Settled-trans libraries s t (session libraries events t) (brought libraries e s.is_open)
        (arrived libraries (stays_open libraries e s.is_open) events) (noted libraries e s)
        (notes libraries events t) (advance-Settled libraries e s prints h)
        (subst
          (λ b.
            Settled libraries t (arrived libraries b events) (notes libraries events t)
              (session libraries events t))
          (is_open-advance e s) (session-Settled events t prints all))

  -- Whatever arrives over a connection, whatever fails, and in whatever order the tasks go on: the channel
  -- holds the texts of responses, and in between, in their order, exactly those that the tasks which the
  -- handlers leave running and the other tasks have put there. The ids of these responses, and those of
  -- the requests whose responses are not there yet, are the ids of the requests that arrived before the
  -- loop ended, each as often. The tasks that dispatches have left and the requests that are not dispatched
  -- yet are together as many as these requests. Responses print, and the channel is open for each of them.
  pub session_lem :
      (events : List (SessionEvent libraries)) (state : AgentState libraries)
      → ((a : RpcResponse wire.Value) → (s : String) × (wire.print_response a ≡ ok s))
      → All (IsReceived libraries) events
      → let s = connected libraries state in
        let u = session libraries events s in
        (answers : List (RpcResponse wire.Value)) × Merged
          (map (reply_text libraries) answers)
          (notes libraries events s)
          u.sent
        × Perm
            (reply_ids libraries answers ++ open_ids libraries u)
            (request_ids libraries (arrived libraries true events))
        × (length u.running + length u.pending ≡ length (arrived libraries true events))
  session_lem events state prints h =
      let s = connected libraries state in
      let (answers, added, e, m, p) = session-Settled events s prints h in
      (
        answers,
        subst (λ w. Merged (map (reply_text libraries) answers) (notes libraries events s) w)
            (sym e) m,
        p,
        omega (arith, tasks-session events s),
      )
