-- ===== src/Dispatch/Settling.antt =====
-- What each step of a session, src/connection.rs, does to the channel and to the requests that wait.
use mathlib.Core.List.{Perm, append-nil, append_assoc}
use mathlib.Core.List.Perm
use nobase_agent.Prelude.{
  String, ◌≡◌, refl, ◌∙◌, sym, ap, subst, Bool, true, false, List, [], ◌∷◌, ◌++◌, map, Option, none,
  some, Result, ok, err, if◌then◌else◌,
}
use nobase_agent.Proto.Rpc.{RpcRequest, RpcResponse, RpcMessage, request, response}
use nobase_agent.Config.{SaveFaults}
use nobase_agent.Dispatch.{Libraries, Outcomes}
use nobase_agent.Dispatch.Routes.{Background, idle, messages, streaming, dispatch_request}
use nobase_agent.Dispatch.Replies.{dispatch_request-Answers}
use nobase_agent.Dispatch.Merged.{Merged, empty, left, Merged-append, Merged-right, pick-Perm}
use nobase_agent.Dispatch.Trace.{
  id_of, request_ids, reply_ids, open_ids, reply_text, parsed_request, brought, went_on, turn_of,
  noted, IsReceived, Prints,
}
use nobase_agent.Dispatch.Receive.{
  text, closed, broken, other, pick, TaskStep, Session, SessionEvent, arrives, dispatches, replies,
  goes_on, puts, next_message, stream_event, receive, receive_message, dispatch_task, send_reply,
  go_on, go_on_picked, advance, append_reply,
}

map_append : {A B : Type 0} (f : A → B) (xs ys : List A) → map f (xs ++ ys) ≡ map f xs ++ map f ys
map_append f [] ys = refl
map_append f (x ∷ xs) ys = ap (λ w. f x ∷ w) (map_append f xs ys)

module _ (libraries : Libraries) where
  open libraries use {wire}

  -- What has led from a session to a later one: the channel got responses and these other texts, and the
  -- ids of the responses and the open ids are the open ids of before and those of these requests.
  abbrev pub Settled :
      Session libraries → List (RpcRequest wire.Value) → List String → Session libraries → Type 0
  Settled s more others u =
      (answers : List (RpcResponse wire.Value)) × (added : List String) × (u.sent ≡ s.sent ++ added)
      × Merged (map (reply_text libraries) answers) others added
      × Perm (reply_ids libraries answers ++ open_ids libraries u)
          (open_ids libraries s ++ request_ids libraries more)

  Perm-steps :
      (a b c d es bs ms ns : List String)
      → Perm (es ++ b) (a ++ ms)
      → Perm (bs ++ c) (b ++ ns)
      → d ≡ es ++ bs
      → Perm (d ++ c) (a ++ (ms ++ ns))
  Perm-steps a b c d es bs ms ns p q e =
      subst (λ w. Perm (w ++ c) (a ++ (ms ++ ns))) (sym e)
        (subst (λ w. Perm w (a ++ (ms ++ ns))) (sym (append_assoc es bs c))
          (Perm.trans (Perm.append_left es q) (
            subst (λ w. Perm w (a ++ (ms ++ ns))) (append_assoc es b ns)
              (subst (λ w. Perm ((es ++ b) ++ ns) w) (append_assoc a ms ns)
                (Perm.append_right ns p)))))

  pub Settled-trans :
      (s t u : Session libraries) (more more' : List (RpcRequest wire.Value))
      (others others' : List String)
      → Settled s more others t
      → Settled t more' others' u
      → Settled s (more ++ more') (others ++ others') u
  Settled-trans s t u more more' others others' (es, xs, e, m, p) (bs, ys, f, n, q) = (
    es ++ bs,
    xs ++ ys,
    f ∙ ap (λ w. w ++ ys) e ∙ append_assoc s.sent xs ys,
    subst (λ w. Merged w (others ++ others') (xs ++ ys))
        (sym (map_append (reply_text libraries) es bs)) (Merged-append m n),
    subst
        (λ w.
          Perm (reply_ids libraries (es ++ bs) ++ open_ids libraries u) (open_ids libraries s ++ w))
        (sym (map_append (id_of libraries) more more'))
        (Perm-steps (open_ids libraries s) (open_ids libraries t) (open_ids libraries u)
          (reply_ids libraries (es ++ bs)) (reply_ids libraries es) (reply_ids libraries bs)
          (request_ids libraries more) (request_ids libraries more') p q
          (map_append (λ a. a.id) es bs)),
  )

  -- Nothing was answered.
  unanswered :
      (s t : Session libraries) (others : List String)
      → t.sent ≡ s.sent ++ others
      → Perm (open_ids libraries t) (open_ids libraries s)
      → Settled s [] others t
  unanswered s t others e perm = (
    [],
    others,
    e,
    Merged-right others,
    subst (λ w. Perm (open_ids libraries t) w) (sym (append-nil (open_ids libraries s))) perm,
  )

  pub unchanged : (s : Session libraries) → Settled s [] [] s
  unchanged s = unanswered s s [] (sym (append-nil s.sent)) (Perm.refl (open_ids libraries s))

  message-Settled :
      (m : Result String (RpcMessage wire.Value)) (f : SaveFaults) (s : Session libraries)
      → Settled s (parsed_request libraries m) [] (receive_message libraries f m s)
  unfolding receive_message
  message-Settled (err e) f s = unchanged s
  message-Settled (ok (response r)) f s =
      unanswered s (receive_message libraries f (ok (response r)) s) [] (sym (append-nil s.sent))
        (Perm.refl (open_ids libraries s))
  message-Settled (ok (request r)) f s = (
    [],
    [],
    sym (append-nil s.sent),
    empty,
    subst (λ w. Perm w (open_ids libraries s ++ id_of libraries r ∷ []))
        (append_assoc (reply_ids libraries s.answered) (request_ids libraries s.pending)
            (id_of libraries r ∷ [])
          ∙ ap (λ w. reply_ids libraries s.answered ++ w)
              (sym (map_append (id_of libraries) s.pending (r ∷ []))))
        (Perm.refl (open_ids libraries s ++ id_of libraries r ∷ [])),
  )

  dispatch_task-Settled :
      (o : Outcomes libraries)
      (picked : Option (RpcRequest wire.Value × List (RpcRequest wire.Value)))
      (s : Session libraries)
      → ((p : RpcRequest wire.Value × List (RpcRequest wire.Value))
          → picked ≡ some p
          → Perm (p.0 ∷ p.1) s.pending)
      → Settled s [] [] (dispatch_task libraries o picked s)
  unfolding dispatch_task
  dispatch_task-Settled o none s perm = unchanged s
  dispatch_task-Settled o (some (r, rest)) s perm =
      let a = (dispatch_request libraries o r s.state).0 in
      let ids = reply_ids libraries s.answered in
      let echoes : a.id ≡ id_of libraries r =
        (dispatch_request-Answers libraries o r s.state).echoes in
      let same : ids ++ (id_of libraries r ∷ request_ids libraries rest)
          ≡ reply_ids libraries (s.answered ++ a ∷ []) ++ request_ids libraries rest =
        ap (λ w. ids ++ (w ∷ request_ids libraries rest)) (sym echoes)
        ∙ sym (append_assoc ids (a.id ∷ []) (request_ids libraries rest))
        ∙ ap (λ w. w ++ request_ids libraries rest)
            (sym (map_append (λ b. b.id) s.answered (a ∷ []))) in
      unanswered s (dispatch_task libraries o (some (r, rest)) s) [] (sym (append-nil s.sent)) (
        subst (λ w. Perm w (open_ids libraries s)) same
          (Perm.append_left ids (Perm.map (id_of libraries) (perm (r, rest) refl))))

  reply_appended :
      (a : RpcResponse wire.Value) (receiving : Bool) (sent : List String)
      → Prints libraries
      → receiving ≡ true
      → append_reply (wire.print_response a) receiving sent ≡ sent ++ reply_text libraries a ∷ []
  unfolding append_reply
  reply_appended a receiving sent prints h =
      let (t, p) = prints a in rw (h, p, append_reply, reply_text) refl

  send_reply-Settled :
      (receiving : Bool) (picked : Option (RpcResponse wire.Value × List (RpcResponse wire.Value)))
      (s : Session libraries)
      → Prints libraries
      → receiving ≡ true
      → ((p : RpcResponse wire.Value × List (RpcResponse wire.Value))
          → picked ≡ some p
          → Perm (p.0 ∷ p.1) s.answered)
      → Settled s [] [] (send_reply libraries receiving picked s)
  unfolding send_reply append_reply
  send_reply-Settled receiving none s prints h perm = unchanged s
  send_reply-Settled receiving (some (a, rest)) s prints h perm = (
    a ∷ [],
    reply_text libraries a ∷ [],
    reply_appended a receiving s.sent prints h,
    left (reply_text libraries a) empty,
    subst (λ w. Perm (a.id ∷ (reply_ids libraries rest ++ request_ids libraries s.pending)) w)
        (sym (append-nil (open_ids libraries s)))
        (Perm.append_right (request_ids libraries s.pending)
          (Perm.map (λ b. b.id) (perm (a, rest) refl))),
  )

  go_on-turn_of : (p : TaskStep) (b : Background) → (go_on libraries p b).1 ≡ turn_of libraries p b
  unfolding go_on
  go_on-turn_of next_message idle = refl
  go_on-turn_of next_message (messages []) = refl
  go_on-turn_of next_message (messages (m ∷ more)) = refl
  go_on-turn_of next_message (streaming stream_id task) = refl
  go_on-turn_of (stream_event e) idle = refl
  go_on-turn_of (stream_event e) (messages more) = refl
  go_on-turn_of (stream_event e) (streaming stream_id task) = refl

  go_on_picked-Settled :
      (p : TaskStep) (picked : Option (Background × List Background)) (s : Session libraries)
      → Settled s [] (went_on libraries p picked) (go_on_picked libraries p picked s)
  unfolding go_on_picked
  go_on_picked-Settled p none s = unchanged s
  go_on_picked-Settled p (some (b, rest)) s =
      unanswered s (go_on_picked libraries p (some (b, rest)) s) (turn_of libraries p b)
        (ap (λ w. s.sent ++ w) (go_on-turn_of p b)) (Perm.refl (open_ids libraries s))

  receive-Settled :
      (t : String) (f : SaveFaults) (s : Session libraries)
      → Settled s
          (brought libraries (arrives (text t) f) s.is_open)
          []
          (receive libraries f (text t) s)
  unfolding receive
  receive-Settled t f s =
      let m = wire.parse_message t in
      elim s.is_open
        as (λ b.
          Settled s (if b then parsed_request libraries m else []) []
            (if b then receive_message libraries f m s else s)) [
              | true ↦ message-Settled m f s
              | false ↦ unchanged s
            ]

  pub advance-Settled :
      (e : SessionEvent libraries) (s : Session libraries)
      → Prints libraries
      → IsReceived libraries e
      → Settled s (brought libraries e s.is_open) (noted libraries e s) (advance libraries e s)
  unfolding advance receive
  advance-Settled (arrives (text t) f) s prints h = receive-Settled t f s
  advance-Settled (arrives closed f) s prints h =
      unanswered s (record s { is_open = false }) [] (sym (append-nil s.sent))
        (Perm.refl (open_ids libraries s))
  advance-Settled (arrives (broken e) f) s prints h =
      unanswered s (record s { is_open = false }) [] (sym (append-nil s.sent))
        (Perm.refl (open_ids libraries s))
  advance-Settled (arrives other f) s prints h = unchanged s
  advance-Settled (dispatches n o) s prints h =
      dispatch_task-Settled o (pick n s.pending) s (pick-Perm n s.pending)
  advance-Settled (replies n receiving) s prints h =
      send_reply-Settled receiving (pick n s.answered) s prints h (pick-Perm n s.answered)
  advance-Settled (goes_on n p) s prints h = go_on_picked-Settled p (pick n s.running) s
  advance-Settled (puts msg) s prints h =
      unanswered s (record s { sent = s.sent ++ msg ∷ [] }) (msg ∷ []) refl
        (Perm.refl (open_ids libraries s))
