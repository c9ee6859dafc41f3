-- ===== src/Resolver/Resolve.antt =====
-- `resolve` of src/resolver.c with the transport calls it makes, over the answers that the system
-- gives: what sendto, poll and recvfrom return, in order. Where a list is used up the call waits.
use yeti_pg_ext.Base.{
  Bytes, ℕ, zero, suc, ◌+◌, ◌%◌, ◌^◌, not, List, [], ◌∷◌, ◌++◌, Option, none, some, ltb, leb, ◌==◌,
  if◌then◌else◌, length,
}
use yeti_pg_ext.Resolver.Message.{
  Request, Response, Message, no_endpoints, message_too_long, poll_failed, rtt_expired,
  cannot_receive, not_answered, invalid_socket, send_failed, receive_failed, msg_sz, prepare_msg,
  parsed, refused, parse_msg,
}
use yeti_pg_ext.Resolver.Endpoints.{Endpoint, State, endpoints_count, get_endpoint_at_index}

-- A return value, or -1 with an errno; EINTR apart.
pub data Reply : Type 0 where
  got : ℕ → Reply
  errno : ℕ → Reply
  eintr : Reply

pub data Received : Type 0 where
  datagram : Bytes → Received
  recv_errno : ℕ → Received
  recv_eintr : Received

-- `rand` is the next value of rand(); `sent` collects what was given to sendto, by endpoint.
pub record World : Type 0 where
  pub sends : List Reply
  pub polls : List Reply
  pub recvs : List Received
  pub rand : ℕ
  pub sent : List (ℕ × Bytes)

-- The variables of a call: the request, and the error that the caller's pointer holds.
pub record Call : Type 0 where
  pub st : State
  pub world : World
  pub req : Request
  pub failure : Option Message

-- A result, -1 with the error, an ERROR (`err` of log.h), an access out of bounds, or waiting.
pub data Answer : Type 0 where
  answered : Response → Answer
  unanswered : Option Message → Answer
  raised faulted waiting : Answer

-- The value, the errno and the replies behind, past every EINTR.
unfoldable pub past_eintr : List Reply → Option (Reply × List Reply)
past_eintr [] = none
past_eintr (eintr ∷ rest) = past_eintr rest
past_eintr (got n ∷ rest) = some (got n, rest)
past_eintr (errno e ∷ rest) = some (errno e, rest)

-- The identifier of the first request is random; a uint32_t counts on from there. `rand` stands for the
-- one call of rand() that a call of resolve makes, unless that gave 0.
unfoldable pub gen_request_id : Call → Call
gen_request_id c =
    let id = if c.st.req_id == 0 then c.world.rand else (c.st.req_id + 1) % 2 ^ 32 in
    record c { st = record (c.st) { req_id = id }; req = record (c.req) { id = id } }

unfoldable pub next_index : State → ℕ
next_index st = (st.curr_endpoint_index + 1) % endpoints_count st

-- `get_next_endpoint` moves the index; the endpoint is then the one at it.
unfoldable pub move_next : State → State
unfolding next_index
move_next st = record st { curr_endpoint_index = next_index st }

-- What `get_current_endpoint` does to the index.
unfoldable pub move_current : State → State
unfolding move_next
move_current st = if ltb st.curr_endpoint_index (endpoints_count st) then st else move_next st

abbrev pub current : State → Option Endpoint
current st = get_endpoint_at_index st st.curr_endpoint_index

-- The loop `while(true)` with __tr_recv_data, on the datagrams to come.
unfoldable pub receive : Request → List Received → Answer × List Received
receive req [] = (waiting, [])
receive req (recv_eintr ∷ rest) = receive req rest
receive req (recv_errno e ∷ rest) =
    (unanswered (some (if e == 0 then cannot_receive req.id else receive_failed e)), rest)
receive req (datagram d ∷ rest) =
    let later = receive req rest in
    if leb msg_sz (length d) then (faulted, rest) else elim (parse_msg req d) [
      | refused e ↦ (unanswered e, rest)
      | parsed resp ↦
          if resp.is_confrm
          then later
          else if resp.id == req.id
          then (answered resp, rest)
          else later
    ]

-- One turn of the outer loop: the call is over, or goes to the next endpoint.
pub data Turn : Type 0 where
  over : Answer → Call → Turn
  try_next : Call → Turn

-- With the poll ready: the error is cleared, and the rest of the call is the inner loop.
unfoldable pub take_answer : Call → Turn
take_answer c =
    let (a, rest) = receive c.req c.world.recvs in
    over a (record c { world = record (c.world) { recvs = rest }; failure = none })

-- What poll returned.
unfoldable pub after_poll : Call → Reply → Turn
after_poll c (errno e) = try_next (record c { failure = some (poll_failed e c.req.id) })
after_poll c eintr = over waiting c
after_poll c (got n) =
    if n == 0 then try_next (record c { failure = some (rtt_expired c.req.id) }) else take_answer c

unfoldable pub wait_answer : Call → Turn
unfolding after_poll
wait_answer c = elim (past_eintr c.world.polls) [
  | none ↦ over waiting c
  | some (reply, polls) ↦ after_poll (record c { world = record (c.world) { polls = polls } }) reply
]

-- What sendto returned, and the test on it. `err` does not come back, so that a failed send ends
-- the call.
unfoldable pub after_send : Call → Bytes → Reply → Turn
after_send c m (errno e) =
    over raised (record c { failure = if e == 0 then c.failure else some (send_failed e) })
after_send c m eintr = over waiting c
after_send c m (got n) = if n == length m then wait_answer c else over raised c

-- The call with the message given to sendto.
abbrev pub note_sent : Call → Endpoint → Bytes → List Reply → Call
note_sent c ep m sends = record c {
  world = record (c.world) { sends = sends; sent = c.world.sent ++ ((ep.id, m) ∷ []) };
}

-- __tr_send_data and the test on its result.
unfoldable pub send_msg : Call → Endpoint → Bytes → Turn
unfolding after_send
send_msg c ep m =
    if not c.st.socket_open
    then over raised (record c { failure = some invalid_socket })
    else elim (past_eintr c.world.sends) [
      | none ↦ over waiting c
      | some (reply, sends) ↦ after_send (note_sent c ep m sends) m reply
    ]

-- A request that is too long has its error; one of an unknown type leaves the error alone.
unfoldable pub prepare_failure : Call → Option Message
prepare_failure c =
    if c.req.type == 0
    then some message_too_long
    else if c.req.type == 1
    then some message_too_long
    else c.failure

unfoldable pub turn : Call → Endpoint → Turn
turn c ep =
    let c' = gen_request_id c in
    elim (prepare_msg c'.req) [
      | none ↦ over (unanswered (prepare_failure c')) c'
      | some m ↦ send_msg c' ep m
    ]

-- The end of `resolve`, behind the loop.
unfoldable pub give_up : Call → Answer × Call
give_up c = elim c.failure [
  | none ↦ (unanswered (some (not_answered c.req.id)), c)
  | some e ↦ (unanswered (some e), c)
]

-- Behind a turn: the call's result, or the rest of the loop at the next endpoint.
abbrev pub after_turn : (Call → Answer × Call) → Turn → Answer × Call
after_turn rest (over a c) = (a, c)
after_turn rest (try_next c) = rest (record c { st = move_next c.st })

-- `while(endp != NULL && endpoints_left--)`
unfoldable pub attempts : ℕ → Call → Answer × Call
attempts zero c = give_up c
attempts (suc left) c = elim (current c.st) [
  | none ↦ give_up c
  | some ep ↦ after_turn (attempts left) (turn c ep)
]

unfoldable pub resolve : Call → Answer × Call
resolve c =
    if endpoints_count c.st == 0
    then (unanswered (some no_endpoints), record c { failure = some no_endpoints })
    else attempts (endpoints_count c.st) (record c { st = move_current c.st })
