-- ===== src/Resolver/Tests.antt =====
-- The resolver's messages, endpoints and rounds at concrete values.
use yeti_pg_ext.Base.{
  false, Bytes, ℕ, true, [], ◌∷◌, ◌++◌, Option, none, some, ◌≡◌, refl, arith, replicate,
}
use yeti_pg_ext.Base.Outcome.{ok, fault}
use yeti_pg_ext.Resolver.Message.{
  Request, remote, no_response, rtt_expired, prepare_msg, parsed, parse_msg,
}
use yeti_pg_ext.Resolver.Wire.{serve_tagged, seen_of, serve_tagged-prepare_msg, serve_tagged_long}
use yeti_pg_ext.Resolver.Uri.{atoi, parse_addr}
use yeti_pg_ext.Resolver.Endpoints.{Endpoint, State, get_endpoint_at_index}
use yeti_pg_ext.Resolver.Resolve.{
  past_eintr, got, errno, datagram, recv_eintr, Call, answered, unanswered, raised, faulted,
  receive, attempts, move_current, turn, gen_request_id, send_msg, wait_answer, take_answer,
  resolve,
}
use yeti_pg_ext.Resolver.Texts.{error_text, error_format}
use yeti_pg_ext.Resolver.Errors.{resolve-error_text}
use yeti_pg_ext.Resolver.Answers.{receive_fault}
use yeti_pg_ext.Resolver.Provenance.{Answers}
use yeti_pg_ext.Resolver.Rounds.{tour, asked, resolve_silent}
use yeti_pg_ext.Resolver.Address.{scheme_mark, parse_addr_parts, parse_addr_fault}
use yeti_pg_ext.Resolver.Sending.{resolve_send_failure}

abbrev number : Bytes
number = b'4' ∷ b'2' ∷ []

abbrev tagged_request : Request
tagged_request = record { id = 300; type = 0; db_id = 7; payload = number }

abbrev cnam_request : Request
cnam_request = record { id = 300; type = 1; db_id = 7; payload = number }

abbrev long_request : Request
long_request = record { id = 1; type = 0; db_id = 7; payload = replicate 300 b'1' }

serve_tagged_example :
    (m : Bytes) × (prepare_msg tagged_request ≡ some m)
    × (serve_tagged m ≡ some (seen_of tagged_request))
serve_tagged_example = serve_tagged-prepare_msg tagged_request refl (omega arith) (omega arith)

serve_tagged_long_example :
    (m : Bytes) × (prepare_msg long_request ≡ some m) × (serve_tagged m ≡ none)
serve_tagged_long_example = serve_tagged_long long_request refl (omega arith) (omega arith)

abbrev tagged_bytes : Bytes
tagged_bytes = 44 ∷ 1 ∷ 0 ∷ 0 ∷ 7 ∷ 0 ∷ 2 ∷ number

abbrev udp : Bytes
udp = b'u' ∷ b'd' ∷ b'p' ∷ []

abbrev host : Bytes
host = b'1' ∷ b'.' ∷ b'2' ∷ []

parse_addr_parts_example :
    parse_addr (udp ++ (scheme_mark ++ (host ++ (b':' ∷ number))))
    ≡ ok (some (record { proto = udp; host = host; port = atoi number }))
parse_addr_parts_example =
    parse_addr_parts udp host number refl refl (omega arith) (omega arith) (omega arith)

parse_addr_fault_example : parse_addr (replicate 70 b'h') ≡ fault
parse_addr_fault_example = parse_addr_fault (replicate 70 b'h') refl (omega arith) (omega arith)

abbrev any_address : Bytes → Option ℕ
any_address text = some 1

abbrev first : Endpoint
first = record { id = 0; ip = 1; port = 42; url = host }

abbrev second : Endpoint
second = record { id = 1; ip = 1; port = 42; url = host }

abbrev state : State
state = record {
  endpoints = first ∷ second ∷ [];
  curr_endpoint_index = 1;
  rtt_timeout = 5;
  req_id = 9;
  socket_open = true;
  recv_timeout = 5000;
}

abbrev noise : Bytes
noise = 1 ∷ 0 ∷ 0 ∷ 0 ∷ []

noise_parsed :
    parse_msg tagged_request noise ≡ parsed (record no_response { id = 1; is_confrm = true })
unfolding parse_msg
noise_parsed = refl

receive_fault_example :
    (receive tagged_request (recv_eintr ∷ (datagram (replicate 2048 1) ∷ []))).0 ≡ faulted
receive_fault_example =
    receive_fault tagged_request (recv_eintr ∷ []) [] (replicate 2048 1) tt (omega arith)

-- Two sends that are taken, and two polls that end by the timeout.
abbrev silent_call : Call
silent_call = record {
  st = state;
  world = record {
    sends = got 9 ∷ got 9 ∷ [];
    polls = got 0 ∷ got 0 ∷ [];
    recvs = [];
    rand = 4;
    sent = [];
  };
  req = tagged_request;
  failure = none;
}

-- An endpoint that answers behind a confirmation, with what the answer carries.
abbrev answered_call : Call
answered_call = record silent_call {
  world = record (silent_call.world) {
    sends = got 9 ∷ [];
    polls = got 1 ∷ [];
    recvs = datagram noise ∷ datagram (10 ∷ 0 ∷ 0 ∷ 0 ∷ 0 ∷ 2 ∷ 2 ∷ b'4' ∷ b'3' ∷ []) ∷ [];
  };
}

answered_43 :
    (resolve answered_call).0
    ≡ answered (record no_response { id = 10; val_1 = some (b'4' ∷ b'3' ∷ []) })
unfolding resolve attempts get_endpoint_at_index move_current turn prepare_msg gen_request_id
    send_msg past_eintr wait_answer take_answer receive parse_msg
answered_43 = refl

resolve_silent_example :
    (c' : Call) × (resolve silent_call ≡ (unanswered (some (rtt_expired c'.req.id)), c'))
    × (asked c' ≡ asked silent_call ++ tour 2 2 1)
resolve_silent_example =
    resolve_silent silent_call (refl, omega arith, (refl, omega arith, tt)) (omega arith)
      (record {
        open_socket = refl;
        tagged = refl;
        fits = omega arith;
        taken = refl;
        silent = refl;
      })

-- The current endpoint takes the message and refuses.
abbrev refused_call : Call
refused_call = record silent_call {
  world = record (silent_call.world) {
    polls = got 1 ∷ [];
    recvs = datagram (10 ∷ 0 ∷ 0 ∷ 0 ∷ 3 ∷ 2 ∷ number) ∷ [];
  };
}

refused_call_refused : (resolve refused_call).0 ≡ unanswered (some (remote 3 number))
unfolding resolve attempts get_endpoint_at_index move_current turn prepare_msg gen_request_id
    send_msg past_eintr wait_answer take_answer receive parse_msg
refused_call_refused = refl

resolve-error_text_example :
    error_text (λ e. []) (remote 3 number) ≡ error_format (λ e. []) (remote 3 number)
resolve-error_text_example =
    resolve-error_text (λ e. []) (λ e. omega arith) refused_call (remote 3 number) refl
      (omega arith) refused_call_refused

-- Three endpoints: the second is silent, the send to the third fails, the first is not asked.
abbrev failing_call : Call
failing_call = record silent_call {
  st = record state { endpoints = first ∷ second ∷ record second { id = 2 } ∷ [] };
  world = record (silent_call.world) { sends = got 9 ∷ errno 101 ∷ got 9 ∷ []; polls = got 0 ∷ [] };
}

resolve_send_failure_example :
    (c' : Call) × (resolve failing_call ≡ (raised, c'))
    × (asked c' ≡ asked failing_call ++ tour 3 2 1)
resolve_send_failure_example =
    resolve_send_failure 101 (got 9 ∷ []) [] 1 failing_call (omega arith) (record {
      numbered = (refl, omega arith, (refl, omega arith, (refl, omega arith, tt)));
      indexed = omega arith;
      open_socket = refl;
      tagged = refl;
      fits = omega arith;
      taken = refl;
      silent = refl;
    })

abbrev closed_state : State
closed_state = record state { socket_open = false }
