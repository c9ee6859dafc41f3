-- ===== src/Lookup/Tests.antt =====
-- A stored answer, and calls against a network that fails or answers.
use yeti_pg_ext.Base.{Bytes, [], ◌∷◌, ◌++◌, none, some, ◌≡◌, refl, true, arith}
use yeti_pg_ext.Cache.Table.{HashTable}
use yeti_pg_ext.Cache.Assoc.{assoc}
use yeti_pg_ext.Cache.Readable.{Bytes-discrete}
use yeti_pg_ext.Cache.{Entry, find}
use yeti_pg_ext.Resolver.Message.{no_response, write32, prepare_msg, parse_msg}
use yeti_pg_ext.Resolver.Endpoints.{get_endpoint_at_index}
use yeti_pg_ext.Resolver.Resolve.{
  attempts, move_current, turn, gen_request_id, send_msg, past_eintr, wait_answer, take_answer,
  receive, got, datagram, recv_eintr, Call, answered, resolve,
}
use yeti_pg_ext.Lookup.{
  gave, asking, column, Failure, failure_text, lnp_resolve_tagged, lnp_resolve_tagged_with_error,
}
use yeti_pg_ext.Resolver.Wire.{tagged_answer, optional}
use yeti_pg_ext.Resolver.Texts.{codes, signed_decimal}
use yeti_pg_ext.Resolver.Rounds.{asked, tour}
use yeti_pg_ext.Resolver.Delivery.{IsMoved}
use yeti_pg_ext.Lookup.Delivery.{
  IsReached, refusal_text, lnp_resolve_tagged_with_error-answer,
  lnp_resolve_tagged_with_error-refusal,
}
use yeti_pg_ext.Lookup.Laws.{drop_error, lnp_resolve_tagged-drop_error}

abbrev no_cache : HashTable Bytes Entry
no_cache = assoc Bytes-discrete

abbrev number : Bytes
number = b'4' ∷ b'2' ∷ []

-- One endpoint, which takes the message and answers with the text "ok" to request 10.
abbrev answered_call : Call
answered_call = record {
  st = record {
    endpoints = record { id = 0; ip = 1; port = 42; url = [] } ∷ [];
    curr_endpoint_index = 0;
    rtt_timeout = 5;
    req_id = 9;
    socket_open = true;
    recv_timeout = 5000;
  };
  world = record {
    sends = got 12 ∷ [];
    polls = got 1 ∷ [];
    recvs = datagram (10 ∷ 0 ∷ 0 ∷ 0 ∷ 2 ∷ 0 ∷ 0 ∷ 0 ∷ b'o' ∷ b'k' ∷ []) ∷ [];
    rand = 4;
    sent = [];
  };
  req = record { id = 0; type = 0; db_id = 0; payload = [] };
  failure = none;
}

lnp_resolve_tagged_example : lnp_resolve_tagged no_cache none answered_call 7 number ≡ (
  drop_error (lnp_resolve_tagged_with_error no_cache none answered_call 7 number).0,
  (lnp_resolve_tagged_with_error no_cache none answered_call 7 number).1,
)
lnp_resolve_tagged_example = lnp_resolve_tagged-drop_error no_cache none answered_call 7 number

resolve_answered :
    (resolve (asking answered_call 1 7 number)).0
    ≡ answered (record no_response { id = 10; val = some (b'o' ∷ b'k' ∷ []) })
unfolding resolve attempts get_endpoint_at_index move_current turn prepare_msg gen_request_id
    send_msg past_eintr wait_answer take_answer receive parse_msg
resolve_answered = refl

-- The current endpoint is silent, and the other one sends `d`, which is read behind an interrupt.
abbrev served_call : Bytes → Call
served_call d = record answered_call {
  st = record (answered_call.st) {
    endpoints =
        record { id = 0; ip = 1; port = 42; url = [] }
        ∷ record { id = 1; ip = 2; port = 42; url = [] }
        ∷ [];
    curr_endpoint_index = 1;
  };
  world = record {
    sends = got 9 ∷ got 9 ∷ [];
    polls = got 0 ∷ got 1 ∷ [];
    recvs = recv_eintr ∷ datagram d ∷ [];
    rand = 4;
    sent = [];
  };
}

abbrev tagged_42 : Bytes
tagged_42 = tagged_answer 11 number (b't' ∷ []) []

answer_reached : IsReached no_cache none (served_call tagged_42) 7 number 1 0 [] []
unfolding find
answer_reached = record {
  uncached = refl;
  numbered = (refl, omega arith, (refl, omega arith, tt));
  indexed = omega arith;
  some_left = omega arith;
  served = record {
    open_socket = refl;
    tagged = refl;
    fits = omega arith;
    taken = refl;
    silent = refl;
  };
  random = omega arith;
}

answer_example :
    (c' : Call) × (lnp_resolve_tagged_with_error no_cache none (served_call tagged_42) 7 number ≡ (
      gave (record {
        lrn = column (some number);
        tag = column (optional (b't' ∷ []));
        error = none;
      }),
      c',
    ))
    × (asked c' ≡ asked (served_call tagged_42) ++ tour 2 2 1)
    × IsMoved 1 (served_call tagged_42) c'
answer_example =
    lnp_resolve_tagged_with_error-answer no_cache none (served_call tagged_42) 7 number 1 0 [] []
      (recv_eintr ∷ []) [] number (b't' ∷ []) [] answer_reached tt refl (omega arith)

abbrev refused_42 : Bytes
refused_42 = write32 11 ++ (3 ∷ 2 ∷ (number ++ []))

refusal_reached : IsReached no_cache none (served_call refused_42) 7 number 1 0 [] []
unfolding find
refusal_reached = record {
  uncached = refl;
  numbered = (refl, omega arith, (refl, omega arith, tt));
  indexed = omega arith;
  some_left = omega arith;
  served = record {
    open_socket = refl;
    tagged = refl;
    fits = omega arith;
    taken = refl;
    silent = refl;
  };
  random = omega arith;
}

refusal_example :
    (c' : Call) × (failure : Failure) × (lnp_resolve_tagged_with_error no_cache none
        (served_call refused_42)
        7
        number
      ≡ (gave (record { lrn = none; tag = none; error = some failure }), c'))
    × (failure_text (λ e. []) failure ≡ refusal_text 3 number)
    × (asked c' ≡ asked (served_call refused_42) ++ tour 2 2 1)
    × IsMoved 1 (served_call refused_42) c'
refusal_example =
    lnp_resolve_tagged_with_error-refusal no_cache none (served_call refused_42) 7 number 1 0 [] []
      (λ e. []) (recv_eintr ∷ []) [] 11 3 number [] refusal_reached tt (omega arith) refl
      (omega arith) (omega arith) refl (omega arith)

refusal_reads : refusal_text 3 number ≡ codes "remote: 3 <42>"
unfolding signed_decimal
refusal_reads = refl
