-- ===== src/Resolver/Turns.antt =====
-- One turn of `resolve`, step by step.
use yeti_pg_ext.Base.{
  Bytes, ℕ, suc, ◌+◌, ◌≤◌, ◌<◌, true, false, List, some, ◌≡◌, refl, inl, inr, arith, lt→ltb, ◌==◌,
  ==_iff, Option-cases, length, replicate,
}
use yeti_pg_ext.Resolver.Message.{Request, rtt_expired, msg_sz, prepare_msg}
use yeti_pg_ext.Resolver.Endpoints.{Endpoint}
use yeti_pg_ext.Resolver.Resolve.{
  Reply, got, Call, past_eintr, gen_request_id, move_current, try_next, after_poll, wait_answer,
  note_sent, after_send, send_msg, turn, attempts, resolve,
}

-- Every message of a tagged request has 7 bytes more than the payload.
pub prepare_tagged :
    (req : Request)
    → req.type ≡ 0
    → length req.payload + 7 ≤ msg_sz
    → (m : Bytes) × (prepare_msg req ≡ some m) × (length m ≡ length req.payload + 7)
unfolding prepare_msg
prepare_tagged req t h = elim (Option-cases (prepare_msg req)) [
  | inl e ↦ absurd (ground arith)
  | inr (m, e) ↦ (m, e, ground arith)
]

pub send_taken :
    (c : Call) (ep : Endpoint) (m : Bytes) (sends : List Reply)
    → c.st.socket_open ≡ true
    → past_eintr c.world.sends ≡ some (got (length m), sends)
    → send_msg c ep m ≡ wait_answer (note_sent c ep m sends)
unfolding send_msg after_send
send_taken c ep m sends o e = simp (o, e, send_msg) (rw ((==_iff (length m) (length m)).1 refl))

pub turn_sends :
    (c : Call) (ep : Endpoint) (m : Bytes)
    → prepare_msg (gen_request_id c).req ≡ some m
    → turn c ep ≡ send_msg (gen_request_id c) ep m
unfolding turn
turn_sends c ep m e = rw (e, turn)

pub wait_silent :
    (c : Call) (polls : List Reply)
    → past_eintr c.world.polls ≡ some (got 0, polls)
    → wait_answer c
      ≡ try_next (record c {
        world = record (c.world) { polls = polls };
        failure = some (rtt_expired c.req.id);
      })
unfolding wait_answer after_poll
wait_silent c polls e = simp (e, wait_answer)

pub past_eintr-replicate :
    (l : List Reply) (left n : ℕ)
    → l ≡ replicate (suc left) (got n)
    → past_eintr l ≡ some (got n, replicate left (got n))
unfolding past_eintr
past_eintr-replicate l left n h = rw h

-- With the index in range, `resolve` is its loop, with one turn for each endpoint.
pub resolve_in_range :
    (c : Call)
    → c.st.curr_endpoint_index < length c.st.endpoints
    → resolve c ≡ attempts (length c.st.endpoints) c
unfolding resolve move_current
resolve_in_range c l =
    let some_left : (length c.st.endpoints == 0) ≡ false = ground arith in
    rw (some_left, lt→ltb c.st.curr_endpoint_index (length c.st.endpoints) l)
