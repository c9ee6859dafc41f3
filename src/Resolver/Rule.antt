-- ===== src/Resolver/Rule.antt =====
-- The rule by which a property of the call is carried through `resolve`: what its steps are to keep,
-- and what its ends are to give.
use yeti_pg_ext.Base.{
  Bytes, ℕ, zero, suc, List, Option, none, some, inl, inr, ◌==◌, Bool-cases, Option-cases, length,
}
use yeti_pg_ext.Resolver.Message.{Message, poll_failed, rtt_expired, prepare_msg}
use yeti_pg_ext.Resolver.Endpoints.{Endpoint}
use yeti_pg_ext.Resolver.Resolve.{
  Reply, got, errno, eintr, Call, Answer, unanswered, raised, waiting, past_eintr, gen_request_id,
  move_next, current, receive, Turn, over, try_next, take_answer, after_poll, wait_answer,
  note_sent, after_send, send_msg, prepare_failure, turn, give_up, after_turn, attempts,
}

-- `P` is kept from step to step, and `Q` is what a result and its call are to have.
pub record IsKept (P : Call → Type 0) (Q : Answer → Call → Type 0) : Type 0 where
  pub numbered : (c : Call) → P c → P (gen_request_id c)
  pub noted :
      (c : Call) (ep : Endpoint) (m : Bytes) (sends : List Reply) → P c → P (note_sent c ep m sends)
  pub polled :
      (c : Call) (polls : List Reply)
      → P c
      → P (record c { world = record (c.world) { polls = polls } })
  pub unpolled : (c : Call) (e : ℕ) → P c → P (record c { failure = some (poll_failed e c.req.id) })
  pub expired : (c : Call) → P c → P (record c { failure = some (rtt_expired c.req.id) })
  pub moved : (c : Call) → P c → P (record c { st = move_next c.st })
  pub unprepared : (c : Call) → P c → Q (unanswered (prepare_failure c)) c
  pub unsent : (c : Call) → P c → Q raised c
  pub failed : (c : Call) (f : Option Message) → P c → Q raised (record c { failure = f })
  pub waits : (c : Call) → P c → Q waiting c
  pub received :
      (c : Call)
      → P c
      → Q (receive c.req c.world.recvs).0 (record c {
        world = record (c.world) { recvs = (receive c.req c.world.recvs).1 };
        failure = none;
      })
  pub gave_up : (c : Call) → P c → Q (give_up c).0 (give_up c).1

module _ {P : Call → Type 0} {Q : Answer → Call → Type 0} (k : IsKept P Q) where
  abbrev Holds : Turn → Type 0
  Holds (over a c) = Q a c
  Holds (try_next c) = P c

  after_poll-Holds : (c : Call) (reply : Reply) → P c → Holds (after_poll c reply)
  unfolding after_poll take_answer
  after_poll-Holds c (errno e) h = k.unpolled c e h
  after_poll-Holds c eintr h = k.waits c h
  after_poll-Holds c (got n) h = elim (Bool-cases (n == 0)) [
    | inl e ↦ simp e (k.expired c h)
    | inr e ↦ simp e (k.received c h)
  ]

  wait_answer-Holds : (c : Call) → P c → Holds (wait_answer c)
  unfolding wait_answer
  wait_answer-Holds c h = elim (Option-cases (past_eintr c.world.polls)) [
    | inl e ↦ simp (e, wait_answer) (k.waits c h)
    | inr ((reply, polls), e) ↦
        simp (e, wait_answer) (after_poll-Holds _ reply (k.polled c polls h))
  ]

  after_send-Holds : (c : Call) (m : Bytes) (reply : Reply) → P c → Holds (after_send c m reply)
  unfolding after_send
  after_send-Holds c m (errno e) h = k.failed c _ h
  after_send-Holds c m eintr h = k.waits c h
  after_send-Holds c m (got n) h = elim (Bool-cases (n == length m)) [
    | inl e ↦ simp e (wait_answer-Holds c h)
    | inr e ↦ simp e (k.unsent c h)
  ]

  send_msg-Holds : (c : Call) (ep : Endpoint) (m : Bytes) → P c → Holds (send_msg c ep m)
  unfolding send_msg
  send_msg-Holds c ep m h = elim (Bool-cases c.st.socket_open) [
    | inr e ↦ simp e (k.failed c _ h)
    | inl o ↦ elim (Option-cases (past_eintr c.world.sends)) [
      | inl e ↦ simp (o, e, send_msg) (k.waits c h)
      | inr ((reply, sends), e) ↦
          simp (o, e, send_msg)
            (after_send-Holds (note_sent c ep m sends) m reply (k.noted c ep m sends h))
    ]
  ]

  turn-Holds : (c : Call) (ep : Endpoint) → P c → Holds (turn c ep)
  unfolding turn
  turn-Holds c ep h =
      let g = k.numbered c h in
      elim (Option-cases (prepare_msg (gen_request_id c).req)) [
        | inl e ↦ simp (e, turn) (k.unprepared (gen_request_id c) g)
        | inr (m, e) ↦ simp (e, turn) (send_msg-Holds (gen_request_id c) ep m g)
      ]

  after_turn-Holds :
      (rest : Call → Answer × Call) (t : Turn)
      → ((c : Call) → P c → Q (rest c).0 (rest c).1)
      → Holds t
      → Q (after_turn rest t).0 (after_turn rest t).1
  after_turn-Holds rest (over a c) ih h = h
  after_turn-Holds rest (try_next c) ih h = ih (record c { st = move_next c.st }) (k.moved c h)

  -- The loop over the endpoints ends in what is wanted.
  pub attempts-kept : (left : ℕ) (c : Call) → P c → Q (attempts left c).0 (attempts left c).1
  unfolding attempts
  attempts-kept zero c h = k.gave_up c h
  attempts-kept (suc left) c h = elim (Option-cases (current c.st)) [
    | inl e ↦ simp (e, attempts) (k.gave_up c h)
    | inr (ep, e) ↦
        simp (e, attempts)
          (after_turn-Holds (attempts left) (turn c ep) (attempts-kept left) (turn-Holds c ep h))
  ]
