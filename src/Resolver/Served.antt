-- ===== src/Resolver/Served.antt =====
-- One turn of `resolve` against an endpoint that is silent or that sends something.
use mathlib.Core.List.{append_assoc, map-append}
use yeti_pg_ext.Base.{
  ℕ, zero, suc, ◌+◌, ◌%◌, ◌^◌, ◌≤◌, true, List, [], ◌∷◌, ◌++◌, none, some, ◌≡◌, refl, ap, ◌∙◌,
  arith, if◌then◌else◌, ◌==◌, length, get_elem?, replicate,
}
use yeti_pg_ext.Resolver.Message.{Request, rtt_expired, msg_sz}
use yeti_pg_ext.Resolver.Endpoints.{Endpoint, get_endpoint_at_index}
use yeti_pg_ext.Resolver.Resolve.{
  Reply, got, Call, Answer, past_eintr, gen_request_id, move_next, receive, over, try_next,
  take_answer, after_poll, wait_answer, note_sent, turn, attempts,
}
use yeti_pg_ext.Resolver.Turns.{prepare_tagged, turn_sends, send_taken, wait_silent}
use yeti_pg_ext.Resolver.Rounds.{tour, asked}

-- The number of a request, from the last one; of the first it is `rand`.
abbrev pub next_id : ℕ → ℕ → ℕ
next_id rand id = if id == 0 then rand else (id + 1) % 2 ^ 32

-- The number of the request behind `k` others.
abbrev pub request_id : ℕ → ℕ → ℕ → ℕ
request_id rand zero id = next_id rand id
request_id rand (suc k) id = request_id rand k (next_id rand id)

-- The request that is sent behind `k` others.
abbrev pub request_behind : ℕ → Call → Request
request_behind k c = record (c.req) { id = request_id c.world.rand k c.st.req_id }

-- A socket, a tagged request that fits, and a network that takes `k` messages and is silent, and
-- then takes one and has `n` descriptors ready.
pub record IsServed (k : ℕ) (n : ℕ) (sends polls : List Reply) (c : Call) : Type 0 where
  pub open_socket : c.st.socket_open ≡ true
  pub tagged : c.req.type ≡ 0
  pub fits : length c.req.payload + 7 ≤ msg_sz
  pub taken : c.world.sends ≡ replicate (suc k) (got (length c.req.payload + 7)) ++ sends
  pub silent : c.world.polls ≡ replicate k (got 0) ++ (got (suc n) ∷ polls)

pub past_eintr-got :
    (l rest : List Reply) (n : ℕ) → l ≡ got n ∷ rest → past_eintr l ≡ some (got n, rest)
unfolding past_eintr
past_eintr-got l rest n h = rw h refl

abbrev pub sent_to : Call → Endpoint → List ℕ
sent_to c ep = asked c ++ (ep.id ∷ [])

pub tour_next :
    (k size n i j : ℕ) (before after : List ℕ)
    → after ≡ before ++ (i ∷ [])
    → n ≡ size
    → j ≡ (i + 1) % size
    → after ++ tour n (suc k) j ≡ before ++ tour size (suc (suc k)) i
tour_next k size n i j before after e f g =
    ap (λ (l : List ℕ). l ++ tour n (suc k) j) e
    ∙ ap (λ (m : ℕ). (before ++ (i ∷ [])) ++ tour m (suc k) j) f
    ∙ ap (λ (m : ℕ). (before ++ (i ∷ [])) ++ tour size (suc k) m) g
    ∙ append_assoc before (i ∷ []) (tour size (suc k) ((i + 1) % size))

module _ (n : ℕ) (sends polls : List Reply) where
  pub silent_turn :
      (k : ℕ) (c : Call) (ep : Endpoint)
      → IsServed (suc k) n sends polls c
      → (c' : Call) × (turn c ep ≡ try_next c')
        × IsServed k n sends polls c'
        × (c'.st.endpoints ≡ c.st.endpoints)
        × (c'.st.curr_endpoint_index ≡ c.st.curr_endpoint_index)
        × (request_behind k c' ≡ request_behind (suc k) c)
        × (c'.world.recvs ≡ c.world.recvs)
        × (asked c' ≡ sent_to c ep)
  unfolding gen_request_id
  silent_turn k c ep s =
      let g = gen_request_id c in
      let (m, e, l) = prepare_tagged g.req s.tagged s.fits in
      let sends' = replicate (suc k) (got (length m)) ++ sends in
      let polls' = replicate k (got 0) ++ (got (suc n) ∷ polls) in
      let c1 = note_sent g ep m sends' in
      let c2 = record c1 {
        world = record (c1.world) { polls = polls' };
        failure = some (rtt_expired g.req.id);
      } in
      (
        c2,
        turn_sends c ep m e
            ∙ send_taken g ep m sends' s.open_socket
                (past_eintr-got g.world.sends sends' (length m) (s.taken ∙ rw l))
            ∙ wait_silent c1 polls' (past_eintr-got c1.world.polls polls' 0 s.silent),
        record {
          open_socket = s.open_socket;
          tagged = s.tagged;
          fits = s.fits;
          taken = rw l;
          silent = refl;
        },
        refl,
        refl,
        refl,
        refl,
        map-append _ _ _,
      )

  pub ready_turn :
      (c : Call) (ep : Endpoint)
      → IsServed 0 n sends polls c
      → (c' : Call) × (turn c ep ≡ over (receive (request_behind 0 c) c.world.recvs).0 c')
        × (asked c' ≡ sent_to c ep)
        × (c'.st.endpoints ≡ c.st.endpoints)
        × (c'.st.curr_endpoint_index ≡ c.st.curr_endpoint_index)
  unfolding gen_request_id
  ready_turn c ep s =
      let g = gen_request_id c in
      let (m, e, l) = prepare_tagged g.req s.tagged s.fits in
      let c1 = note_sent g ep m sends in
      let c2 = record c1 { world = record (c1.world) { polls = polls } } in
      let c3 = record c2 {
        world = record (c2.world) { recvs = (receive g.req c.world.recvs).1 };
        failure = none;
      } in
      let ready : wait_answer c1 ≡ over (receive g.req c.world.recvs).0 c3 =
        unfold wait_answer after_poll take_answer in
        rw (past_eintr-got c1.world.polls polls (suc n) s.silent, wait_answer) (ground arith) in
      (
        c3,
        turn_sends c ep m e
            ∙ send_taken g ep m sends s.open_socket
                (past_eintr-got g.world.sends sends (length m) (s.taken ∙ rw l))
            ∙ ready,
        map-append _ _ _,
        refl,
        refl,
      )

  pub attempts-over :
      (left : ℕ) (c c' : Call) (ep : Endpoint) (a : Answer)
      → get_elem? c.st.endpoints c.st.curr_endpoint_index ≡ some ep
      → turn c ep ≡ over a c'
      → attempts (suc left) c ≡ (a, c')
  unfolding attempts get_endpoint_at_index
  attempts-over left c c' ep a p e = rw (p, attempts) (rw e)

  pub move_next-IsServed :
      (k : ℕ) (c : Call)
      → IsServed k n sends polls c
      → IsServed k n sends polls (record c { st = move_next c.st })
  unfolding move_next
  move_next-IsServed k c s = record {
    open_socket = s.open_socket;
    tagged = s.tagged;
    fits = s.fits;
    taken = s.taken;
    silent = s.silent;
  }
