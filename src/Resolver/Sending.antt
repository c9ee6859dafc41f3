-- ===== src/Resolver/Sending.antt =====
-- `resolve` where sendto fails.
use native.Mathlib.Nat.{mod-lt}
use mathlib.Core.List.{map-append}
use yeti_pg_ext.Base.{
  ℕ, zero, suc, ◌+◌, ◌%◌, ◌≤◌, ◌<◌, true, List, ◌∷◌, ◌++◌, some, if◌then◌else◌, ◌==◌, ◌≡◌, refl, ap,
  ◌∙◌, arith, length, get_elem?, replicate,
}
use yeti_pg_ext.Resolver.Message.{send_failed, rtt_expired, msg_sz}
use yeti_pg_ext.Resolver.Endpoints.{Endpoint, get_endpoint_at_index}
use yeti_pg_ext.Resolver.Listing.{IsNumbered}
use yeti_pg_ext.Resolver.Resolve.{
  Reply, got, errno, Call, raised, past_eintr, gen_request_id, next_index, move_next, over,
  try_next, note_sent, after_send, send_msg, turn, attempts, resolve,
}
use yeti_pg_ext.Resolver.Turns.{
  prepare_tagged, turn_sends, send_taken, wait_silent, resolve_in_range,
}
use yeti_pg_ext.Resolver.Rounds.{tour, at_index, asked, attempts-turn}
use yeti_pg_ext.Resolver.Served.{past_eintr-got, sent_to, tour_next}

send_refused :
    (c : Call) (ep : Endpoint) (e : ℕ) (sends : List Reply)
    → (c.req.type ≡ 0) × (length c.req.payload + 7 ≤ msg_sz) × (c.st.socket_open ≡ true)
    → past_eintr c.world.sends ≡ some (errno e, sends)
    → (c' : Call) × (turn c ep ≡ over raised c') × (asked c' ≡ sent_to c ep)
unfolding gen_request_id send_msg after_send
send_refused c ep e sends s p =
    let (t, f, o) = s in
    let (m, q, l) = prepare_tagged (gen_request_id c).req t f in
    let c' = record (note_sent (gen_request_id c) ep m sends) {
      failure = if e == 0 then c.failure else some (send_failed e);
    } in
    let stopped : send_msg (gen_request_id c) ep m ≡ over raised c' = simp (o, p, send_msg) in
    (c', turn_sends c ep m q ∙ stopped, map-append _ _ _)

past_eintr-errno :
    (l sends : List Reply) (e : ℕ) → l ≡ errno e ∷ sends → past_eintr l ≡ some (errno e, sends)
unfolding past_eintr
past_eintr-errno l sends e h = rw h refl

attempts_refused :
    (left : ℕ) (c c' : Call) (ep : Endpoint)
    → get_elem? c.st.endpoints c.st.curr_endpoint_index ≡ some ep
    → turn c ep ≡ over raised c'
    → attempts (suc left) c ≡ (raised, c')
unfolding attempts get_endpoint_at_index
attempts_refused left c c' ep p e = rw (p, attempts) (rw e)

-- What a turn against a silent endpoint leaves as it was, and what it takes.
record IsPassed (c c' : Call) (ep : Endpoint) (sends polls : List Reply) : Type 0 where
  same_list : c'.st.endpoints ≡ c.st.endpoints
  same_index : c'.st.curr_endpoint_index ≡ c.st.curr_endpoint_index
  same_socket : c'.st.socket_open ≡ c.st.socket_open
  same_type : c'.req.type ≡ c.req.type
  same_payload : c'.req.payload ≡ c.req.payload
  sends_left : c'.world.sends ≡ sends
  polls_left : c'.world.polls ≡ polls
  asked_it : asked c' ≡ sent_to c ep

turn-IsPassed :
    (c : Call) (ep : Endpoint) (sends polls : List Reply)
    → (c.req.type ≡ 0) × (length c.req.payload + 7 ≤ msg_sz) × (c.st.socket_open ≡ true)
    → c.world.sends ≡ got (length c.req.payload + 7) ∷ sends
    → c.world.polls ≡ got 0 ∷ polls
    → (c' : Call) × (turn c ep ≡ try_next c') × IsPassed c c' ep sends polls
unfolding gen_request_id
turn-IsPassed c ep sends polls (t, f, o) taken silent =
    let g = gen_request_id c in
    let (m, e, l) = prepare_tagged g.req t f in
    let c1 = note_sent g ep m sends in
    let c2 = record c1 {
      world = record (c1.world) { polls = polls };
      failure = some (rtt_expired g.req.id);
    } in
    (
      c2,
      turn_sends c ep m e
          ∙ send_taken g ep m sends o (past_eintr-got g.world.sends sends (length m) (taken ∙ rw l))
          ∙ wait_silent c1 polls (past_eintr-got c1.world.polls polls 0 silent),
      record {
        same_list = refl;
        same_index = refl;
        same_socket = refl;
        same_type = refl;
        same_payload = refl;
        sends_left = refl;
        polls_left = refl;
        asked_it = map-append _ _ _;
      },
    )

-- A socket, an endpoint at the index and a tagged request that fits the buffer; from the index on
-- `k` endpoints take the message and are silent, and sendto fails at the next one.
pub record IsRefused (k e : ℕ) (sends polls : List Reply) (c : Call) : Type 0 where
  pub numbered : IsNumbered 0 c.st.endpoints
  pub indexed : c.st.curr_endpoint_index < length c.st.endpoints
  pub open_socket : c.st.socket_open ≡ true
  pub tagged : c.req.type ≡ 0
  pub fits : length c.req.payload + 7 ≤ msg_sz
  pub taken : c.world.sends ≡ replicate k (got (length c.req.payload + 7)) ++ (errno e ∷ sends)
  pub silent : c.world.polls ≡ replicate k (got 0) ++ polls

module _ (e : ℕ) (sends polls : List Reply) where
  abbrev Refuses : ℕ → ℕ → Call → Type 0
  Refuses left k c =
      (c' : Call) × (attempts left c ≡ (raised, c'))
      × (asked c' ≡ asked c ++ tour (length c.st.endpoints) (suc k) c.st.curr_endpoint_index)

  move_next-IsRefused :
      (k : ℕ) (c c' : Call) (ep : Endpoint)
      → IsRefused (suc k) e sends polls c
      → IsPassed c c' ep
          (replicate k (got (length c.req.payload + 7)) ++ (errno e ∷ sends))
          (replicate k (got 0) ++ polls)
      → IsRefused k e sends polls (record c' { st = move_next c'.st })
  unfolding move_next next_index
  move_next-IsRefused k c c' ep s p = record {
    numbered = rw p.same_list s.numbered;
    indexed = rw p.same_list (mod-lt (c'.st.curr_endpoint_index + 1) (omega (arith, s.indexed)));
    open_socket = p.same_socket ∙ s.open_socket;
    tagged = p.same_type ∙ s.tagged;
    fits = rw p.same_payload s.fits;
    taken = rw p.same_payload p.sends_left;
    silent = p.polls_left;
  }

  attempts-Refuses :
      (k left : ℕ) (c : Call) → k < left → IsRefused k e sends polls c → Refuses left k c
  attempts-Refuses k zero c h s = absurd (omega (arith, h))
  attempts-Refuses zero (suc left) c h s =
      let (ep, p, q) = at_index 0 c.st.curr_endpoint_index c.st.endpoints s.numbered s.indexed in
      let (c', r, a) =
        send_refused c ep e sends (s.tagged, s.fits, s.open_socket)
          (past_eintr-errno _ sends e s.taken) in
      let place : ep.id ≡ c.st.curr_endpoint_index = q ∙ omega arith in
      (c', attempts_refused left c c' ep p r, a ∙ rw place refl)
  attempts-Refuses (suc k) (suc left) c h s =
      let (ep, p, q) = at_index 0 c.st.curr_endpoint_index c.st.endpoints s.numbered s.indexed in
      let (c1, t, passed) =
        turn-IsPassed c ep _ _ (s.tagged, s.fits, s.open_socket) s.taken s.silent in
      let c2 = record c1 { st = move_next c1.st } in
      let size = length c.st.endpoints in
      let list : c2.st.endpoints ≡ c.st.endpoints = unfold move_next in passed.same_list in
      let index : c2.st.curr_endpoint_index ≡ (c.st.curr_endpoint_index + 1) % size =
        unfold move_next next_index in rw (passed.same_index, passed.same_list) in
      let (c', r, a) =
        attempts-Refuses k left c2 (omega (arith, h)) (move_next-IsRefused k c c1 ep s passed) in
      let place : ep.id ≡ c.st.curr_endpoint_index = q ∙ omega arith in
      (
        c',
        attempts-turn left c c1 ep p t ∙ r,
        a
            ∙ tour_next k size (length c2.st.endpoints) c.st.curr_endpoint_index
                c2.st.curr_endpoint_index (asked c) (asked c2) (passed.asked_it ∙ rw place)
                (ap length list) index,
      )

  -- With a socket, endpoints that are numbered from 0, the index at one of them and a tagged request
  -- that fits the buffer: if, from the index on, some endpoints take the message and are silent
  -- until the timeout, and sendto fails at the next one, `resolve` ends with an ERROR, and the
  -- endpoints behind that one are not asked.
  pub resolve_send_failure :
      (k : ℕ) (c : Call)
      → k < length c.st.endpoints
      → IsRefused k e sends polls c
      → (c' : Call) × (resolve c ≡ (raised, c'))
        × (asked c' ≡ asked c ++ tour (length c.st.endpoints) (suc k) c.st.curr_endpoint_index)
  resolve_send_failure k c h s =
      let (c', r, a) = attempts-Refuses k (length c.st.endpoints) c h s in
      (c', resolve_in_range c s.indexed ∙ r, a)
