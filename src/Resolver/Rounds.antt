-- ===== src/Resolver/Rounds.antt =====
-- How `resolve` goes round the endpoints.
use yeti_pg_ext.Base.{
  Bytes, ℕ, zero, suc, ◌+◌, ◌%◌, ◌≤◌, ◌<◌, true, List, [], ◌∷◌, ◌++◌, some, ◌≡◌, refl, sym, ap, ◌∙◌,
  arith, length, get_elem?, replicate, map,
}
use native.Mathlib.Nat.{mod-lt}
use mathlib.Core.List.{append-nil, append_assoc, map-append}
use yeti_pg_ext.Resolver.Message.{rtt_expired, msg_sz}
use yeti_pg_ext.Resolver.Endpoints.{Endpoint, get_endpoint_at_index}
use yeti_pg_ext.Resolver.Listing.{IsNumbered}
use yeti_pg_ext.Resolver.Resolve.{
  got, Call, unanswered, gen_request_id, next_index, move_next, try_next, note_sent, turn, give_up,
  attempts, resolve,
}
use yeti_pg_ext.Resolver.Turns.{
  prepare_tagged, turn_sends, send_taken, wait_silent, past_eintr-replicate, resolve_in_range,
}

-- `left` endpoints from `i` on, round a list of `n`.
abbrev pub tour : ℕ → ℕ → ℕ → List ℕ
tour n zero i = []
tour n (suc left) i = i ∷ tour n left ((i + 1) % n)

-- A socket, a tagged request that fits, and for `left` turns a network that takes the message and
-- is silent until the poll ends.
pub record IsSilent (left : ℕ) (c : Call) : Type 0 where
  pub open_socket : c.st.socket_open ≡ true
  pub tagged : c.req.type ≡ 0
  pub fits : length c.req.payload + 7 ≤ msg_sz
  pub taken : c.world.sends ≡ replicate left (got (length c.req.payload + 7))
  pub silent : c.world.polls ≡ replicate left (got 0)

-- What a turn against a silent endpoint does to the call.
record IsNextOf (ep : Endpoint) (left : ℕ) (c c' : Call) : Type 0 where
  silent_on : IsSilent left c'
  same_list : c'.st.endpoints ≡ c.st.endpoints
  same_index : c'.st.curr_endpoint_index ≡ c.st.curr_endpoint_index
  expired : c'.failure ≡ some (rtt_expired c'.req.id)
  sent_one :
      map (λ (p : ℕ × Bytes). p.0) c'.world.sent
      ≡ map (λ (p : ℕ × Bytes). p.0) c.world.sent ++ (ep.id ∷ [])

silent_turn :
    (left : ℕ) (c : Call) (ep : Endpoint)
    → IsSilent (suc left) c
    → (c' : Call) × (turn c ep ≡ try_next c') × IsNextOf ep left c c'
unfolding gen_request_id
silent_turn left c ep s =
    let g = gen_request_id c in
    let (m, e, l) = prepare_tagged g.req s.tagged s.fits in
    let sends = replicate left (got (length m)) in
    let c1 = note_sent g ep m sends in
    let c2 = record c1 {
      world = record (c1.world) { polls = replicate left (got 0) };
      failure = some (rtt_expired g.req.id);
    } in
    (
      c2,
      turn_sends c ep m e
          ∙ send_taken g ep m sends s.open_socket
              (past_eintr-replicate g.world.sends left (length m) (s.taken ∙ rw l))
          ∙ wait_silent c1 (replicate left (got 0))
              (past_eintr-replicate c1.world.polls left 0 s.silent),
      record {
        silent_on = record {
          open_socket = s.open_socket;
          tagged = s.tagged;
          fits = s.fits;
          taken = rw l;
          silent = refl;
        };
        same_list = refl;
        same_index = refl;
        expired = refl;
        sent_one = map-append _ _ _;
      },
    )

pub at_index :
    (n i : ℕ) (es : List Endpoint)
    → IsNumbered n es
    → i < length es
    → (ep : Endpoint) × (get_elem? es i ≡ some ep) × (ep.id ≡ n + i)
at_index n i [] h l = elim l [ ]
at_index n zero (e ∷ es) h l = (e, refl, omega arith)
at_index n (suc i) (e ∷ es) h l =
    let (ep, p, q) = at_index (suc n) i es h.2 (omega arith) in (ep, p, omega arith)

-- The endpoints to which a call has sent.
abbrev pub asked : Call → List ℕ
asked c = map (λ (p : ℕ × Bytes). p.0) c.world.sent

give_up_expired :
    (c : Call)
    → c.failure ≡ some (rtt_expired c.req.id)
    → give_up c ≡ (unanswered (some (rtt_expired c.req.id)), c)
unfolding give_up
give_up_expired c h = simp (h, give_up)

pub attempts-turn :
    (left : ℕ) (c c1 : Call) (ep : Endpoint)
    → get_elem? c.st.endpoints c.st.curr_endpoint_index ≡ some ep
    → turn c ep ≡ try_next c1
    → attempts (suc left) c ≡ attempts left (record c1 { st = move_next c1.st })
unfolding attempts get_endpoint_at_index
attempts-turn left c c1 ep p e = rw (p, attempts) (rw e)

-- Going to the next endpoint leaves the network silent.
move_next-IsSilent :
    (left : ℕ) (c : Call) → IsSilent left c → IsSilent left (record c { st = move_next c.st })
unfolding move_next
move_next-IsSilent left c s = record {
  open_socket = s.open_socket;
  tagged = s.tagged;
  fits = s.fits;
  taken = s.taken;
  silent = s.silent;
}

attempts_silent :
    (left : ℕ) (c : Call)
    → IsNumbered 0 c.st.endpoints
    → c.st.curr_endpoint_index < length c.st.endpoints
    → IsSilent left c
    → (left ≡ 0 → c.failure ≡ some (rtt_expired c.req.id))
    → (c' : Call) × (attempts left c ≡ (unanswered (some (rtt_expired c'.req.id)), c'))
      × (asked c' ≡ asked c ++ tour (length c.st.endpoints) left c.st.curr_endpoint_index)
attempts_silent zero c n l s f =
    (c, unfold attempts in give_up_expired c (f refl), sym (append-nil (asked c)))
attempts_silent (suc left) c n l s f =
    let (ep, p, q) = at_index 0 c.st.curr_endpoint_index c.st.endpoints n l in
    let (c1, e, x) = silent_turn left c ep s in
    let c2 = record c1 { st = move_next c1.st } in
    let list : c2.st.endpoints ≡ c.st.endpoints = unfold move_next in x.same_list in
    let index : c2.st.curr_endpoint_index ≡ (c.st.curr_endpoint_index + 1) % length c.st.endpoints =
      unfold move_next next_index in rw (x.same_index, x.same_list) in
    let bound : c2.st.curr_endpoint_index < length c2.st.endpoints =
      rw (list, index) (mod-lt (c.st.curr_endpoint_index + 1) (omega arith)) in
    let (c', r, a) =
      attempts_silent left c2 (rw list n) bound (move_next-IsSilent left c1 x.silent_on)
        (λ z. x.expired) in
    let tail =
      tour (length c.st.endpoints) left ((c.st.curr_endpoint_index + 1) % length c.st.endpoints) in
    let place : ep.id ≡ c.st.curr_endpoint_index = q ∙ omega arith in
    let more : asked c2 ++ tour (length c2.st.endpoints) left c2.st.curr_endpoint_index
        ≡ (asked c ++ (c.st.curr_endpoint_index ∷ [])) ++ tail =
      rw (list, index) (ap (λ (l : List ℕ). l ++ tail) (x.sent_one ∙ rw place)) in
    (
      c',
      attempts-turn left c c1 ep p e ∙ r,
      a ∙ more ∙ append_assoc (asked c) (c.st.curr_endpoint_index ∷ []) tail,
    )

-- `resolve` of a tagged request that fits the buffer, with endpoints numbered from 0, the index at
-- one of them, a socket, and a network that takes each message and is then silent until the
-- timeout: each endpoint is asked once, from the current one on and round the list, and the call
-- ends with the timeout of the last request.
pub resolve_silent :
    (c : Call)
    → IsNumbered 0 c.st.endpoints
    → c.st.curr_endpoint_index < length c.st.endpoints
    → IsSilent (length c.st.endpoints) c
    → (c' : Call) × (resolve c ≡ (unanswered (some (rtt_expired c'.req.id)), c'))
      × (asked c'
          ≡ asked c
            ++ tour (length c.st.endpoints) (length c.st.endpoints) c.st.curr_endpoint_index)
resolve_silent c n l s =
    let (c', r, a) = attempts_silent (length c.st.endpoints) c n l s (λ z. absurd (omega arith)) in
    (c', resolve_in_range c l ∙ r, a)
