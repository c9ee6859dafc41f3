-- ===== src/Resolver/Steady.antt =====
-- What every function on the variables of src/resolver.c keeps, and when `resolve` stays within its
-- buffer.
use native.Mathlib.Nat.{mod-lt}
use yeti_pg_ext.Base.{
  ◌+◌, ◌%◌, ◌^◌, ◌<◌, Bool, true, false, List, [], ◌∷◌, ◌≡◌, ◌≢◌, ◌⊎◌, refl, ap, inl, inr, arith,
  if◌then◌else◌, ltb, ◌==◌, ==_iff, Bool-cases, Option-cases, length, lt→leb_false,
}
use yeti_pg_ext.Resolver.Message.{Request, Response, parse_msg, msg_sz}
use yeti_pg_ext.Resolver.Rule.{IsKept, attempts-kept}
use yeti_pg_ext.Resolver.Answers.{parsed_cases}
use yeti_pg_ext.Resolver.Endpoints.{Endpoint, State, endpoints_count}
use yeti_pg_ext.Resolver.Listing.{IsListed}
use yeti_pg_ext.Resolver.Resolve.{
  Received, datagram, recv_errno, recv_eintr, Call, Answer, answered, faulted, gen_request_id,
  next_index, move_next, move_current, receive, give_up, resolve,
}

-- A list as lnp_endpoints_set makes it, an index in it, or 0, and a 32-bit request number.
pub record IsWell (st : State) : Type 0 where
  pub listed : IsListed st
  pub indexed : (st.curr_endpoint_index ≡ 0) ⊎ (st.curr_endpoint_index < length st.endpoints)
  pub numbered : st.req_id < 2 ^ 32

-- Datagrams that leave room for the NUL behind them.
abbrev pub AllFit : List Received → Type 0
AllFit [] = Unit {0}
AllFit (recv_eintr ∷ ds) = AllFit ds
AllFit (recv_errno e ∷ ds) = AllFit ds
AllFit (datagram d ∷ ds) = (length d < msg_sz) × AllFit ds

parsed-ne-faulted :
    (req : Request) (r : Response) (later : Answer × List Received) (rest : List Received)
    → later.0 ≢ faulted
    → (if r.is_confrm then later else if r.id == req.id then (answered r, rest) else later).0
      ≢ faulted
parsed-ne-faulted req r later rest h = elim (Bool-cases r.is_confrm) [
  | inl c ↦ simp c h
  | inr c ↦ elim (Bool-cases (r.id == req.id)) [
    | inl e ↦ simp (c, e) (λ q. cc)
    | inr e ↦ simp (c, e) h
  ]
]

receive-ne-faulted : (req : Request) (ds : List Received) → AllFit ds → (receive req ds).0 ≢ faulted
unfolding receive
receive-ne-faulted req [] h = λ e. cc
receive-ne-faulted req (recv_eintr ∷ ds) h = receive-ne-faulted req ds h
receive-ne-faulted req (recv_errno n ∷ ds) h = λ e. cc
receive-ne-faulted req (datagram d ∷ ds) (short, h) =
    rw (lt→leb_false 2048 (length d) short) (elim (parsed_cases (parse_msg req d)) [
      | inl (e, p) ↦ rw (p, receive) (λ q. cc)
      | inr (r, p) ↦
          rw (p, receive)
            (parsed-ne-faulted req r (receive req ds) ds (receive-ne-faulted req ds h))
    ])

move_next-IsWell : (st : State) → endpoints_count st ≢ 0 → IsWell st → IsWell (move_next st)
unfolding move_next next_index
move_next-IsWell st n w = record {
  listed = record { within = w.listed.within; numbered = w.listed.numbered };
  indexed = inr (mod-lt (st.curr_endpoint_index + 1) (omega arith));
  numbered = w.numbered;
}

move_current-IsWell : (st : State) → endpoints_count st ≢ 0 → IsWell st → IsWell (move_current st)
unfolding move_current
move_current-IsWell st n w = elim (Bool-cases (ltb st.curr_endpoint_index (endpoints_count st))) [
  | inl e ↦ simp e w
  | inr e ↦ simp e (move_next-IsWell st n w)
]

move_current-endpoints : (st : State) → (move_current st).endpoints ≡ st.endpoints
unfolding move_current move_next
move_current-endpoints st = elim (Bool-cases (ltb st.curr_endpoint_index (endpoints_count st))) [
  | inl e ↦ simp e refl
  | inr e ↦ simp e refl
]

module _ (es : List Endpoint) (ds : List Received) where
  -- What a call keeps before its datagrams are read, and what it is to end in.
  abbrev IsSteady : Call → Type 0
  IsSteady c =
      IsWell c.st
      × (c.st.endpoints ≡ es)
      × (c.world.rand < 2 ^ 32)
      × (c.world.recvs ≡ ds)
      × (length es ≢ 0)

  abbrev pub EndsWell : Answer → Call → Type 0
  EndsWell a c = IsWell c.st × (c.st.endpoints ≡ es) × (AllFit ds → a ≢ faulted)

  gen_request_id-IsSteady : (c : Call) → IsSteady c → IsSteady (gen_request_id c)
  unfolding gen_request_id
  gen_request_id-IsSteady c (w, s, r, e, n) = (
    record {
      listed = record { within = w.listed.within; numbered = w.listed.numbered };
      indexed = w.indexed;
      numbered = counted (c.st.req_id == 0);
    },
    s,
    r,
    e,
    n,
  )
    where
      counted : (b : Bool) → (if b then c.world.rand else (c.st.req_id + 1) % 2 ^ 32) < 2 ^ 32
      counted true = r
      counted false = omega arith

  give_up-EndsWell : (c : Call) → IsSteady c → EndsWell (give_up c).0 (give_up c).1
  unfolding give_up
  give_up-EndsWell c h = elim (Option-cases c.failure) [
    | inl e ↦ simp (e, give_up) (h.0, h.1, λ f q. cc)
    | inr (m, e) ↦ simp (e, give_up) (h.0, h.1, λ f q. cc)
  ]

  move_next-IsSteady : (c : Call) → IsSteady c → IsSteady (record c { st = move_next c.st })
  unfolding move_next
  move_next-IsSteady c (w, s, r, e, n) =
      (move_next-IsWell c.st (λ z. n (omega (arith, ap length s, z))) w, s, r, e, n)

  IsSteady-IsKept : IsKept IsSteady EndsWell
  IsSteady-IsKept = record {
    numbered = gen_request_id-IsSteady;
    noted = λ c ep m sends h. h;
    polled = λ c polls h. h;
    unpolled = λ c e h. h;
    expired = λ c h. h;
    moved = move_next-IsSteady;
    unprepared = λ c h. (h.0, h.1, λ f q. cc);
    unsent = λ c h. (h.0, h.1, λ f q. cc);
    failed = λ c e h. (h.0, h.1, λ f q. cc);
    waits = λ c h. (h.0, h.1, λ f q. cc);
    received = λ c (w, s, r, e, n). (w, s, λ f. rw e (receive-ne-faulted c.req ds f));
    gave_up = give_up-EndsWell;
  }

-- From variables that are well `resolve` ends in such, with the same endpoints, and if the
-- datagrams to come fit the buffer, with no access out of bounds.
pub resolve-EndsWell :
    (c : Call)
    → IsWell c.st
    → c.world.rand < 2 ^ 32
    → EndsWell c.st.endpoints c.world.recvs (resolve c).0 (resolve c).1
unfolding resolve
resolve-EndsWell c w r = elim (Bool-cases (endpoints_count c.st == 0)) [
  | inl e ↦ simp e (w, refl, λ f q. cc)
  | inr e ↦
      let n : endpoints_count c.st ≢ 0 = λ z. cc (e, (==_iff (endpoints_count c.st) 0).1 z) in
      simp e (
        attempts-kept (IsSteady-IsKept c.st.endpoints c.world.recvs) (endpoints_count c.st)
          (record c { st = move_current c.st })
          (move_current-IsWell c.st n w, move_current-endpoints c.st, r, refl, n))
]
