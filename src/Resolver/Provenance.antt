-- ===== src/Resolver/Provenance.antt =====
-- Where an answer of `resolve` comes from.
use yeti_pg_ext.Base.{
  Bytes, ==_iff, List, [], ◌∷◌, ◌++◌, ◌≡◌, ◌≢◌, ◌⊎◌, true, refl, ap, inl, inr, leb, ◌==◌, ◌<◌,
  arith, Bool-cases, length,
}
use yeti_pg_ext.Resolver.Message.{Request, msg_sz, parsed, parse_msg}
use yeti_pg_ext.Resolver.Resolve.{
  Received, datagram, recv_errno, recv_eintr, Call, Answer, answered, unanswered, raised, faulted,
  waiting, receive,
}
use yeti_pg_ext.Resolver.Answers.{IsFor, IsNoise, parse_msg-has_result, parsed_cases}

-- An answer is what a datagram reads as, the first behind confirmations, answers to other requests
-- and interrupted calls; it is for the request.
abbrev pub IsFirst : Request → List Received → Answer → Type 0
IsFirst req ds (answered r) =
    (noise rest : List Received) × (d : Bytes) × (ds ≡ noise ++ (datagram d ∷ rest))
    × IsNoise req noise
    × (length d < msg_sz)
    × (parse_msg req d ≡ parsed r)
    × IsFor req (answered r)
IsFirst req ds _ = Unit {0}

IsFirst-cons :
    (req : Request) (x : Received) (ds : List Received) (a : Answer)
    → IsNoise req (x ∷ [])
    → IsFirst req ds a
    → IsFirst req (x ∷ ds) a
IsFirst-cons req recv_eintr ds (answered r) h (noise, rest, d, e, n, l, q, f) =
    (recv_eintr ∷ noise, rest, d, ap (λ xs. recv_eintr ∷ xs) e, n, l, q, f)
IsFirst-cons req (recv_errno c) ds (answered r) h f = absurd h
IsFirst-cons req (datagram b) ds (answered r) h (noise, rest, d, e, n, l, q, f) =
    (datagram b ∷ noise, rest, d, ap (λ xs. datagram b ∷ xs) e, (h.0, h.1, n), l, q, f)
IsFirst-cons req x ds (unanswered e) h f = tt
IsFirst-cons req x ds raised h f = tt
IsFirst-cons req x ds faulted h f = tt
IsFirst-cons req x ds waiting h f = tt

pub receive-IsFirst : (req : Request) (ds : List Received) → IsFirst req ds (receive req ds).0
unfolding receive
receive-IsFirst req [] = tt
receive-IsFirst req (recv_eintr ∷ ds) =
    IsFirst-cons req recv_eintr ds (receive req ds).0 tt (receive-IsFirst req ds)
receive-IsFirst req (recv_errno e ∷ ds) = tt
receive-IsFirst req (datagram d ∷ ds) = elim (Bool-cases (leb msg_sz (length d))) [
  | inl f ↦ rw f tt
  | inr f ↦
      let short : length d < msg_sz = ground (arith, f) in
      elim (parsed_cases (parse_msg req d)) [
        | inl (e, p) ↦ rw f (rw (p, receive) tt)
        | inr (r, p) ↦
            let passed : ((r.is_confrm ≡ true) ⊎ (r.id ≢ req.id))
                → IsFirst req (datagram d ∷ ds) (receive req ds).0 =
              λ foreign.
                IsFirst-cons req (datagram d) ds (receive req ds).0 (short, (r, p, foreign), tt)
                  (receive-IsFirst req ds) in
            rw f (
              rw (p, receive)
                (elim (Bool-cases r.is_confrm) [
                  | inl c ↦ simp c (passed (inl c))
                  | inr c ↦ elim (Bool-cases (r.id == req.id)) [
                    | inl same ↦
                        simp (c, same)
                          (
                            [],
                            ds,
                            d,
                            refl,
                            tt,
                            short,
                            p,
                            (refl, (==_iff r.id req.id).0 same, parse_msg-has_result req d r p c),
                          )
                    | inr differ ↦
                        simp (c, differ) (passed (inr (λ q. cc (differ, (==_iff r.id req.id).1 q))))
                  ]
                ]))
      ]
]

-- But for its number the request stays, and nothing is read.
abbrev Keeps : Request → List Received → Call → Type 0
Keeps req ds c =
    (c.req.type ≡ req.type)
    × (c.req.db_id ≡ req.db_id)
    × (c.req.payload ≡ req.payload)
    × (c.world.recvs ≡ ds)

-- The answer is the first to the call's request, which asks the same as `req`.
abbrev pub Answers : Request → List Received → Answer → Call → Type 0
Answers req ds a c =
    IsFirst c.req ds a
    × (c.req.type ≡ req.type)
    × (c.req.db_id ≡ req.db_id)
    × (c.req.payload ≡ req.payload)
