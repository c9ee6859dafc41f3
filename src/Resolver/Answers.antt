-- ===== src/Resolver/Answers.antt =====
-- What the inner loop of `resolve` makes of the datagrams that come.
use yeti_pg_ext.Base.{
  Bytes, ℕ, is_some, ==_iff, Option, Bool, if◌then◌else◌, leb, ◌^◌, ◌≤◌, ◌+◌, ◌<◌, true, false,
  List, [], ◌∷◌, ◌++◌, some, ◌≡◌, ◌≢◌, ◌⊎◌, refl, ap, ◌∙◌, inl, inr, arith, ◌==◌, Bool-cases,
  length, lt→leb_false,
}
use yeti_pg_ext.Base.CString.{has_nul}
use yeti_pg_ext.Resolver.Message.{
  parse_json_msg, parse_tagged_msg, parse_full, parse_confrm_resp_msg, parse_remote_error, Parsed,
  Message, refused, Request, Response, msg_sz, parsed, parse_msg, no_response, write32,
}
use yeti_pg_ext.Resolver.Wire.{
  tagged_answer, optional, refusal, parse_msg-tagged_answer, parse_msg-remote,
}
use yeti_pg_ext.Resolver.Resolve.{
  Received, datagram, recv_errno, recv_eintr, Answer, answered, unanswered, faulted, receive,
}

-- What an answer to a request of this type has: a tagged one the number, a cnam one the text.
abbrev pub has_result : ℕ → Response → Bool
has_result type r =
    if type == 0 then is_some r.val_1 else if type == 1 then is_some r.val else false

parse_json_msg-has_result :
    (d : Bytes) (r : Response) → parse_json_msg d ≡ parsed r → is_some r.val ≡ true
unfolding parse_json_msg
parse_json_msg-has_result d r h = ground arith

parse_tagged_msg-has_result :
    (d : Bytes) (r : Response) → parse_tagged_msg d ≡ parsed r → is_some r.val_1 ≡ true
unfolding parse_tagged_msg parse_remote_error
parse_tagged_msg-has_result d r h = ground arith

parse_full-has_result :
    (type : ℕ) (d : Bytes) (r : Response) → parse_full type d ≡ parsed r → has_result type r ≡ true
unfolding parse_full
parse_full-has_result type d r h =
    ground (arith, parse_json_msg-has_result d r, parse_tagged_msg-has_result d r)

pub parse_msg-has_result :
    (req : Request) (d : Bytes) (r : Response)
    → parse_msg req d ≡ parsed r
    → r.is_confrm ≡ false
    → has_result req.type r ≡ true
unfolding parse_msg parse_confrm_resp_msg
parse_msg-has_result req d r h c = ground (arith, parse_full-has_result req.type d r)

-- An answer handed out is no bare confirmation, carries the number of the request, and has what
-- was asked for.
abbrev pub IsFor : Request → Answer → Type 0
IsFor req (answered r) = (r.is_confrm ≡ false) × (r.id ≡ req.id) × (has_result req.type r ≡ true)
IsFor req _ = Unit {0}

parsed-IsFor :
    (req : Request) (d : Bytes) (r : Response) (later : Answer × List Received)
    → parse_msg req d ≡ parsed r
    → IsFor req later.0
    → (rest : List Received)
    → IsFor req
        (if r.is_confrm then later else if r.id == req.id then (answered r, rest) else later).0
parsed-IsFor req d r later p h rest = elim (Bool-cases r.is_confrm) [
  | inl c ↦ simp c h
  | inr c ↦ elim (Bool-cases (r.id == req.id)) [
    | inl e ↦ simp (c, e) (refl, (==_iff r.id req.id).0 e, parse_msg-has_result req d r p c)
    | inr e ↦ simp (c, e) h
  ]
]

pub parsed_cases :
    (p : Parsed) → ((e : Option Message) × (p ≡ refused e)) ⊎ ((r : Response) × (p ≡ parsed r))
parsed_cases (refused e) = inl (e, refl)
parsed_cases (parsed r) = inr (r, refl)

pub receive-IsFor : (req : Request) (ds : List Received) → IsFor req (receive req ds).0
unfolding receive
receive-IsFor req [] = tt
receive-IsFor req (recv_eintr ∷ rest) = receive-IsFor req rest
receive-IsFor req (recv_errno e ∷ rest) = tt
receive-IsFor req (datagram d ∷ rest) = elim (Bool-cases (leb msg_sz (length d))) [
  | inl f ↦ rw f tt
  | inr f ↦ elim (parsed_cases (parse_msg req d)) [
    | inl (e, p) ↦ rw f (rw (p, receive) tt)
    | inr (r, p) ↦
        rw f (
          rw (p, receive) (parsed-IsFor req d r (receive req rest) p (receive-IsFor req rest) rest))
  ]
]

-- Datagrams that the inner loop passes over: confirmations, answers to other requests, and
-- interrupted calls.
abbrev pub IsNoise : Request → List Received → Type 0
IsNoise req [] = Unit {0}
IsNoise req (recv_eintr ∷ ds) = IsNoise req ds
IsNoise req (recv_errno e ∷ ds) = ⊥
IsNoise req (datagram d ∷ ds) =
    (length d < msg_sz)
    × ((r : Response) × (parse_msg req d ≡ parsed r) × ((r.is_confrm ≡ true) ⊎ (r.id ≢ req.id)))
    × IsNoise req ds

receive_noise :
    (req : Request) (noise rest : List Received)
    → IsNoise req noise
    → receive req (noise ++ rest) ≡ receive req rest
unfolding receive
receive_noise req [] rest h = refl
receive_noise req (recv_eintr ∷ ds) rest h = receive_noise req ds rest h
receive_noise req (recv_errno e ∷ ds) rest h = absurd h
receive_noise req (datagram d ∷ ds) rest (short, (r, e, foreign), h) =
    rw (lt→leb_false 2048 (length d) short)
      (rw (e, receive) (ground (arith, foreign, receive_noise req ds rest h)))

-- Behind any noise the answer to a tagged request, of less than 2048 bytes and with a 32-bit
-- identifier, is found, and what it carries is handed out.
pub receive-tagged_answer :
    (req : Request) (noise later : List Received) (lrn tag rest : Bytes)
    → req.type ≡ 0
    → req.id < 2 ^ 32
    → IsNoise req noise
    → length (tagged_answer req.id lrn tag rest) < msg_sz
    → receive req (noise ++ (datagram (tagged_answer req.id lrn tag rest) ∷ later)) ≡ (
      answered (record no_response { id = req.id; val_1 = some lrn; val_2 = optional tag }),
      later,
    )
receive-tagged_answer req noise later lrn tag rest t h n short =
    receive_noise req noise _ n
    ∙ unfold receive in
      rw (lt→leb_false 2048 (length (tagged_answer req.id lrn tag rest)) short)
        (rw (parse_msg-tagged_answer req req.id lrn tag rest t h, receive) (ground arith))

-- Behind any noise a refusal of a tagged request, with a code that is not 0, a text with no NUL and
-- some byte behind the header, is found, whatever identifier it has, and its error is handed on.
pub receive-refusal :
    (req : Request) (noise later : List Received) (id code : ℕ) (text rest : Bytes)
    → req.type ≡ 0
    → IsNoise req noise
    → 0 < code
    → has_nul text ≡ false
    → 0 < length text + length rest
    → length (write32 id ++ (code ∷ length text ∷ (text ++ rest))) < msg_sz
    → receive req
        (noise ++ (datagram (write32 id ++ (code ∷ length text ∷ (text ++ rest))) ∷ later))
      ≡ (unanswered (some (refusal code text)), later)
receive-refusal req noise later id code text rest t n c z k short =
    receive_noise req noise _ n
    ∙ unfold receive in
      rw (lt→leb_false 2048 (length (write32 id ++ (code ∷ length text ∷ (text ++ rest)))) short)
        (rw (parse_msg-remote req id code text rest t c z k, receive) refl)

-- Behind any noise, a datagram of 2048 bytes or more has its NUL written behind the buffer.
pub receive_fault :
    (req : Request) (noise later : List Received) (d : Bytes)
    → IsNoise req noise
    → msg_sz ≤ length d
    → (receive req (noise ++ (datagram d ∷ later))).0 ≡ faulted
receive_fault req noise later d n h =
    ap (λ (p : Answer × List Received). p.0) (receive_noise req noise (datagram d ∷ later) n)
    ∙ unfold receive in ground arith
