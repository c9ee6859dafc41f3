-- ===== src/Resolver/Errors.antt =====
-- The errors that `resolve` gives, and the room for them.
use yeti_pg_ext.Base.{
  Bytes, ℕ, zero, suc, ◌≤◌, ◌<◌, List, [], ◌∷◌, Option, none, some, ◌≡◌, refl, arith, inl, inr,
  if◌then◌else◌, ◌==◌, leb, Bool-cases, Option-cases, length, length-take, get_or, take, drop,
}
use yeti_pg_ext.Base.CString.{until_nul, length-until_nul}
use yeti_pg_ext.Resolver.Message.{
  Request, Response, Message, Parsed, parsed, refused, msg_sz, parse_remote_error, parse_tagged_msg,
  parse_json_msg, parse_full, parse_confrm_resp_msg, parse_msg, tagged_err_response_hdr_size,
}
use yeti_pg_ext.Resolver.Texts.{FitsText, error_text, error_format, error_text_whole}
use yeti_pg_ext.Resolver.Endpoints.{endpoints_count}
use yeti_pg_ext.Resolver.Resolve.{
  Received, datagram, recv_errno, recv_eintr, Call, Answer, answered, unanswered, receive,
  gen_request_id, prepare_failure, move_current, give_up, resolve,
}
use yeti_pg_ext.Resolver.Answers.{parsed_cases}
use yeti_pg_ext.Resolver.Rule.{IsKept, attempts-kept}

abbrev AllBytes : Bytes → Type 0
AllBytes [] = Unit {0}
AllBytes (b ∷ bs) = (b < 256) × AllBytes bs

-- Datagrams are made of bytes.
abbrev pub AreBytes : List Received → Type 0
AreBytes [] = Unit {0}
AreBytes (datagram d ∷ ds) = AllBytes d × AreBytes ds
AreBytes (recv_errno e ∷ ds) = AreBytes ds
AreBytes (recv_eintr ∷ ds) = AreBytes ds

get_or-AllBytes : (d : Bytes) (i : ℕ) → AllBytes d → get_or d i 0 < 256
get_or-AllBytes [] i h = omega arith
get_or-AllBytes (b ∷ bs) zero h = h.0
get_or-AllBytes (b ∷ bs) (suc i) h = get_or-AllBytes bs i h.1

module _ (strerror : ℕ → Bytes) where
  abbrev OptionFits : Option Message → Type 0
  OptionFits none = Unit {0}
  OptionFits (some m) = FitsText strerror m

  abbrev ParsedFits : Parsed → Type 0
  ParsedFits (parsed r) = Unit {0}
  ParsedFits (refused e) = OptionFits e

  abbrev AnswerFits : Answer → Type 0
  AnswerFits (unanswered e) = OptionFits e
  AnswerFits _ = Unit {0}

  parse_remote_error-ParsedFits :
      (d : Bytes) (code size : ℕ) → size < 256 → ParsedFits (parse_remote_error d code size)
  unfolding parse_remote_error
  parse_remote_error-ParsedFits d code size h =
      let cut = take size (drop tagged_err_response_hdr_size d) in
      let short : length (until_nul cut) ≤ 1024 =
        omega
          (arith, length-until_nul cut, length-take size (drop tagged_err_response_hdr_size d)) in
      ground arith

  parse_tagged_msg-ParsedFits : (d : Bytes) → AllBytes d → ParsedFits (parse_tagged_msg d)
  unfolding parse_tagged_msg
  parse_tagged_msg-ParsedFits d h =
      ground (
        arith,
        parse_remote_error-ParsedFits d (get_or d 4 0) (get_or d 5 0) (get_or-AllBytes d 5 h),
      )

  parse_json_msg-ParsedFits : (d : Bytes) → ParsedFits (parse_json_msg d)
  unfolding parse_json_msg
  parse_json_msg-ParsedFits d = ground arith

  parse_full-ParsedFits : (type : ℕ) (d : Bytes) → AllBytes d → ParsedFits (parse_full type d)
  unfolding parse_full
  parse_full-ParsedFits type d h =
      ground (arith, parse_tagged_msg-ParsedFits d h, parse_json_msg-ParsedFits d)

  parse_msg-ParsedFits : (req : Request) (d : Bytes) → AllBytes d → ParsedFits (parse_msg req d)
  unfolding parse_msg parse_confrm_resp_msg
  parse_msg-ParsedFits req d h = ground (arith, parse_full-ParsedFits req.type d h)

  parsed-AnswerFits :
      (req : Request) (r : Response) (later : Answer × List Received) (rest : List Received)
      → AnswerFits later.0
      → AnswerFits
          (if r.is_confrm then later else if r.id == req.id then (answered r, rest) else later).0
  parsed-AnswerFits req r later rest h = elim (Bool-cases r.is_confrm) [
    | inl c ↦ simp c h
    | inr c ↦ elim (Bool-cases (r.id == req.id)) [ inl e ↦ simp (c, e) tt | inr e ↦ simp (c, e) h ]
  ]

  module _ (short : (e : ℕ) → length (strerror e) ≤ 1024) where
    receive-AnswerFits :
        (req : Request) (ds : List Received) → AreBytes ds → AnswerFits (receive req ds).0
    unfolding receive
    receive-AnswerFits req [] h = tt
    receive-AnswerFits req (recv_eintr ∷ rest) h = receive-AnswerFits req rest h
    receive-AnswerFits req (recv_errno e ∷ rest) h = elim (Bool-cases (e == 0)) [
      | inl z ↦ rw z tt
      | inr z ↦ rw z (short e)
    ]
    receive-AnswerFits req (datagram d ∷ rest) (bytes, h) =
        elim (Bool-cases (leb msg_sz (length d))) [
          | inl f ↦ rw f tt
          | inr f ↦ elim (parsed_cases (parse_msg req d)) [
            | inl (e, p) ↦ rw f (rw (p, receive) (rw p at (parse_msg-ParsedFits req d bytes)))
            | inr (r, p) ↦ rw f (
                rw (p, receive)
                  (parsed-AnswerFits req r (receive req rest) rest (receive-AnswerFits req rest h)))
          ]
        ]

    abbrev CallFits : List Received → Call → Type 0
    CallFits ds c = OptionFits c.failure × (c.world.recvs ≡ ds)

    prepare_failure-AnswerFits : (c : Call) → OptionFits c.failure → OptionFits (prepare_failure c)
    unfolding prepare_failure
    prepare_failure-AnswerFits c h = ground (arith, h)

    give_up-AnswerFits : (c : Call) → OptionFits c.failure → AnswerFits (give_up c).0
    unfolding give_up
    give_up-AnswerFits c h = elim (Option-cases c.failure) [
      | inl e ↦ simp (e, give_up) tt
      | inr (m, e) ↦ simp (e, give_up) (rw e at h)
    ]

    fits-IsKept : (ds : List Received) → AreBytes ds → IsKept (CallFits ds) (λ a c. AnswerFits a)
    unfolding gen_request_id
    fits-IsKept ds bytes = record {
      numbered = λ c h. h;
      noted = λ c ep m sends h. h;
      polled = λ c polls h. h;
      unpolled = λ c e h. (tt, h.1);
      expired = λ c h. (tt, h.1);
      moved = λ c h. h;
      unprepared = λ c h. prepare_failure-AnswerFits c h.0;
      unsent = λ c h. tt;
      failed = λ c f h. tt;
      waits = λ c h. tt;
      received = λ c h. receive-AnswerFits c.req c.world.recvs (rw h.1 bytes);
      gave_up = λ c h. give_up-AnswerFits c h.0;
    }

    resolve-AnswerFits :
        (c : Call) → c.failure ≡ none → AreBytes c.world.recvs → AnswerFits (resolve c).0
    unfolding resolve
    resolve-AnswerFits c h bytes = elim (Bool-cases (endpoints_count c.st == 0)) [
      | inl e ↦ simp e tt
      | inr e ↦ simp e (
          attempts-kept (fits-IsKept c.world.recvs bytes) (endpoints_count c.st)
            (record c { st = move_current c.st }) (rw h tt, refl))
    ]

    -- Whatever bytes the network sends, an error that `resolve` gives is printed whole into the
    -- buffer of 2048 bytes, if no error was set before and strerror gives at most 1024 bytes.
    pub resolve-error_text :
        (c : Call) (m : Message)
        → c.failure ≡ none
        → AreBytes c.world.recvs
        → (resolve c).0 ≡ unanswered (some m)
        → error_text strerror m ≡ error_format strerror m
    resolve-error_text c m h bytes e =
        error_text_whole strerror m (rw e at (resolve-AnswerFits c h bytes))
