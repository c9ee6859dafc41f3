-- ===== src/Lookup/Delivery.antt =====
-- What a portability server's answer becomes in the row of lnp_resolve_tagged_with_error, past
-- endpoints that are silent.
use yeti_pg_ext.Base.{
  Bytes, ℕ, zero, suc, ◌+◌, ◌%◌, ◌^◌, ◌≤◌, ◌<◌, Bool, true, false, List, [], ◌∷◌, ◌++◌, none, some,
  ◌≡◌, refl, ap, ◌∙◌, arith, if◌then◌else◌, ◌==◌, length,
}
use yeti_pg_ext.Base.CString.{has_nul}
use yeti_pg_ext.Cache.Table.{HashTable}
use yeti_pg_ext.Cache.{Entry, Cache, find}
use yeti_pg_ext.Resolver.Message.{Request, remote, remote_code, write32, msg_sz}
use yeti_pg_ext.Resolver.Texts.{codes, signed_decimal, error_format, error_text_whole}
use yeti_pg_ext.Resolver.Wire.{tagged_answer, optional, refusal}
use yeti_pg_ext.Resolver.Listing.{IsNumbered}
use yeti_pg_ext.Resolver.Resolve.{Reply, Received, datagram, Call, Answer, unanswered, receive}
use yeti_pg_ext.Resolver.Answers.{IsNoise, receive-tagged_answer, receive-refusal}
use yeti_pg_ext.Resolver.Rounds.{asked, tour}
use yeti_pg_ext.Resolver.Served.{next_id, request_id, request_behind, IsServed}
use yeti_pg_ext.Resolver.Delivery.{IsMoved, resolve-Delivers}
use yeti_pg_ext.Lookup.{
  Ending, gave, Failure, local, failure_text, ErrorRow, asking, column, error_row_result,
  lnp_resolve_tagged_with_error,
}

-- What the column `error` says of a refusal.
abbrev pub refusal_text : ℕ → Bytes → Bytes
refusal_text code [] = codes "remote: " ++ signed_decimal code
refusal_text code (c ∷ cs) =
    codes "remote: " ++ (signed_decimal code ++ (codes " <" ++ ((c ∷ cs) ++ codes ">")))

failure_text-refusal :
    (strerror : ℕ → Bytes) (code : ℕ) (text : Bytes)
    → length text ≤ 1024
    → failure_text strerror (local (refusal code text)) ≡ refusal_text code text
unfolding failure_text
failure_text-refusal strerror code [] h =
    error_text_whole strerror (remote_code code) tt ∙ unfold error_format in refl
failure_text-refusal strerror code (c ∷ cs) h =
    error_text_whole strerror (remote code (c ∷ cs)) h ∙ unfold error_format in refl

next_id-lt : (rand id : ℕ) → rand < 2 ^ 32 → next_id rand id < 2 ^ 32
next_id-lt rand id r = next (id == 0)
  where
    next : (b : Bool) → (if b then rand else (id + 1) % 2 ^ 32) < 2 ^ 32
    next true = r
    next false = omega arith

request_id-lt : (rand k id : ℕ) → rand < 2 ^ 32 → request_id rand k id < 2 ^ 32
request_id-lt rand zero id r = next_id-lt rand id r
request_id-lt rand (suc k) id r = request_id-lt rand k (next_id rand id) r

module _ (H : HashTable Bytes Entry) (cache : Cache H) (c : Call) (db_id : ℕ) (payload : Bytes)
    (k n : ℕ) (sends polls : List Reply) where
  -- Nothing is cached for the payload, the endpoints are numbered from 0 and the index is at one of
  -- them, and from there `k` are silent and the next one has something to read.
  pub record IsReached : Type 0 where
    pub uncached : find H cache payload ≡ none
    pub numbered : IsNumbered 0 c.st.endpoints
    pub indexed : c.st.curr_endpoint_index < length c.st.endpoints
    pub some_left : k < length c.st.endpoints
    pub served : IsServed k n sends polls (asking c 0 db_id payload)
    pub random : c.world.rand < 2 ^ 32

  -- The request that the last endpoint gets.
  abbrev pub last_request : Request
  last_request = request_behind k (asking c 0 db_id payload)

  -- The endpoints that get a request, and what the datagrams are read as.
  given :
      (a : Answer) (later : List Received) (row : ErrorRow)
      → IsReached
      → receive last_request c.world.recvs ≡ (a, later)
      → error_row_result a ≡ gave row
      → (c' : Call) × (lnp_resolve_tagged_with_error H cache c db_id payload ≡ (gave row, c'))
        × (asked c' ≡ asked c ++ tour (length c.st.endpoints) (suc k) c.st.curr_endpoint_index)
        × IsMoved k c c'
  unfolding lnp_resolve_tagged_with_error
  given a later row h e f =
      let (c', r, t, m) =
        resolve-Delivers n sends polls k (asking c 0 db_id payload) h.some_left h.numbered h.indexed
          h.served in
      (
        c',
        rw (h.uncached, lnp_resolve_tagged_with_error)
            (rw r (
              ap (λ (o : Ending ErrorRow). (o, c'))
                (ap (λ (p : Answer × List Received). error_row_result p.0) e ∙ f))),
        t,
        m,
      )

  -- If, behind any noise, there is an answer to the request, of less than 2048 bytes, the row has
  -- the number and the tag, up to a NUL in them, and no error; an empty tag is NULL. The endpoint
  -- that answered is the current one then, with which the next call starts.
  pub lnp_resolve_tagged_with_error-answer :
      (noise later : List Received) (lrn tag rest : Bytes)
      → IsReached
      → IsNoise last_request noise
      → c.world.recvs ≡ noise ++ (datagram (tagged_answer last_request.id lrn tag rest) ∷ later)
      → length (tagged_answer last_request.id lrn tag rest) < msg_sz
      → (c' : Call) × (lnp_resolve_tagged_with_error H cache c db_id payload ≡ (
        gave (record { lrn = column (some lrn); tag = column (optional tag); error = none }),
        c',
      ))
        × (asked c' ≡ asked c ++ tour (length c.st.endpoints) (suc k) c.st.curr_endpoint_index)
        × IsMoved k c c'
  lnp_resolve_tagged_with_error-answer noise later lrn tag rest h z e short =
      given _ later _ h
        (ap (λ ds. receive last_request ds) e
          ∙ receive-tagged_answer last_request noise later lrn tag rest refl
              (request_id-lt c.world.rand k c.st.req_id h.random) z short)
        (unfold error_row_result in refl)

  -- If, behind any noise, there is a refusal, with a code that is not 0, a text with no NUL of at
  -- most 255 bytes and some byte behind the header, of less than 2048 bytes, the row has the error
  -- alone, which is the code and the text whole, whatever identifier the refusal has. The endpoint
  -- that refused is the current one then.
  pub lnp_resolve_tagged_with_error-refusal :
      (strerror : ℕ → Bytes) (noise later : List Received) (id code : ℕ) (text rest : Bytes)
      → IsReached
      → IsNoise last_request noise
      → 0 < code
      → has_nul text ≡ false
      → length text < 256
      → 0 < length text + length rest
      → c.world.recvs
        ≡ noise ++ (datagram (write32 id ++ (code ∷ length text ∷ (text ++ rest))) ∷ later)
      → length (write32 id ++ (code ∷ length text ∷ (text ++ rest))) < msg_sz
      → (c' : Call) × (failure : Failure) × (lnp_resolve_tagged_with_error H cache c db_id payload
          ≡ (gave (record { lrn = none; tag = none; error = some failure }), c'))
        × (failure_text strerror failure ≡ refusal_text code text)
        × (asked c' ≡ asked c ++ tour (length c.st.endpoints) (suc k) c.st.curr_endpoint_index)
        × IsMoved k c c'
  lnp_resolve_tagged_with_error-refusal strerror noise later id code text rest h z p u l m e short =
      let row : ErrorRow = record {
        lrn = none;
        tag = none;
        error = some (local (refusal code text));
      } in
      let (c', r, t, at_last) =
        given (unanswered (some (refusal code text))) later row h
          (ap (λ ds. receive last_request ds) e
            ∙ receive-refusal last_request noise later id code text rest refl z p u m short)
          (unfold error_row_result in refl) in
      (
        c',
        local (refusal code text),
        r,
        failure_text-refusal strerror code text (omega arith),
        t,
        at_last,
      )
