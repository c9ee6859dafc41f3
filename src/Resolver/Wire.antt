-- ===== src/Resolver/Wire.antt =====
-- What the datagrams carry: requests as a server reads them, and answers as a server writes them.
use yeti_pg_ext.Base.{
  Bytes, ℕ, ◌+◌, ◌%◌, ◌^◌, ◌≤◌, ◌<◌, false, [], ◌∷◌, ◌++◌, Option, none, some, ◌≡◌, refl, ◌∙◌,
  arith, ◌==◌, if◌then◌else◌, length, length-append, get_or, drop, take-length_append,
  drop-length_append,
}
use yeti_pg_ext.Base.CString.{has_nul, until_nul_id}
use yeti_pg_ext.Resolver.Message.{
  Request, Message, remote, remote_code, no_response, write32, read32, msg_sz, prepare_msg, parsed,
  refused, tag_of, parse_full, parse_msg,
}

read32-write32 : (n : ℕ) (rest : Bytes) → n < 2 ^ 32 → read32 (write32 n ++ rest) 0 ≡ n
read32-write32 n rest h = omega arith

-- What a server makes of a request: the number, the database, the version and the payload, if the
-- length field counts what follows it. The field has `width` bytes.
pub record Seen : Type 0 where
  pub id : ℕ
  pub db_id : ℕ
  pub type : ℕ
  pub payload : Bytes

abbrev pub seen : ℕ → ℕ → Bytes → Option Seen
seen size hdr m =
    if length (drop hdr m) == size
    then some (record {
      id = read32 m 0;
      db_id = get_or m 4 0;
      type = get_or m 5 0;
      payload = drop hdr m;
    })
    else none

abbrev pub serve_tagged : Bytes → Option Seen
serve_tagged m = seen (get_or m 6 0) 7 m

abbrev pub serve_cnam : Bytes → Option Seen
serve_cnam m = seen (read32 m 6) 10 m

abbrev pub seen_of : Request → Seen
seen_of req = record {
  id = req.id;
  db_id = req.db_id % 256;
  type = req.type;
  payload = req.payload;
}

seen_eq :
    (m payload : Bytes) (size hdr : ℕ) (req : Request)
    → drop hdr m ≡ req.payload
    → size ≡ length req.payload
    → read32 m 0 ≡ req.id
    → get_or m 4 0 ≡ req.db_id % 256
    → get_or m 5 0 ≡ req.type
    → seen size hdr m ≡ some (seen_of req)
seen_eq m payload size hdr req d s i b t = ground arith

-- A server that goes by the length field reads a tagged request of less than 256 bytes, with a
-- 32-bit identifier, as it was given, but for the upper bytes of `db_id`.
pub serve_tagged-prepare_msg :
    (req : Request)
    → req.type ≡ 0
    → req.id < 2 ^ 32
    → length req.payload < 256
    → (m : Bytes) × (prepare_msg req ≡ some m) × (serve_tagged m ≡ some (seen_of req))
unfolding prepare_msg
serve_tagged-prepare_msg req t h k =
    let m =
      write32 req.id
      ++ (req.db_id % 256 ∷ req.type % 256 ∷ length req.payload % 256 ∷ req.payload) in
    (
      m,
      ground arith,
      seen_eq m req.payload (get_or m 6 0) 7 req refl (omega arith) (read32-write32 req.id [] h)
          refl (omega arith),
    )

-- The length field of a tagged request of 256 bytes or more that fits the buffer does not count the
-- payload that is sent.
pub serve_tagged_long :
    (req : Request)
    → req.type ≡ 0
    → 256 ≤ length req.payload
    → length req.payload + 7 ≤ msg_sz
    → (m : Bytes) × (prepare_msg req ≡ some m) × (serve_tagged m ≡ none)
unfolding prepare_msg
serve_tagged_long req t h k = (
  write32 req.id ++ (req.db_id % 256 ∷ req.type % 256 ∷ length req.payload % 256 ∷ req.payload),
  ground arith,
  ground arith,
)

-- A server that goes by the length field reads a cnam request that fits the buffer, with a 32-bit
-- identifier, as it was given, but for the upper bytes of `db_id`.
pub serve_cnam-prepare_msg :
    (req : Request)
    → req.type ≡ 1
    → req.id < 2 ^ 32
    → length req.payload + 10 ≤ msg_sz
    → (m : Bytes) × (prepare_msg req ≡ some m) × (serve_cnam m ≡ some (seen_of req))
unfolding prepare_msg
serve_cnam-prepare_msg req t h k =
    let m =
      write32 req.id
      ++ (req.db_id % 256 ∷ req.type % 256 ∷ (write32 (length req.payload) ++ req.payload)) in
    (
      m,
      ground arith,
      seen_eq m req.payload (read32 m 6) 10 req refl (omega arith) (read32-write32 req.id [] h) refl
          (omega arith),
    )

-- A message that is prepared, of either type, fits the buffer.
pub length-prepare_msg-le :
    (req : Request) (m : Bytes) → prepare_msg req ≡ some m → length m ≤ msg_sz
unfolding prepare_msg
length-prepare_msg-le req m h =
    ground (arith, length-append (write32 req.id) (req.db_id % 256 ∷ req.type % 256 ∷ []))

-- An answer as a server writes it, with any bytes behind it.
abbrev pub tagged_answer : ℕ → Bytes → Bytes → Bytes → Bytes
tagged_answer id lrn tag rest =
    write32 id ++ (0 ∷ (length lrn + length tag) ∷ length lrn ∷ (lrn ++ (tag ++ rest)))

abbrev pub optional : Bytes → Option Bytes
optional [] = none
optional (c ∷ cs) = some (c ∷ cs)

parse_msg_long :
    (req : Request) (m : Bytes) → 4 < length m → parse_msg req m ≡ parse_full req.type m
unfolding parse_msg
parse_msg_long req m h = ground arith

tag_of-optional :
    (lrn tag rest : Bytes) → tag_of (lrn ++ (tag ++ rest)) (length lrn) (length tag) ≡ optional tag
unfolding tag_of
tag_of-optional lrn [] rest = refl
tag_of-optional lrn (c ∷ tag) rest =
    rw (drop-length_append lrn (c ∷ (tag ++ rest)))
      (rw (take-length_append tag rest) (ground arith))

parse_tagged_answer :
    (id : ℕ) (lrn tag rest : Bytes)
    → id < 2 ^ 32
    → parse_full 0 (tagged_answer id lrn tag rest)
      ≡ parsed (record no_response { id = id; val_1 = some lrn; val_2 = optional tag })
unfolding parse_full
parse_tagged_answer id lrn tag rest h = ground (
  arith,
  take-length_append lrn (tag ++ rest),
  tag_of-optional lrn tag rest,
  length-append lrn (tag ++ rest),
  length-append tag rest,
  read32-write32 id [] h,
)

-- From an answer to a tagged request, with a 32-bit identifier, the identifier, the number and the
-- tag are read as the server wrote them, whatever bytes follow; an empty tag is NULL.
pub parse_msg-tagged_answer :
    (req : Request) (id : ℕ) (lrn tag rest : Bytes)
    → req.type ≡ 0
    → id < 2 ^ 32
    → parse_msg req (tagged_answer id lrn tag rest)
      ≡ parsed (record no_response { id = id; val_1 = some lrn; val_2 = optional tag })
parse_msg-tagged_answer req id lrn tag rest t h =
    parse_msg_long req (tagged_answer id lrn tag rest) (omega arith)
    ∙ rw t (parse_tagged_answer id lrn tag rest h)

-- What the error says of a refusal: its code, and its text if there is any.
abbrev pub refusal : ℕ → Bytes → Message
refusal code [] = remote_code code
refusal code (c ∷ cs) = remote code (c ∷ cs)

-- A refusal of a tagged request, with a code that is not 0, a text with no NUL and some byte behind
-- the header, is handed on with its code and its text.
pub parse_msg-remote :
    (req : Request) (id code : ℕ) (text rest : Bytes)
    → req.type ≡ 0
    → 0 < code
    → has_nul text ≡ false
    → 0 < length text + length rest
    → parse_msg req (write32 id ++ (code ∷ length text ∷ (text ++ rest)))
      ≡ refused (some (refusal code text))
unfolding parse_full
parse_msg-remote req id code [] rest t c n k =
    parse_msg_long req (write32 id ++ (code ∷ 0 ∷ rest)) (omega arith) ∙ rw t (ground arith)
parse_msg-remote req id code (x ∷ text) rest t c n k =
    let m = write32 id ++ (code ∷ length (x ∷ text) ∷ ((x ∷ text) ++ rest)) in
    parse_msg_long req m (omega arith)
    ∙ rw t (
        ground (
          arith,
          take-length_append (x ∷ text) rest,
          until_nul_id (x ∷ text) n,
          length-append (x ∷ text) rest,
        ))
