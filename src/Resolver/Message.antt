-- ===== src/Resolver/Message.antt =====
-- The datagrams of src/resolver.c: `prepare_msg` and `parse_msg` with their helpers. Numbers stand
-- in them in the machine's order, least byte first. `msg` is zeroed before it is filled, so a read
-- behind the datagram gives 0.
use yeti_pg_ext.Base.{
  Bytes, ℕ, suc, ◌+◌, ◌-◌, ◌*◌, ◌/◌, ◌%◌, Bool, true, false, not, [], ◌∷◌, ◌++◌, Option, none, some,
  ltb, ◌==◌, if◌then◌else◌, length, get_or, take, drop,
}
use yeti_pg_ext.Base.CString.{until_nul}

abbrev pub msg_sz : ℕ
msg_sz = 2048

abbrev pub tagged_hdr_size : ℕ
tagged_hdr_size = 7

abbrev pub tagged_err_response_hdr_size : ℕ
tagged_err_response_hdr_size = 6

abbrev pub cnam_hdr_size : ℕ
cnam_hdr_size = 10

abbrev pub cnam_response_hdr_size : ℕ
cnam_response_hdr_size = 8

abbrev pub cnfrm_response_hdr_size : ℕ
cnfrm_response_hdr_size = 4

-- `db_id` is the 32-bit pattern of the int4 argument.
pub record Request : Type 0 where
  pub id : ℕ
  pub type : ℕ
  pub db_id : ℕ
  pub payload : Bytes

-- The strings are `none` where the pointer is NULL.
pub record Response : Type 0 where
  pub id : ℕ
  pub is_confrm : Bool
  pub val : Option Bytes
  pub val_1 : Option Bytes
  pub val_2 : Option Bytes

-- memset(resp, 0, sizeof(response))
abbrev pub no_response : Response
no_response = record { id = 0; is_confrm = false; val = none; val_1 = none; val_2 = none }

-- The texts of SET_ERROR, with what is printed into them.
pub data Message : Type 0 where
  no_endpoints message_too_long response_too_small empty_reply : Message
  poll_failed : ℕ → ℕ → Message
  rtt_expired : ℕ → Message
  cannot_receive : ℕ → Message
  not_answered : ℕ → Message
  claimed_length claimed_json_length : ℕ → ℕ → Message
  malformed_lrn : ℕ → ℕ → Message
  remote : ℕ → Bytes → Message
  remote_code : ℕ → Message
  invalid_socket : Message
  send_failed receive_failed : ℕ → Message

-- *(uint32_t *)p = n
abbrev pub write32 : ℕ → Bytes
write32 n = n % 256 ∷ n / 256 % 256 ∷ n / 65536 % 256 ∷ n / 16777216 % 256 ∷ []

-- *(uint32_t *)(msg + i)
abbrev pub read32 : Bytes → ℕ → ℕ
read32 m i =
    get_or m i 0
    + 256 * get_or m (suc i) 0
    + 65536 * get_or m (suc (suc i)) 0
    + 16777216 * get_or m (suc (suc (suc i))) 0

-- The message of `msg_len` bytes, or `none` for a code other than 0.
unfoldable pub prepare_tagged_msg : Request → Option Bytes
prepare_tagged_msg req =
    let data_size = length req.payload in
    if ltb msg_sz (data_size + tagged_hdr_size)
    then none
    else some (write32 req.id ++ (req.db_id % 256 ∷ req.type % 256 ∷ data_size % 256 ∷ req.payload))

unfoldable pub prepare_json_msg : Request → Option Bytes
prepare_json_msg req =
    let data_size = length req.payload in
    if ltb msg_sz (data_size + cnam_hdr_size)
    then none
    else some
        (write32 req.id ++ (req.db_id % 256 ∷ req.type % 256 ∷ (write32 data_size ++ req.payload)))

-- TAGGED_REQ_VERSION is 0 and CNAM_REQ_VERSION 1.
unfoldable pub prepare_msg : Request → Option Bytes
unfolding prepare_tagged_msg prepare_json_msg
prepare_msg req =
    if req.type == 0
    then prepare_tagged_msg req
    else if req.type == 1
    then prepare_json_msg req
    else none

-- A code of 0, or another with the error set, if it is.
pub data Parsed : Type 0 where
  parsed : Response → Parsed
  refused : Option Message → Parsed

unfoldable pub parse_confrm_resp_msg : Bytes → Parsed
parse_confrm_resp_msg msg =
    if ltb cnfrm_response_hdr_size (length msg)
    then refused none
    else if ltb (length msg) cnfrm_response_hdr_size
    then refused (some response_too_small)
    else parsed (record no_response { id = read32 msg 0; is_confrm = true })

unfoldable pub parse_json_msg : Bytes → Parsed
parse_json_msg msg =
    let data_size = read32 msg 4 in
    let left = length msg - cnam_response_hdr_size in
    if ltb (length msg) cnam_response_hdr_size
    then refused (some response_too_small)
    else if data_size == 0
    then refused (some empty_reply)
    else if ltb left data_size
    then refused (some (claimed_json_length data_size left))
    else parsed (record no_response {
      id = read32 msg 0;
      val = some (take data_size (drop cnam_response_hdr_size msg));
    })

-- The branch for a response code other than TAGGED_RESPONSE_CODE_SUCCESS; `%.*s` ends at a NUL.
unfoldable pub parse_remote_error : Bytes → ℕ → ℕ → Parsed
parse_remote_error msg resp_code data_size =
    let left = length msg - tagged_err_response_hdr_size in
    if ltb left data_size
    then refused (some (claimed_length data_size left))
    else if data_size == 0
    then refused (some (remote_code resp_code))
    else refused (
        some
          (remote resp_code (until_nul (take data_size (drop tagged_err_response_hdr_size msg)))))

-- The tag behind the number, NULL if it is empty.
unfoldable pub tag_of : Bytes → ℕ → ℕ → Option Bytes
tag_of body lrn_length tag_length =
    if ltb 0 tag_length then some (take tag_length (drop lrn_length body)) else none

unfoldable pub parse_tagged_msg : Bytes → Parsed
unfolding parse_remote_error tag_of
parse_tagged_msg msg =
    let resp_code = get_or msg 4 0 in
    let data_size = get_or msg 5 0 in
    let lrn_length = get_or msg 6 0 in
    let left = length msg - tagged_hdr_size in
    let body = drop tagged_hdr_size msg in
    if ltb (length msg) tagged_hdr_size
    then refused (some response_too_small)
    else if not (resp_code == 0)
    then parse_remote_error msg resp_code data_size
    else if ltb left data_size
    then refused (some (claimed_length data_size left))
    else if ltb data_size lrn_length
    then refused (some (malformed_lrn lrn_length data_size))
    else parsed (record no_response {
      id = read32 msg 0;
      val_1 = some (take lrn_length body);
      val_2 = tag_of body lrn_length (data_size - lrn_length);
    })

-- The switch of `parse_msg`, behind the attempt to read a confirmation.
unfoldable pub parse_full : ℕ → Bytes → Parsed
unfolding parse_tagged_msg parse_json_msg
parse_full type msg =
    if type == 0
    then parse_tagged_msg msg
    else if type == 1
    then parse_json_msg msg
    else refused none

unfoldable pub parse_msg : Request → Bytes → Parsed
unfolding parse_confrm_resp_msg parse_full
parse_msg req msg = elim (parse_confrm_resp_msg msg) [
  | parsed r ↦ parsed r
  | refused e ↦ parse_full req.type msg
]
