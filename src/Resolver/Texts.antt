-- ===== src/Resolver/Texts.antt =====
-- The texts that SET_ERROR of src/resolver.c and src/transport.c prints, into a buffer of ERROR_SZ
-- bytes. strerror is the C library's.
use Prim.Native.Char.{code}
use Prim.Native.String.{String}
use native.Mathlib.Nat.{pow-suc}
use yeti_pg_ext.Base.{
  Bytes, ℕ, zero, suc, ◌+◌, ◌-◌, ◌*◌, ◌/◌, ◌%◌, ◌^◌, ◌≤◌, ◌<◌, [], ◌∷◌, ◌++◌, ◌≡◌, refl, ap, ◌∙◌,
  arith, true, ltb, ltb→lt, if◌then◌else◌, length, length-append, take, take_all, Bool-cases, inl,
  inr,
}
use yeti_pg_ext.Base.CString.{is_digit, digits_value}
use yeti_pg_ext.Resolver.Message.{
  Message, no_endpoints, message_too_long, response_too_small, empty_reply, poll_failed,
  rtt_expired, cannot_receive, not_answered, claimed_length, claimed_json_length, malformed_lrn,
  remote, remote_code, invalid_socket, send_failed, receive_failed,
}

-- A text of the source, byte by byte.
abbrev pub codes : String → Bytes
codes String.[] = []
codes (String.◌∷◌ c s) = code c ∷ codes s

abbrev pub error_sz : ℕ
error_sz = 2048

-- The digits of a number below 10 ^ fuel, in front of others.
unfoldable pub digits_before : ℕ → ℕ → Bytes → Bytes
digits_before zero n out = out
digits_before (suc fuel) n out =
    let more = digits_before fuel (n / 10) ((b'0' + n % 10) ∷ out) in
    if ltb n 10 then (b'0' + n) ∷ out else more

-- %u and %ld: a number of 64 bits has at most 20 digits.
unfoldable pub decimal : ℕ → Bytes
unfolding digits_before
decimal n = digits_before 20 n []

-- %d of a 32-bit pattern.
unfoldable pub signed_decimal : ℕ → Bytes
unfolding decimal
signed_decimal n = if ltb n (2 ^ 31) then decimal n else b'-' ∷ decimal (2 ^ 32 - n)

module _ (strerror : ℕ → Bytes) where
  unfoldable pub error_format : Message → Bytes
  unfolding decimal signed_decimal
  error_format no_endpoints = codes "local: no configured endpoints"
  error_format message_too_long = codes "message is to long"
  error_format response_too_small = codes "local: unexpected response (response too small)"
  error_format empty_reply = codes "empty reply"
  error_format (poll_failed n id) =
      codes "local: rtt poll failed with errno:"
      ++ (signed_decimal n ++ (codes ", req_id:" ++ decimal id))
  error_format (rtt_expired id) = codes "local: rtt waiting expired. req_id:" ++ decimal id
  error_format (cannot_receive id) = codes "can't receive response for req_id:" ++ decimal id
  error_format (not_answered id) = codes "local: failed to get response for req_id:" ++ decimal id
  error_format (claimed_length claimed left) =
      codes "local: unexpected response (claimed response length "
      ++ (signed_decimal claimed
          ++ (codes " but have only " ++ (decimal left ++ codes " bytes at the tail)")))
  error_format (claimed_json_length claimed left) =
      codes "unexpected response (claimed response length "
      ++ (signed_decimal claimed
          ++ (codes " but have only " ++ (decimal left ++ codes " bytes at the tail)")))
  error_format (malformed_lrn lrn_length total) =
      codes "local: malformed response (claimed lrn_length "
      ++ (signed_decimal lrn_length
          ++ (codes " but total_length is " ++ (signed_decimal total ++ codes " bytes only)")))
  error_format (remote resp_code text) =
      codes "remote: " ++ (signed_decimal resp_code ++ (codes " <" ++ (text ++ codes ">")))
  error_format (remote_code resp_code) = codes "remote: " ++ signed_decimal resp_code
  error_format invalid_socket = codes "transport: send_data: error: invalid socket_fd"
  error_format (send_failed e) = codes "transport: send_data: errno: " ++ strerror e
  error_format (receive_failed e) = codes "transport: recv_data: errno: " ++ strerror e

  -- snprintf keeps what leaves room for the NUL.
  unfoldable pub error_text : Message → Bytes
  unfolding error_format
  error_text m = take (error_sz - 1) (error_format m)

digits_value-digit :
    (acc d : ℕ) (out : Bytes)
    → d < 10
    → digits_value acc ((b'0' + d) ∷ out) ≡ digits_value (10 * acc + d) out
unfolding digits_value
digits_value-digit acc d out h =
    let digit : is_digit (b'0' + d) ≡ true = ground arith in
    let same : 10 * acc + ((b'0' + d) - b'0') ≡ 10 * acc + d = omega arith in rw (digit, same) refl

digits_value-digits_before :
    (fuel n : ℕ) (out : Bytes)
    → n < 10 ^ fuel
    → digits_value 0 (digits_before fuel n out) ≡ digits_value n out
unfolding digits_before
digits_value-digits_before zero n out h = let none_left : n ≡ 0 = omega arith in rw none_left refl
digits_value-digits_before (suc fuel) n out h = elim (Bool-cases (ltb n 10)) [
  | inl small ↦ rw small (
      digits_value-digit 0 n out (ltb→lt n 10 small)
      ∙ ap (λ (m : ℕ). digits_value m out) (omega arith))
  | inr large ↦
      let below : n / 10 < 10 ^ fuel = omega (arith, pow-suc 10 fuel) in
      rw large (
        digits_value-digits_before fuel (n / 10) ((b'0' + n % 10) ∷ out) below
        ∙ digits_value-digit (n / 10) (n % 10) out (omega arith)
        ∙ ap (λ (m : ℕ). digits_value m out) (omega arith))
]

length-digits_before :
    (fuel n : ℕ) (out : Bytes) → length (digits_before fuel n out) ≤ fuel + length out
unfolding digits_before
length-digits_before zero n out = omega arith
length-digits_before (suc fuel) n out =
    ground (arith, length-digits_before fuel (n / 10) ((b'0' + n % 10) ∷ out))

-- What %u and %ld print of a number of 64 bits reads back as the number.
pub digits_value-decimal : (n : ℕ) → n < 2 ^ 64 → digits_value 0 (decimal n) ≡ n
unfolding decimal digits_value
digits_value-decimal n h = digits_value-digits_before 20 n [] (omega arith)

pub length-decimal-le : (n : ℕ) → length (decimal n) ≤ 20
unfolding decimal
length-decimal-le n = omega (arith, length-digits_before 20 n [])

pub length-signed_decimal-le : (n : ℕ) → length (signed_decimal n) ≤ 21
unfolding signed_decimal
length-signed_decimal-le n = ground (arith, length-decimal-le n, length-decimal-le (4294967296 - n))

-- The part of a message that has no bound of its own.
abbrev pub FitsText : (ℕ → Bytes) → Message → Type 0
FitsText strerror (remote resp_code text) = length text ≤ 1024
FitsText strerror (send_failed e) = length (strerror e) ≤ 1024
FitsText strerror (receive_failed e) = length (strerror e) ≤ 1024
FitsText strerror _ = Unit {0}

ruleset text_lengths = (arith, length-append, length-decimal-le, length-signed_decimal-le)

module _ (strerror : ℕ → Bytes) where
  length-error_format-lt :
      (m : Message) → FitsText strerror m → length (error_format strerror m) < error_sz
  unfolding error_format
  length-error_format-lt no_endpoints h = omega arith
  length-error_format-lt message_too_long h = omega arith
  length-error_format-lt response_too_small h = omega arith
  length-error_format-lt empty_reply h = omega arith
  length-error_format-lt (poll_failed n id) h = grind text_lengths
  length-error_format-lt (rtt_expired id) h = omega (arith, length-decimal-le id)
  length-error_format-lt (cannot_receive id) h = omega (arith, length-decimal-le id)
  length-error_format-lt (not_answered id) h = omega (arith, length-decimal-le id)
  length-error_format-lt (claimed_length claimed left) h = grind text_lengths
  length-error_format-lt (claimed_json_length claimed left) h = grind text_lengths
  length-error_format-lt (malformed_lrn lrn_length total) h = grind text_lengths
  length-error_format-lt (remote resp_code text) h = grind text_lengths
  length-error_format-lt (remote_code resp_code) h =
      omega (arith, length-signed_decimal-le resp_code)
  length-error_format-lt invalid_socket h = omega arith
  length-error_format-lt (send_failed e) h = omega arith
  length-error_format-lt (receive_failed e) h = omega arith

  -- A message whose own text has at most 1024 bytes, which those of the resolver have, is printed
  -- whole.
  pub error_text_whole :
      (m : Message) → FitsText strerror m → error_text strerror m ≡ error_format strerror m
  unfolding error_text
  error_text_whole m h =
      take_all 2047 (error_format strerror m) (omega (arith, length-error_format-lt m h))
