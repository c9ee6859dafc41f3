-- ===== src/Resolver/Uri.antt =====
-- src/uri_parser.c: `parseAddr`. An address is the string's bytes without its NUL.
use yeti_pg_ext.Base.{
  Bytes, ℕ, ◌+◌, Bool, true, false, ◌&&◌, ◌||◌, [], ◌∷◌, Option, none, some, leb, ◌==◌,
  if◌then◌else◌, length,
}
use yeti_pg_ext.Base.CString.{memchr, is_space, digits_value}
use yeti_pg_ext.Base.Outcome.{Outcome, ok, fault, ◌>>=◌}

abbrev pub sockaddr_size : ℕ
sockaddr_size = 128

abbrev pub protocol_size : ℕ
protocol_size = 16

abbrev pub host_size : ℕ
host_size = 64

-- `host` is the bytes of its array up to the first NUL, or all 65 where there is none: nothing may
-- read it as a string then. `port` is the pair of a sign and a magnitude that `atoi` reads.
pub record UriComponents : Type 0 where
  pub proto : Bytes
  pub host : Bytes
  pub port : Bool × ℕ

abbrev pub shift : ℕ → Option (Bytes × Bytes) → Option (Bytes × Bytes)
shift c none = none
shift c (some (before, after)) = some (c ∷ before, after)

-- The text behind "//", if the text begins with it.
abbrev pub behind_slashes : Bytes → Option Bytes
behind_slashes (c ∷ d ∷ cs) = if c == b'/' && d == b'/' then some cs else none
behind_slashes _ = none

-- strstr of "://"
unfoldable pub strstr_scheme : Bytes → Option (Bytes × Bytes)
strstr_scheme [] = none
strstr_scheme (c ∷ cs) =
    let later = shift c (strstr_scheme cs) in
    if c == b':'
    then elim (behind_slashes cs) [ some after ↦ some ([], after) | none ↦ later ]
    else later

-- A sign, then the digits up to any other byte.
unfoldable pub signed_value : Bytes → Bool × ℕ
unfolding digits_value
signed_value [] = (false, 0)
signed_value (c ∷ cs) =
    if c == b'-'
    then (true, digits_value 0 cs)
    else if c == b'+'
    then (false, digits_value 0 cs)
    else (false, digits_value 0 (c ∷ cs))

unfoldable pub atoi : Bytes → Bool × ℕ
unfolding signed_value
atoi [] = (false, 0)
atoi (c ∷ cs) = let later = atoi cs in if is_space c then later else signed_value (c ∷ cs)

-- `if(comp_sz > 0 && comp_sz <= SIZE) strncpy(field, addr, comp_sz)` on a zeroed field
abbrev pub component : ℕ → Bytes → Bytes
component size comp = if leb (length comp) size then comp else []

-- The host without a port: the second strncpy has no bound but the array's, HOST_SIZE + 1 bytes.
unfoldable pub parse_bare_host : Bytes → Bytes → Outcome UriComponents
parse_bare_host proto addr =
    if leb (length addr) (host_size + 1)
    then ok (record { proto = proto; host = addr; port = (false, 0) })
    else fault

unfoldable pub parse_host : Bytes → Bytes → Outcome UriComponents
unfolding memchr parse_bare_host atoi
parse_host proto addr = elim (memchr b':' addr) [
  | none ↦ parse_bare_host proto addr
  | some (before, after) ↦
      ok (record { proto = proto; host = component host_size before; port = atoi after })
]

-- `none` is the code -1.
unfoldable pub parse_addr : Bytes → Outcome (Option UriComponents)
unfolding strstr_scheme parse_host
parse_addr addr =
    if length addr == 0 || leb sockaddr_size (length addr)
    then ok none
    else elim (strstr_scheme addr) [
      | none ↦ parse_host [] addr >>= λ c. ok (some c)
      | some (before, after) ↦
          parse_host (component protocol_size before) after >>= λ c. ok (some c)
    ]
