-- ===== src/Resolver/Endpoints.antt =====
-- The endpoint list of src/resolver.c, the socket of src/transport.c, and the functions that set
-- them: src/f_lnp_endpoints_set.c, src/f_lnp_endpoints_show.c, src/f_lnp_set_timeout.c and
-- src/f_lnp_set_rtt_timeout.c. A failed `add_endpoint` leaves a half-written entry behind the last
-- one, which nothing reads; the list here holds the entries below `endpoints_count`.
use yeti_pg_ext.Base.{
  Bytes, ℕ, zero, suc, ◌-◌, ◌%◌, Bool, true, false, List, [], ◌∷◌, ◌++◌, Option, none, some, ltb,
  leb, ◌==◌, if◌then◌else◌, length, get_elem?,
}
use yeti_pg_ext.Base.Outcome.{Outcome, ok, error, fault, ◌>>=◌}
use yeti_pg_ext.Resolver.Uri.{UriComponents, host_size, parse_addr}

abbrev pub max_endpoints : ℕ
max_endpoints = 5

abbrev pub max_endpoint_len : ℕ
max_endpoint_len = 128

-- `ip` and `port` are those of `addr`, in the host's order.
pub record Endpoint : Type 0 where
  pub id : ℕ
  pub ip : ℕ
  pub port : ℕ
  pub url : Bytes

-- The variables of the files. Timeouts are the 32-bit patterns of the int4 arguments.
pub record State : Type 0 where
  pub endpoints : List Endpoint
  pub curr_endpoint_index : ℕ
  pub rtt_timeout : ℕ
  pub req_id : ℕ
  pub socket_open : Bool
  pub recv_timeout : ℕ

abbrev pub endpoints_count : State → ℕ
endpoints_count st = length st.endpoints

-- htons of an int: its low 16 bits
unfoldable pub port_of : Bool × ℕ → ℕ
port_of (negative, n) = if negative then (65536 - n % 65536) % 65536 else n % 65536

unfoldable pub get_endpoint_at_index : State → ℕ → Option Endpoint
get_endpoint_at_index st i = get_elem? st.endpoints i

unfoldable pub remove_all_endpoints : State → State
remove_all_endpoints st = record st { endpoints = []; curr_endpoint_index = 0 }

unfoldable pub set_rtt_timeout : State → ℕ → State
set_rtt_timeout st t = record st { rtt_timeout = t }

unfoldable pub lnp_set_rtt_timeout : State → ℕ → State
unfolding set_rtt_timeout
lnp_set_rtt_timeout st t = set_rtt_timeout st t

-- With no socket the call returns -1 and changes nothing. What is kept is the timeout asked for, which
-- setsockopt refuses or cuts to 0 where it is negative; nothing reads it.
unfoldable pub set_timeout : State → ℕ → State
set_timeout st t = if st.socket_open then record st { recv_timeout = t } else st

abbrev pub default_recv_timeout : ℕ
default_recv_timeout = 5000

-- `got_socket` tells whether socket() gives one; if not, `err` is an ERROR.
unfoldable pub init_socket : Bool → State → Outcome State
unfolding set_timeout
init_socket got_socket st =
    if st.socket_open
    then ok st
    else if got_socket
    then ok (set_timeout (record st { socket_open = true }) default_recv_timeout)
    else error

unfoldable pub shutdown_socket : State → State
shutdown_socket st = if st.socket_open then record st { socket_open = false } else st

-- `if(Transport.get_socket_fd() < 0) Transport.init_socket();`
unfoldable pub ensure_socket : Bool → State → Outcome State
unfolding init_socket
ensure_socket got_socket st = if st.socket_open then ok st else init_socket got_socket st

unfoldable pub lnp_set_timeout : Bool → State → ℕ → Outcome State
unfolding ensure_socket set_timeout
lnp_set_timeout got_socket st t = ensure_socket got_socket st >>= λ st'. ok (set_timeout st' t)

-- `inet_aton` of the C library: the address that a string stands for, if it is one.
module _ (inet_aton : Bytes → Option ℕ) where
  -- Behind `parseAddr`.
  unfoldable pub add_parsed : State → Bytes → UriComponents → State
  unfolding port_of
  add_parsed st uri comps = elim (inet_aton comps.host) [
    | none ↦ st
    | some ip ↦ record st {
      endpoints =
          st.endpoints
          ++ (record { id = endpoints_count st; ip = ip; port = port_of comps.port; url = uri }
              ∷ []);
    }
  ]

  -- `inet_aton` reads the host as a string, past its array if that has no NUL. The code -1 leaves
  -- the state as it was.
  unfoldable pub after_parse : State → Bytes → Option UriComponents → Outcome State
  unfolding add_parsed
  after_parse st uri none = ok st
  after_parse st uri (some comps) =
      if leb (length comps.host) host_size then ok (add_parsed st uri comps) else fault

  unfoldable pub add_endpoint : State → Bytes → Outcome State
  unfolding after_parse
  add_endpoint st uri =
      if endpoints_count st == max_endpoints then ok st else parse_addr uri >>= after_parse st uri

  -- One element of the array: the copy wants room for the text and its NUL in `c_uri`.
  unfoldable pub set_one : State → Bytes → Outcome State
  unfolding add_endpoint
  set_one st uri = if ltb (length uri) max_endpoint_len then add_endpoint st uri else fault

  unfoldable pub set_each : State → List (Option Bytes) → Outcome State
  unfolding set_one
  set_each st [] = ok st
  set_each st (none ∷ uris) = set_each st uris
  set_each st (some uri ∷ uris) = set_one st uri >>= λ st'. set_each st' uris

  unfoldable pub lnp_endpoints_set : Bool → State → List (Option Bytes) → Outcome State
  unfolding ensure_socket remove_all_endpoints set_each
  lnp_endpoints_set got_socket st input =
      ensure_socket got_socket st >>= λ st'. set_each (remove_all_endpoints st') input

-- The rows of lnp_endpoints_show, one call after another.
unfoldable pub show_rows : State → ℕ → ℕ → List (ℕ × Bytes)
unfolding get_endpoint_at_index
show_rows st zero i = []
show_rows st (suc left) i =
    let later = show_rows st left (suc i) in
    elim (get_endpoint_at_index st i) [ none ↦ later | some ep ↦ (ep.id, ep.url) ∷ later ]

unfoldable pub lnp_endpoints_show : State → List (ℕ × Bytes)
unfolding show_rows
lnp_endpoints_show st = show_rows st (endpoints_count st) 0
