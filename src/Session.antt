-- ===== src/Session.antt =====
-- A backend process of PostgreSQL with the extension loaded: the exported functions that keep state
-- (src/exported_functions.h), called one after another, over Extension, Lookup, Resolver, Cache and Tbf.
-- All but tbf_rate_check are declared STRICT and get no NULL.
mod Sound
mod Safety
mod Stood
pub mod Unload
mod Mocked
mod Tests
use yeti_pg_ext.Base.{Bytes, ℕ, ◌^◌, ◌<◌, Bool, false, List, [], ◌∷◌, Option, none, some, ◌≡◌, ◌≢◌}
use yeti_pg_ext.Base.Outcome.{Outcome, ok, error, fault}
use yeti_pg_ext.Cache
use yeti_pg_ext.Cache.{Entry}
use yeti_pg_ext.Cache.Table.{HashTable}
use yeti_pg_ext.Resolver.Endpoints
use yeti_pg_ext.Resolver.Endpoints.{State}
use yeti_pg_ext.Resolver.Message.{Request}
use yeti_pg_ext.Resolver.Resolve.{World, Call}
use yeti_pg_ext.Lookup
use yeti_pg_ext.Lookup.{Ending, gave, stopped, crashed, blocked, Row, ErrorRow, request_of}
use yeti_pg_ext.Tbf
use yeti_pg_ext.Tbf.{Key, Bucket, Floats, RateCall, Hooks}
use yeti_pg_ext.Extension.{Process, pg_init}

-- A call of an exported function with its arguments.
pub data Command (Rate : Type 0) : Type 0 where
  lnp_resolve_cnam lnp_resolve_tagged lnp_resolve_tagged_with_error : ℕ → Bytes → Command Rate
  lnp_endpoints_cache_set : Bytes → Bytes → Bool → Command Rate
  lnp_endpoints_set : List (Option Bytes) → Command Rate
  lnp_endpoints_show : Command Rate
  lnp_set_timeout lnp_set_rtt_timeout : ℕ → Command Rate
  tbf_rate_check : RateCall Rate → Command Rate

-- With what the system gives to it: the answers of the network, and whether socket() succeeds.
pub record Statement (Rate : Type 0) : Type 0 where
  pub command : Command Rate
  pub world : World
  pub got_socket : Bool

-- The results.
pub data Value : Type 0 where
  text_value : Option Bytes → Value
  row_value : Option Row → Value
  error_row_value : ErrorRow → Value
  endpoint_rows : List (ℕ × Bytes) → Value
  bool_value : Bool → Value
  null_value : Value

-- The variables of the files as the library is loaded.
abbrev pub initial_state : State
initial_state = record {
  endpoints = [];
  curr_endpoint_index = 0;
  rtt_timeout = 5;
  req_id = 0;
  socket_open = false;
  recv_timeout = 0;
}

abbrev pub give {ℓ} : {A : Type ℓ} → (A → Value) → Ending A → Ending Value
give f (gave a) = gave (f a)
give f stopped = stopped
give f crashed = crashed
give f blocked = blocked

module _ {Rate : Type 0} (F : Floats Rate) (H : HashTable Bytes Entry) (T : HashTable Key Bucket)
    (is_full : T.T → Bool) (inet_aton : Bytes → Option ℕ) where
  abbrev pub initial : Hooks → Process H T
  initial hooks = record {
    resolver = initial_state;
    cache = none;
    hooks = hooks;
    tbf = none;
    seed = 0;
  }

  -- The process behind `_PG_init`.
  abbrev pub loaded : Bool → ℕ → Hooks → Process H T
  loaded preloading time hooks = pg_init H T preloading time (initial hooks)

  -- An ERROR leaves the variables as they were.
  abbrev pub settle {ℓ} :
      {A : Type ℓ}
      → Process H T
      → Outcome A
      → (A → Value × Process H T)
      → Ending Value × Process H T
  settle p (ok a) f = (gave (f a).0, (f a).1)
  settle p error f = (stopped, p)
  settle p fault f = (crashed, p)

  -- The call of `resolve` over the process's variables; the request is filled in by the functions.
  abbrev pub call_of : Process H T → World → Call
  call_of p w = record { st = p.resolver; world = w; req = request_of 0 0 []; failure = none }

  abbrev pub looked_up {ℓ} :
      {A : Type ℓ} → Process H T → (A → Value) → Ending A × Call → Ending Value × Process H T
  looked_up p f (e, c) = (give f e, record p { resolver = c.st })

  unfoldable pub execute : Process H T → World → Bool → Command Rate → Ending Value × Process H T
  execute p w got (lnp_resolve_cnam db_id payload) =
      looked_up p text_value (Lookup.lnp_resolve_cnam H p.cache (call_of p w) db_id payload)
  execute p w got (lnp_resolve_tagged db_id payload) =
      looked_up p row_value (Lookup.lnp_resolve_tagged H p.cache (call_of p w) db_id payload)
  execute p w got (lnp_resolve_tagged_with_error db_id payload) =
      looked_up p error_row_value
        (Lookup.lnp_resolve_tagged_with_error H p.cache (call_of p w) db_id payload)
  execute p w got (lnp_endpoints_cache_set key response is_error) =
      settle p (Cache.lnp_endpoints_cache_set H p.cache key response is_error)
        λ cache. (null_value, record p { cache = cache })
  execute p w got (lnp_endpoints_set input) =
      settle p (Endpoints.lnp_endpoints_set inet_aton got p.resolver input)
        λ st. (null_value, record p { resolver = st })
  execute p w got lnp_endpoints_show =
      (gave (endpoint_rows (Endpoints.lnp_endpoints_show p.resolver)), p)
  execute p w got (lnp_set_timeout t) =
      settle p (Endpoints.lnp_set_timeout got p.resolver t)
        λ st. (null_value, record p { resolver = st })
  execute p w got (lnp_set_rtt_timeout t) =
      (gave null_value, record p { resolver = Endpoints.lnp_set_rtt_timeout p.resolver t })
  execute p w got (tbf_rate_check c) =
      settle p (Tbf.tbf_rate_check F T is_full p.tbf c)
        λ r. (bool_value r.1, record p { tbf = r.0 })

  unfoldable pub run : Process H T → Statement Rate → Ending Value × Process H T
  unfolding execute
  run p s = execute p s.world s.got_socket s.command

  -- How a process comes to another state: a statement that does not crash it, rand() being a 31-bit
  -- number, or what other processes do to the table in the shared memory.
  pub data Reach (p : Process H T) : Process H T → Type 0 where
    here : Reach p p
    ran :
        {q r : Process H T}
        → (s : Statement Rate) → (e : Ending Value) → Reach p q
        → s.world.rand < 2 ^ 31
        → run q s ≡ (e, r)
        → e ≢ crashed
        → Reach p r
    elsewhere :
        {q r : Process H T} → (t : Option T.T) → Reach p q → r ≡ record q { tbf = t } → Reach p r
