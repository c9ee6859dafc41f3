-- ===== src/Extension.antt =====
-- src/init.c and src/fini.c: what loading and unloading the extension do, over the other files, and
-- the init functions of src/transport.c and src/resolver.c.
pub mod Laws
use yeti_pg_ext.Base.{Bytes, ℕ, Bool, true, false, [], Option, none, some, map}
use yeti_pg_ext.Base.Outcome.{Outcome, ok, ◌>>=◌}
use yeti_pg_ext.Cache.Table.{HashTable}
use yeti_pg_ext.Cache.{Entry, Cache, destroy}
use yeti_pg_ext.Resolver.Endpoints.{Endpoint, State, shutdown_socket}
use yeti_pg_ext.Tbf.{Hooks, Key, Bucket, tbf_init, tbf_fini}

-- An entry of the array that `bzero` has passed over.
abbrev pub zeroed : Endpoint → Endpoint
zeroed e = record { id = 0; ip = 0; port = 0; url = [] }

-- Resolver.init; the number of endpoints stays.
unfoldable pub init_resolver : State → State
init_resolver st = record st { endpoints = map zeroed st.endpoints }

abbrev pub is_there {ℓ} : {A : Type ℓ} → Option A → Bool
is_there none = false
is_there (some a) = true

module _ (H : HashTable Bytes Entry) (T : HashTable Key Bucket) where
  -- The variables of the files, with the seed of rand; `tbf` is `none` while it is NULL.
  pub record Process : Type 0 where
    pub resolver : State
    pub cache : Cache H
    pub hooks : Hooks
    pub tbf : Option T.T
    pub seed : ℕ

  -- Transport.init: srand of the time.
  unfoldable pub init_transport : ℕ → Process → Process
  init_transport time p = record p { seed = time }

  unfoldable pub pg_init : Bool → ℕ → Process → Process
  unfolding init_transport init_resolver tbf_init
  pg_init preloading time p =
      let p' = init_transport time p in
      record p' { resolver = init_resolver p'.resolver; hooks = tbf_init preloading p'.hooks }

  unfoldable pub pg_fini : Process → Outcome Process
  unfolding tbf_fini
  pg_fini p = destroy H p.cache >>= λ r. ok (record p {
    resolver = shutdown_socket p.resolver;
    cache = r.0;
    hooks = tbf_fini (is_there p.tbf) p.hooks;
  })
