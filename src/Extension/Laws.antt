-- ===== src/Extension/Laws.antt =====
-- What unloading the extension leaves behind.
use yeti_pg_ext.Base.{Bytes, ℕ, Bool, false, none, some, ◌≡◌, refl, Bool-cases, inl, inr}
use yeti_pg_ext.Base.Outcome.{ok}
use yeti_pg_ext.Cache.Table.{HashTable}
use yeti_pg_ext.Cache.{Entry, Status, done, failed, Cache, find, destroy}
use yeti_pg_ext.Cache.Removal.{destroy-none}
use yeti_pg_ext.Resolver.Endpoints.{State, shutdown_socket}
use yeti_pg_ext.Tbf.{Key, Bucket, tbf_fini}
use yeti_pg_ext.Tbf.Laws.{tbf_fini-tbf_init}
use yeti_pg_ext.Extension.{is_there, Process, pg_init, pg_fini}

shutdown_socket_closed : (st : State) → (shutdown_socket st).socket_open ≡ false
unfolding shutdown_socket
shutdown_socket_closed st = elim (Bool-cases st.socket_open) [
  | inl opened ↦ simp opened refl
  | inr closed ↦ simp closed refl
]

module _ (H : HashTable Bytes Entry) (T : HashTable Key Bucket) where
  destroy_gone :
      (cache : Cache H) (key : Bytes)
      → (r : Cache H × Status) × (destroy H cache ≡ ok r) × (find H r.0 key ≡ none)
  unfolding destroy find
  destroy_gone none key = ((none, failed), refl, refl)
  destroy_gone (some t) key = let (c, e, gone, n) = destroy-none H t key in ((c, done), e, gone)

  -- Unloaded from any state in which the hooks are as loading left them, and which has its memory
  -- exactly if it was loaded while libraries are preloaded, the extension has no socket and no cached
  -- answer, and the hooks are those from before it was loaded.
  pub pg_fini-pg_init :
      (preloading : Bool) (time : ℕ) (p q : Process H T) (key : Bytes)
      → q.hooks ≡ (pg_init H T preloading time p).hooks
      → is_there q.tbf ≡ preloading
      → (last : Process H T) × (pg_fini H T q ≡ ok last)
        × (last.resolver.socket_open ≡ false)
        × (find H last.cache key ≡ none)
        × (last.hooks.shmem_request_hook ≡ p.hooks.shmem_request_hook)
        × (last.hooks.shmem_startup_hook ≡ p.hooks.shmem_startup_hook)
  unfolding pg_fini pg_init
  pg_fini-pg_init preloading time p q key e h =
      let (r, f, gone) = destroy_gone q.cache key in
      let (a, b) = tbf_fini-tbf_init preloading p.hooks in
      (
        record q {
          resolver = shutdown_socket q.resolver;
          cache = r.0;
          hooks = tbf_fini (is_there q.tbf) q.hooks;
        },
        simp f refl,
        shutdown_socket_closed q.resolver,
        gone,
        rw (h, e) a,
        rw (h, e) b,
      )
