-- ===== src/Session/Unload.antt =====
-- Unloading the extension at the end of a session.
use yeti_pg_ext.Base.{Bytes, ℕ, Bool, false, Option, none, ◌≡◌, refl, sym, ap, ◌∙◌}
use yeti_pg_ext.Base.Outcome.{Outcome, ok, error, fault}
use yeti_pg_ext.Cache.{Entry, find}
use yeti_pg_ext.Cache.Table.{HashTable}
use yeti_pg_ext.Resolver.Resolve.{World}
use yeti_pg_ext.Lookup.{Ending}
use yeti_pg_ext.Tbf.{Key, Bucket, Floats, Hooks}
use yeti_pg_ext.Extension.{is_there, Process, pg_fini}
use yeti_pg_ext.Extension.Laws.{pg_fini-pg_init}
use yeti_pg_ext.Session.{
  Command, lnp_resolve_cnam, lnp_resolve_tagged, lnp_resolve_tagged_with_error,
  lnp_endpoints_cache_set, lnp_endpoints_set, lnp_endpoints_show, lnp_set_timeout,
  lnp_set_rtt_timeout, tbf_rate_check, Value, initial, loaded, settle, execute, run, Reach, here,
  ran, elsewhere,
}

module _ {Rate : Type 0} (F : Floats Rate) (H : HashTable Bytes Entry) (T : HashTable Key Bucket)
    (is_full : T.T → Bool) (inet_aton : Bytes → Option ℕ) where
  settle-hooks :
      {A : Type 0} (p : Process H T) (o : Outcome A) (f : A → Value × Process H T)
      → ((a : A) → (f a).1.hooks ≡ p.hooks)
      → (settle F H T is_full inet_aton p o f).1.hooks ≡ p.hooks
  settle-hooks p (ok a) f k = k a
  settle-hooks p error f k = refl
  settle-hooks p fault f k = refl

  execute-hooks :
      (p : Process H T) (w : World) (got : Bool) (c : Command Rate)
      → (execute F H T is_full inet_aton p w got c).1.hooks ≡ p.hooks
  unfolding execute
  execute-hooks p w got (lnp_resolve_cnam db_id payload) = refl
  execute-hooks p w got (lnp_resolve_tagged db_id payload) = refl
  execute-hooks p w got (lnp_resolve_tagged_with_error db_id payload) = refl
  execute-hooks p w got (lnp_endpoints_cache_set key response is_error) =
      settle-hooks p _ _ (λ cache. refl)
  execute-hooks p w got (lnp_endpoints_set input) = settle-hooks p _ _ (λ st. refl)
  execute-hooks p w got lnp_endpoints_show = refl
  execute-hooks p w got (lnp_set_timeout t) = settle-hooks p _ _ (λ st. refl)
  execute-hooks p w got (lnp_set_rtt_timeout t) = refl
  execute-hooks p w got (tbf_rate_check c) = settle-hooks p _ _ (λ r. refl)

  Reach-hooks : {p q : Process H T} → Reach F H T is_full inet_aton p q → q.hooks ≡ p.hooks
  unfolding run
  Reach-hooks here = refl
  Reach-hooks (ran {q} s e before below done alive) =
      sym (ap (λ (o : Ending Value × Process H T). o.1.hooks) done)
      ∙ execute-hooks q s.world s.got_socket s.command
      ∙ Reach-hooks before
  Reach-hooks (elsewhere t before same) =
      ap (λ (r : Process H T). r.hooks) same ∙ Reach-hooks before

  -- Unloaded after any calls since it was loaded, with any arguments that did not crash the process,
  -- and whatever other processes did, the extension has no socket and no cached answer, and the
  -- hooks are those from before it was loaded, if it has its memory exactly if it was loaded while
  -- libraries are preloaded.
  pub pg_fini-Reach :
      (preloading : Bool) (time : ℕ) (hooks : Hooks) (q : Process H T) (key : Bytes)
      → Reach F H T is_full inet_aton (loaded F H T is_full inet_aton preloading time hooks) q
      → is_there q.tbf ≡ preloading
      → (last : Process H T) × (pg_fini H T q ≡ ok last)
        × (last.resolver.socket_open ≡ false)
        × (find H last.cache key ≡ none)
        × (last.hooks.shmem_request_hook ≡ hooks.shmem_request_hook)
        × (last.hooks.shmem_startup_hook ≡ hooks.shmem_startup_hook)
  pg_fini-Reach preloading time hooks q key r there =
      pg_fini-pg_init H T preloading time (initial F H T is_full inet_aton hooks) q key
        (Reach-hooks r) there
