-- ===== src/Session/Sound.antt =====
-- What holds of the variables of a process, whatever was called.
use yeti_pg_ext.Base.{Bytes, ℕ, ◌^◌, ◌<◌, Bool, Option, ◌≡◌, refl, sym, ap, subst, inl, arith}
use yeti_pg_ext.Base.Outcome.{Outcome, ok, error, fault}
use yeti_pg_ext.Cache.{Entry}
use yeti_pg_ext.Cache.Table.{HashTable}
use yeti_pg_ext.Cache.Laws.{IsReadableCache}
use yeti_pg_ext.Cache.Alive.{lnp_endpoints_cache_set-alive}
use yeti_pg_ext.Resolver.Resolve.{World}
use yeti_pg_ext.Resolver.Steady.{IsWell}
use yeti_pg_ext.Resolver.Setting.{
  lnp_endpoints_set-IsWell, lnp_set_timeout-IsWell, lnp_set_rtt_timeout-IsWell,
}
use yeti_pg_ext.Lookup.{Ending}
use yeti_pg_ext.Lookup.Safe.{
  lnp_resolve_cnam-LookedUp, lnp_resolve_tagged-LookedUp, lnp_resolve_tagged_with_error-LookedUp,
}
use yeti_pg_ext.Tbf.{Key, Bucket, Floats, Hooks}
use yeti_pg_ext.Extension.{Process, pg_init, init_resolver}
use yeti_pg_ext.Session.{
  Command, lnp_resolve_cnam, lnp_resolve_tagged, lnp_resolve_tagged_with_error,
  lnp_endpoints_cache_set, lnp_endpoints_set, lnp_endpoints_show, lnp_set_timeout,
  lnp_set_rtt_timeout, tbf_rate_check, Statement, Value, loaded, settle, call_of, execute, run,
  Reach, here, ran, elsewhere,
}

module _ {Rate : Type 0} (F : Floats Rate) (H : HashTable Bytes Entry) (T : HashTable Key Bucket)
    (is_full : T.T → Bool) (inet_aton : Bytes → Option ℕ) where
  -- The resolver's variables are well and the cached answers can be read.
  pub record IsSound (p : Process H T) : Type 0 where
    pub well : IsWell p.resolver
    pub readable : IsReadableCache H p.cache

  settle-IsSound :
      {A : Type 0} (p : Process H T) (o : Outcome A) (f : A → Value × Process H T)
      → IsSound p
      → ((a : A) → o ≡ ok a → IsSound (f a).1)
      → IsSound (settle F H T is_full inet_aton p o f).1
  settle-IsSound p (ok a) f h k = k a refl
  settle-IsSound p error f h k = h
  settle-IsSound p fault f h k = h

  execute-IsSound :
      (p : Process H T) (w : World) (got : Bool) (c : Command Rate)
      → IsSound p
      → w.rand < 2 ^ 32
      → IsSound (execute F H T is_full inet_aton p w got c).1
  unfolding execute
  execute-IsSound p w got (lnp_resolve_cnam db_id payload) h r =
      let looked =
        lnp_resolve_cnam-LookedUp H p.cache (call_of F H T is_full inet_aton p w) db_id payload
          h.well r in
      record { well = looked.0; readable = h.readable }
  execute-IsSound p w got (lnp_resolve_tagged db_id payload) h r =
      let looked =
        lnp_resolve_tagged-LookedUp H p.cache (call_of F H T is_full inet_aton p w) db_id payload
          h.well r in
      record { well = looked.0; readable = h.readable }
  execute-IsSound p w got (lnp_resolve_tagged_with_error db_id payload) h r =
      let looked =
        lnp_resolve_tagged_with_error-LookedUp H p.cache (call_of F H T is_full inet_aton p w) db_id
          payload h.well r in
      record { well = looked.0; readable = h.readable }
  execute-IsSound p w got (lnp_endpoints_cache_set key response is_error) h r =
      settle-IsSound p _ _ h (λ cache e. record {
        well = h.well;
        readable = lnp_endpoints_cache_set-alive H p.cache cache key response is_error e;
      })
  execute-IsSound p w got (lnp_endpoints_set input) h r = settle-IsSound p _ _ h (λ st e. record {
    well = lnp_endpoints_set-IsWell inet_aton got p.resolver st input h.well e;
    readable = h.readable;
  })
  execute-IsSound p w got lnp_endpoints_show h r = h
  execute-IsSound p w got (lnp_set_timeout t) h r = settle-IsSound p _ _ h (λ st e. record {
    well = lnp_set_timeout-IsWell got p.resolver st t h.well e;
    readable = h.readable;
  })
  execute-IsSound p w got (lnp_set_rtt_timeout t) h r = record {
    well = lnp_set_rtt_timeout-IsWell p.resolver t h.well;
    readable = h.readable;
  }
  execute-IsSound p w got (tbf_rate_check c) h r =
      settle-IsSound p _ _ h (λ a e. record { well = h.well; readable = h.readable })

  pub initial-IsSound :
      (preloading : Bool) (time : ℕ) (hooks : Hooks)
      → IsSound (loaded F H T is_full inet_aton preloading time hooks)
  unfolding pg_init init_resolver
  initial-IsSound preloading time hooks = record {
    well = record {
      listed = record { within = omega arith; numbered = tt };
      indexed = inl refl;
      numbered = omega arith;
    };
    readable = tt;
  }

  step-IsSound :
      {q r : Process H T} (s : Statement Rate) (e : Ending Value)
      → IsSound q
      → s.world.rand < 2 ^ 31
      → run F H T is_full inet_aton q s ≡ (e, r)
      → IsSound r
  unfolding run
  step-IsSound {q} s e h below done =
      subst IsSound (ap (λ (o : Ending Value × Process H T). o.1) done)
        (execute-IsSound q s.world s.got_socket s.command h (omega arith))

  pub Reach-IsSound :
      {p q : Process H T} → Reach F H T is_full inet_aton p q → IsSound p → IsSound q
  Reach-IsSound here h = h
  Reach-IsSound (ran s e before below done alive) h =
      step-IsSound s e (Reach-IsSound before h) below done
  Reach-IsSound (elsewhere t before same) h =
      let k = Reach-IsSound before h in
      subst IsSound (sym same) (record { well = k.well; readable = k.readable })

  -- Whatever was called since the extension was loaded, with any arguments that did not crash the
  -- process, and whatever other processes did: there are at most five endpoints, numbered from 0,
  -- whose URLs fit, the index is at one of them or 0, the request number has 32 bits, and every
  -- cached answer can be read within its entry.
  pub pg_init-IsSound :
      (preloading : Bool) (time : ℕ) (hooks : Hooks) (q : Process H T)
      → Reach F H T is_full inet_aton (loaded F H T is_full inet_aton preloading time hooks) q
      → IsSound q
  pg_init-IsSound preloading time hooks q r =
      Reach-IsSound r (initial-IsSound preloading time hooks)
